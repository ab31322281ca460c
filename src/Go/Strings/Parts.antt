-- ===== src/Go/Strings/Parts.antt =====
-- Package strings: splitting at a character, prefixes and suffixes, trimming of one character.
use Prim.Native.Char.{Char, code}
use wallbox_homeautomation_g.Base.{
  Bool, List, Option, String, [], eqb, false, if◌then◌else◌, leb, none, refl, some, suc, true, zero,
  ℕ, ◌&&◌, ◌-◌, ◌∷◌, ◌≡◌,
}

-- `strings.Split` and `strings.SplitSeq` at one character
abbrev pub head_part : Bool → (String → String) → List String → List String
head_part true grow ps = String.[] ∷ ps
head_part false grow [] = grow String.[] ∷ []
head_part false grow (p ∷ ps) = grow p ∷ ps

unfoldable pub split_on : ℕ → String → List String
split_on sep String.[] = String.[] ∷ []
split_on sep (String.◌∷◌ c s) = head_part (eqb (code c) sep) (String.◌∷◌ c) (split_on sep s)

abbrev under_head : (String → String) → Option (String × String) → Option (String × String)
under_head grow none = none
under_head grow (some (before, after)) = some (grow before, after)

-- what stands before the first `sep` and after it (`strings.IndexByte` and two slices)
unfoldable pub cut_at : ℕ → String → Option (String × String)
cut_at sep String.[] = none
cut_at sep (String.◌∷◌ c s) =
    if eqb (code c) sep then some (String.[], s) else under_head (String.◌∷◌ c) (cut_at sep s)

-- `strings.CutPrefix`
unfoldable pub cut_prefix : String → String → Option String
cut_prefix s String.[] = some s
cut_prefix String.[] (String.◌∷◌ d p) = none
cut_prefix (String.◌∷◌ c s) (String.◌∷◌ d p) =
    if eqb (code c) (code d) then cut_prefix s p else none

abbrev pub is_cut : Option String → Bool
is_cut none = false
is_cut (some s) = true

-- `strings.HasPrefix`
abbrev pub has_prefix : String → String → Bool
has_prefix s p = is_cut (cut_prefix s p)

abbrev last_cons : (String → String) → Option (String × ℕ) → ℕ → Option (String × ℕ)
last_cons grow none c = some (String.[], c)
last_cons grow (some (s, d)) c = some (grow s, d)

-- the last character, and what stands before it
unfoldable pub cut_last : String → Option (String × ℕ)
cut_last String.[] = none
cut_last (String.◌∷◌ c s) = last_cons (String.◌∷◌ c) (cut_last s) (code c)

-- `strings.TrimLeft(s, c)`
unfoldable pub trim_left_of : ℕ → String → String
trim_left_of c String.[] = String.[]
trim_left_of c (String.◌∷◌ d s) =
    let rest = trim_left_of c s in if eqb (code d) c then rest else String.◌∷◌ d s

abbrev trimmed : Bool → (String → String) → String → String
trimmed true grow String.[] = String.[]
trimmed true grow (String.◌∷◌ d s) = grow (String.◌∷◌ d s)
trimmed false grow s = grow s

-- `strings.TrimRight(s, c)`
unfoldable pub trim_right_of : ℕ → String → String
trim_right_of c String.[] = String.[]
trim_right_of c (String.◌∷◌ d s) = trimmed (eqb (code d) c) (String.◌∷◌ d) (trim_right_of c s)

-- `strings.ReplaceAll(s, c, "")`
unfoldable pub remove_all : ℕ → String → String
remove_all c String.[] = String.[]
remove_all c (String.◌∷◌ d s) =
    if eqb (code d) c then remove_all c s else String.◌∷◌ d (remove_all c s)

nth_char : Char → ℕ → String → Char
nth_char d n String.[] = d
nth_char d zero (String.◌∷◌ c s) = c
nth_char d (suc n) (String.◌∷◌ c s) = nth_char d n s

-- `strings.ToLower` of A to Z. Of the other characters only U+0130 and U+212A have an ASCII lower
-- case, "i" and "k".
unfoldable pub to_lower : String → String
unfolding nth_char
to_lower String.[] = String.[]
to_lower (String.◌∷◌ c s) =
    let small = nth_char c (code c - b'A') "abcdefghijklmnopqrstuvwxyz" in
    String.◌∷◌ (if leb b'A' (code c) && leb (code c) b'Z' then small else c) (to_lower s)

lower_test : to_lower "De-AZ[@" ≡ "de-az[@"
unfolding to_lower
lower_test = refl

parts_test : split_on b',' "a,b,,c" ≡ "a" ∷ "b" ∷ "" ∷ "c" ∷ []
unfolding split_on
parts_test = refl

trim_test : trim_right_of b'/' (trim_left_of b'/' "//v2/x//") ≡ "v2/x"
unfolding trim_right_of trim_left_of
trim_test = refl

cut_test : cut_prefix "q=0.5" "q=" ≡ some "0.5"
unfolding cut_prefix
cut_test = refl
