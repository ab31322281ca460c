-- ===== src/Updater/Version.antt =====
-- updater.go: bare versions X.Y.Z, as `semverRe` matches them, and their order.
use Prim.Native.Char.{code}
use wallbox_homeautomation_g.Base.{
  Bool, List, Option, String, [], eqb, false, if◌then◌else◌, leb, ltb, none, some, true, ℕ, ◌&&◌,
  ◌*◌, ◌+◌, ◌-◌, ◌^◌, ◌∷◌,
}
use wallbox_homeautomation_g.Base.Dict.{or_zero}
use wallbox_homeautomation_g.Base.Int.{lt_ℤ, negsuc, pos, ℤ}
use wallbox_homeautomation_g.Go.Strings.Parts.{split_on}

pub record Version : Type 0 where
  pub major : ℕ
  pub minor : ℕ
  pub patch : ℕ

-- What `strconv.Atoi` gives of digits alone: out of range it is the greatest int, beside an error
-- that the code drops.
scan_digits : ℕ → String → Option ℕ
scan_digits n String.[] = some n
scan_digits n (String.◌∷◌ c s) =
    if leb b'0' (code c) && leb (code c) b'9'
    then scan_digits (n * 10 + (code c - b'0')) s
    else none

abbrev clamp : Option ℕ → Option ℕ
clamp none = none
clamp (some n) = if ltb n (2 ^ 63) then some n else some (2 ^ 63 - 1)

unfoldable pub part : String → Option ℕ
unfolding scan_digits
part String.[] = none
part (String.◌∷◌ c s) = clamp (scan_digits 0 (String.◌∷◌ c s))

abbrev version_of_parts : Option ℕ → Option ℕ → Option ℕ → Option Version
version_of_parts (some a) (some b) (some c) = some (record { major = a; minor = b; patch = c })
version_of_parts _ _ _ = none

abbrev of_split : List String → Option Version
of_split (a ∷ b ∷ c ∷ []) = version_of_parts (part a) (part b) (part c)
of_split _ = none

-- a text that `semverRe` matches, by the numbers that `compareSemver` reads in it
unfoldable pub version_of : String → Option Version
version_of s = of_split (split_on b'.' s)

abbrev pub is_some : Option Version → Bool
is_some none = false
is_some (some v) = true

unfoldable pub is_semver : String → Bool
is_semver s = is_some (version_of s)

-- a round of the loop of `compareSemver`
unfoldable pub compare_part : ℕ → ℕ → ℤ → ℤ
compare_part a b rest = if eqb a b then rest else if ltb b a then pos 1 else negsuc 0

unfoldable pub compare_semver : Version → Version → ℤ
compare_semver a b =
    compare_part a.major b.major
      (compare_part a.minor b.minor (compare_part a.patch b.patch (pos 0)))

-- `none` where `semverRe` does not match
abbrev pub newer_version : Option Version → Option Version → Bool
newer_version (some c) (some l) = lt_ℤ (pos 0) (compare_semver l c)
newer_version _ _ = false

unfoldable pub newer : String → String → Bool
newer current latest = newer_version (version_of current) (version_of latest)

-- The first of the tags after sorting, newest first. Tags that compare equal are kept in order.
unfoldable pub best : List String → Option String
best [] = none
best (t ∷ ts) =
    let rest = best ts in
    if is_semver t
    then elim rest [ none ↦ some t | some r ↦ if newer t r then some r else some t ]
    else rest

unfoldable pub max_semver : List String → String
max_semver tags = or_zero "" (best tags)
