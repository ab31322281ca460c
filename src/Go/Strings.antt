-- ===== src/Go/Strings.antt =====
-- Package strings: concatenation and TrimSpace, over the characters of a text.
pub mod Parts
use Prim.Native.Char.{code}
use text.Mathlib.TextLemmas.{tail-eq_of_cons-eq}
use wallbox_homeautomation_g.Base.{
  ==_false, ==_of_≡, ==_self, ==→≡, Bool, Bool-absurd, Bool-cases, String, ap, eqb, if◌then◌else◌,
  inl, inr, leb, refl, ℕ, ◌&&◌, ◌==◌, ◌||◌, ◌≡◌,
}

infixl 65 ◌+s◌
unfoldable pub ◌+s◌ : String → String → String
String.[] +s t = t
String.◌∷◌ c s +s t = String.◌∷◌ c (s +s t)

pub +s_assoc : (s t u : String) → (s +s t) +s u ≡ s +s (t +s u)
unfolding ◌+s◌
+s_assoc String.[] t u = refl
+s_assoc (String.◌∷◌ c s) t u = ap (String.◌∷◌ c) (+s_assoc s t u)

pub +s_cancel : (s t u : String) → s +s t ≡ s +s u → t ≡ u
unfolding ◌+s◌
+s_cancel String.[] t u h = h
+s_cancel (String.◌∷◌ c s) t u h = +s_cancel s t u (tail-eq_of_cons-eq h)

-- Texts with a common head compare as their tails do.
pub ==-+s : (s t u : String) → ((s +s t) == (s +s u)) ≡ (t == u)
==-+s s t u = elim (Bool-cases (t == u)) [
  | inl same ↦ rw same (rw (==→≡ t u same) (==_self (s +s u)))
  | inr other ↦
      rw other (==_false (s +s t) (s +s u) λ e. Bool-absurd (==_of_≡ t u (+s_cancel s t u e)) other)
]

-- unicode.IsSpace
unfoldable pub is_space : ℕ → Bool
is_space c =
    (leb 9 c && leb c 13)
    || eqb c 32
    || eqb c 0x85
    || eqb c 0xa0
    || eqb c 0x1680
    || (leb 0x2000 c && leb c 0x200a)
    || eqb c 0x2028
    || eqb c 0x2029
    || eqb c 0x202f
    || eqb c 0x205f
    || eqb c 0x3000

unfoldable pub trim_left : String → String
unfolding is_space
trim_left String.[] = String.[]
trim_left (String.◌∷◌ c s) =
    let rest = trim_left s in if is_space (code c) then rest else String.◌∷◌ c s

abbrev trim_cons : ℕ → (String → String) → String → String
trim_cons n c String.[] = if is_space n then String.[] else c String.[]
trim_cons n c (String.◌∷◌ d s) = c (String.◌∷◌ d s)

unfoldable pub trim_right : String → String
unfolding is_space
trim_right String.[] = String.[]
trim_right (String.◌∷◌ c s) = trim_cons (code c) (String.◌∷◌ c) (trim_right s)

unfoldable pub trim_space : String → String
unfolding trim_left trim_right
trim_space s = trim_right (trim_left s)

trim_space_test : trim_space " \n true\t " ≡ "true"
unfolding trim_space
trim_space_test = refl
