-- ===== src/Base/Tests.antt =====
-- Boolean tests on numbers and texts, the conditional, and case splits that keep the equation.
use Prim.Native.Nat.{ℕ, suc, compare, Ordering}
use Prim.Native.String.{String}
use mathlib.Core.Path.{◌≡◌, refl}
use mathlib.Core.Logic.{◌≢◌, ◌↔◌, ◌⊎◌, inl, inr}
use mathlib.Core.Bool.{Bool, true, false}
use mathlib.Core.Option.{Option, none, some}
use mathlib.Core.List.{List, [], ◌∷◌}
use native.Mathlib.Omega.{arith}
use text.Mathlib.Text.{◌==◌ as text_eq}
use text.Mathlib.TextEquality.{eq_iff}

abbrev pub ltb : ℕ → ℕ → Bool
ltb a b = elim (compare a b) [ Ordering.lt ↦ true | _ ↦ false ]

abbrev pub leb : ℕ → ℕ → Bool
leb a b = elim (compare a b) [ Ordering.gt ↦ false | _ ↦ true ]

abbrev pub eqb : ℕ → ℕ → Bool
eqb a b = elim (compare a b) [ Ordering.eq ↦ true | _ ↦ false ]

infix 1 if◌then◌else◌
abbrev pub if◌then◌else◌ {ℓ} : {A : Type ℓ} → Bool → A → A → A
if true then x else y = x
if false then x else y = y

-- Equality of texts, shut: proofs take the test as it stands, or go by the two laws below.
infix 50 ◌==◌
unfoldable pub ◌==◌ : String → String → Bool
s == t = text_eq s t

pub ==→≡ : (s t : String) → (s == t) ≡ true → s ≡ t
unfolding ◌==◌
==→≡ s t h = (eq_iff s t).0 h

pub ==_iff : (s t : String) → ((s == t) ≡ true) ↔ (s ≡ t)
unfolding ◌==◌
==_iff s t = eq_iff s t

pub ==_of_≡ : (s t : String) → s ≡ t → (s == t) ≡ true
==_of_≡ s t h = (==_iff s t).1 h

pub ==_self : (s : String) → (s == s) ≡ true
unfolding ◌==◌
==_self s = (eq_iff s s).1 refl

pub ==_false : (s t : String) → s ≢ t → (s == t) ≡ false
unfolding ◌==◌
==_false s t h = ground (arith, eq_iff s t)

pub Bool-cases : (b : Bool) → (b ≡ true) ⊎ (b ≡ false)
Bool-cases true = inl refl
Bool-cases false = inr refl

pub Option-cases {ℓ} : {A : Type ℓ} (o : Option A) → (o ≡ none) ⊎ ((a : A) × (o ≡ some a))
Option-cases none = inl refl
Option-cases (some a) = inr (a, refl)

pub Bool-absurd {ℓ} : {A : Type ℓ} {b : Bool} → b ≡ true → b ≡ false → A
Bool-absurd {b = true} p q = absurd (cc)
Bool-absurd {b = false} p q = absurd (cc)

-- What holds of both branches holds of the conditional.
pub if_intro {ℓ κ} :
    {A : Type ℓ} (P : A → Type κ) (b : Bool) {x y : A} → P x → P y → P (if b then x else y)
if_intro P true p q = p
if_intro P false p q = q

module _ {ℓ} {A : Type ℓ} where
  abbrev pub length : List A → ℕ
  length [] = 0
  length (x ∷ xs) = suc (length xs)
