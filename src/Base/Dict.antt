-- ===== src/Base/Dict.antt =====
-- A Go map with text keys, as an association list; a missing key reads as the type's zero value.
use Prim.Native.String.{String}
use mathlib.Core.Path.{◌≡◌, sym, subst}
use mathlib.Core.Logic.{inl, inr}
use mathlib.Core.Bool.{false}
use mathlib.Core.List.{List, [], ◌∷◌}
use mathlib.Core.Option.{Option, none, some}
use native.Mathlib.Omega.{arith}
use wallbox_homeautomation_g.Base.Tests.{if◌then◌else◌, ◌==◌, ==→≡, ==_self, Bool-cases}

abbrev pub Dict {ℓ} : Type ℓ → Type ℓ
Dict V = List (String × V)

abbrev pub or_zero {ℓ} : {V : Type ℓ} → V → Option V → V
or_zero z none = z
or_zero z (some v) = v

module _ {ℓ} {V : Type ℓ} where
  unfoldable pub lookup : String → Dict V → Option V
  lookup k [] = none
  lookup k ((j, v) ∷ m) = if k == j then some v else lookup k m

  unfoldable pub insert : String → V → Dict V → Dict V
  insert k v [] = (k, v) ∷ []
  insert k v ((j, w) ∷ m) = if k == j then (k, v) ∷ m else (j, w) ∷ insert k v m

  pub lookup-insert_self : (k : String) (v : V) (m : Dict V) → lookup k (insert k v m) ≡ some v
  unfolding lookup insert
  lookup-insert_self k v [] = ground (arith, ==_self k)
  lookup-insert_self k v ((j, w) ∷ m) = ground (arith, ==_self k, lookup-insert_self k v m)

  pub lookup-insert_ne :
      (j k : String) (v : V) (m : Dict V) → (j == k) ≡ false → lookup j (insert k v m) ≡ lookup j m
  unfolding lookup insert
  lookup-insert_ne j k v [] h = ground arith
  lookup-insert_ne j k v ((i, w) ∷ m) h = ground (arith, ==→≡ k i, lookup-insert_ne j k v m h)

-- Every entry satisfies P.
abbrev pub Entries {ℓ κ} : {V : Type ℓ} → (String → V → Type κ) → Dict V → Type κ
Entries P [] = Unit
Entries P ((k, v) ∷ m) = P k v × Entries P m

some_eq {ℓ} : {V : Type ℓ} (w v : V) → some w ≡ some v → w ≡ v
some_eq w v e = cc

module _ {ℓ κ} {V : Type ℓ} (P : String → V → Type κ) where
  pub insert-Entries :
      (k : String) (v : V) (m : Dict V) → P k v → Entries P m → Entries P (insert k v m)
  unfolding insert
  insert-Entries k v [] p h = (p, tt)
  insert-Entries k v ((j, w) ∷ m) p h = elim (Bool-cases (k == j)) [
    | inl same ↦ rw same (p, h.1)
    | inr other ↦ rw other (h.0, insert-Entries k v m p h.1)
  ]

  pub lookup-Entries : (k : String) (v : V) (m : Dict V) → Entries P m → lookup k m ≡ some v → P k v
  unfolding lookup
  lookup-Entries k v [] h e = absurd (cc)
  lookup-Entries k v ((j, w) ∷ m) h e = elim (Bool-cases (k == j)) [
    | inl same ↦
        subst (P k) (some_eq w v (rw same at e)) (subst (λ i. P i w) (sym (==→≡ k j same)) h.0)
    | inr other ↦ lookup-Entries k v m h.1 (rw other at e)
  ]
