-- ===== src/Store/Listing/Order.antt =====
-- internal/store: what `ORDER BY … LIMIT n` gives of a table's rows.
use mathlib.Core.List.Perm
use mathlib.Core.List.{Perm}
use wallbox_homeautomation_g.Base.{
  Bool, Bool-cases, List, [], ap, arith, false, inl, inr, length, refl, suc, true, zero, ℕ, ◌++◌,
  ◌∷◌, ◌≡◌, ◌≤◌, ◌⊎◌,
}
use wallbox_homeautomation_g.Base.Int.{pos}
use wallbox_homeautomation_g.Store.Listing.{insert_by, limit_to, order_by, take}

abbrev pub All {ℓ κ} : {A : Type ℓ} → (A → Type κ) → List A → Type κ
All P [] = Unit
All P (x ∷ xs) = P x × All P xs

All-map {ℓ κ μ} :
    {A : Type ℓ} (P : A → Type κ) (Q : A → Type μ) (xs : List A)
    → ((x : A) → P x → Q x)
    → All P xs
    → All Q xs
All-map P Q [] f h = tt
All-map P Q (x ∷ xs) f h = (f x h.0, All-map P Q xs f h.1)

-- `first x y` tells that x is to come before y, which R allows; R is the order of the listing.
pub record IsOrder {ℓ} {A : Type ℓ} (first : A → A → Bool) (R : A → A → Type 0) : Type ℓ where
  pub holds : (x y : A) → first x y ≡ true → R x y
  pub fails : (x y : A) → first x y ≡ false → R y x
  pub trans : (x y z : A) → R x y → R y z → R x z

module _ {ℓ} {A : Type ℓ} where
  -- each row may stand before those after it
  abbrev pub Sorted : (A → A → Type 0) → List A → Type 0
  Sorted R [] = Unit
  Sorted R (x ∷ xs) = All (R x) xs × Sorted R xs

  -- The first rows of a table in an order, at most `limit` of them, and all that there are if fewer.
  pub record IsTop (R : A → A → Type 0) (limit : ℕ) (listed rows : List A) : Type ℓ where
    pub sorted : Sorted R listed
    pub rest : List A
    pub rows_of : Perm (listed ++ rest) rows
    pub first : All (λ x. All (R x) rest) listed
    pub bound : length listed ≤ limit
    pub complete : (rest ≡ []) ⊎ (length listed ≡ limit)

  beyond : ℕ → List A → List A
  beyond zero xs = xs
  beyond (suc n) [] = []
  beyond (suc n) (x ∷ xs) = beyond n xs

  take-beyond : (n : ℕ) (xs : List A) → take n xs ++ beyond n xs ≡ xs
  unfolding beyond
  take-beyond zero xs = refl
  take-beyond (suc n) [] = refl
  take-beyond (suc n) (x ∷ xs) = ap (λ ys. x ∷ ys) (take-beyond n xs)

  length-take : (n : ℕ) (xs : List A) → length (take n xs) ≤ n
  length-take zero xs = omega arith
  length-take (suc n) [] = omega arith
  length-take (suc n) (x ∷ xs) = omega (arith, length-take n xs)

  take_complete : (n : ℕ) (xs : List A) → (beyond n xs ≡ []) ⊎ (length (take n xs) ≡ n)
  unfolding beyond
  take_complete zero xs = inr refl
  take_complete (suc n) [] = inl refl
  take_complete (suc n) (x ∷ xs) = elim (take_complete n xs) [
    | inl e ↦ inl e
    | inr e ↦ inr (ap suc e)
  ]

  module _ (R : A → A → Type 0) where
    All-take : (P : A → Type 0) (n : ℕ) (xs : List A) → All P xs → All P (take n xs)
    All-take P zero xs h = tt
    All-take P (suc n) [] h = tt
    All-take P (suc n) (x ∷ xs) h = (h.0, All-take P n xs h.1)

    All-beyond : (P : A → Type 0) (n : ℕ) (xs : List A) → All P xs → All P (beyond n xs)
    unfolding beyond
    All-beyond P zero xs h = h
    All-beyond P (suc n) [] h = tt
    All-beyond P (suc n) (x ∷ xs) h = All-beyond P n xs h.1

    take-Sorted : (n : ℕ) (xs : List A) → Sorted R xs → Sorted R (take n xs)
    take-Sorted zero xs h = tt
    take-Sorted (suc n) [] h = tt
    take-Sorted (suc n) (x ∷ xs) h = (All-take (R x) n xs h.0, take-Sorted n xs h.1)

    take_first :
        (n : ℕ) (xs : List A) → Sorted R xs → All (λ x. All (R x) (beyond n xs)) (take n xs)
    unfolding beyond
    take_first zero xs h = tt
    take_first (suc n) [] h = tt
    take_first (suc n) (x ∷ xs) h = (All-beyond (R x) n xs h.0, take_first n xs h.1)

    module _ (first : A → A → Bool) (o : IsOrder first R) where
      All-insert_by :
          (P : A → Type 0) (x : A) (xs : List A) → P x → All P xs → All P (insert_by first x xs)
      unfolding insert_by
      All-insert_by P x [] p h = (p, tt)
      All-insert_by P x (y ∷ ys) p h = elim (Bool-cases (first y x)) [
        | inl before ↦ rw before (h.0, All-insert_by P x ys p h.1)
        | inr after ↦ rw after (p, h)
      ]

      insert_by-Sorted : (x : A) (xs : List A) → Sorted R xs → Sorted R (insert_by first x xs)
      unfolding insert_by
      insert_by-Sorted x [] h = (tt, tt)
      insert_by-Sorted x (y ∷ ys) h = elim (Bool-cases (first y x)) [
        | inl ahead ↦
            rw ahead (All-insert_by (R y) x ys (o.holds y x ahead) h.0, insert_by-Sorted x ys h.1)
        | inr behind ↦
            let le = o.fails y x behind in
            rw behind ((le, All-map (R y) (R x) ys (λ z r. o.trans x y z le r) h.0), h)
      ]

      insert_by-perm : (x : A) (xs : List A) → Perm (insert_by first x xs) (x ∷ xs)
      unfolding insert_by
      insert_by-perm x [] = Perm.refl (x ∷ [])
      insert_by-perm x (y ∷ ys) = elim (Bool-cases (first y x)) [
        | inl ahead ↦ rw ahead (Perm.trans (Perm.cons y (insert_by-perm x ys)) (Perm.swap x y ys))
        | inr behind ↦ rw behind (Perm.refl (x ∷ y ∷ ys))
      ]

      order_by-Sorted : (xs : List A) → Sorted R (order_by first xs)
      unfolding order_by
      order_by-Sorted [] = tt
      order_by-Sorted (x ∷ xs) = insert_by-Sorted x (order_by first xs) (order_by-Sorted xs)

      order_by-perm : (xs : List A) → Perm (order_by first xs) xs
      unfolding order_by
      order_by-perm [] = Perm.refl []
      order_by-perm (x ∷ xs) =
          Perm.trans (insert_by-perm x (order_by first xs)) (Perm.cons x (order_by-perm xs))

      pub limit_to-IsTop :
          (limit : ℕ) (rows : List A)
          → IsTop R limit (limit_to (pos limit) (order_by first rows)) rows
      unfolding limit_to
      limit_to-IsTop limit rows =
          let sorted = order_by first rows in
          record {
            sorted = take-Sorted limit sorted (order_by-Sorted rows);
            rest = beyond limit sorted;
            rows_of = rw take-beyond (order_by-perm rows);
            first = take_first limit sorted (order_by-Sorted rows);
            bound = length-take limit sorted;
            complete = take_complete limit sorted;
          }

      All-order_by : (P : A → Type 0) (xs : List A) → All P xs → All P (order_by first xs)
      unfolding order_by
      All-order_by P [] h = tt
      All-order_by P (x ∷ xs) h = All-insert_by P x (order_by first xs) h.0 (All-order_by P xs h.1)

      -- What holds of every row holds of those listed.
      pub All-limit_to :
          (P : A → Type 0) (limit : ℕ) (rows : List A)
          → All P rows
          → All P (limit_to (pos limit) (order_by first rows))
      unfolding limit_to
      All-limit_to P limit rows h = All-take P limit (order_by first rows) (All-order_by P rows h)
