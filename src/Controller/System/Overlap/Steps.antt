-- ===== src/Controller/System/Overlap/Steps.antt =====
-- controller.go: the steps of calls of SetChargePower, and the orders in which those of two calls
-- come.
use wallbox_homeautomation_g.Base.{List, String, [], inl, inr, refl, sym, ◌↔◌, ◌∷◌, ◌≡◌, ◌≢◌, ◌⊎◌}
use wallbox_homeautomation_g.Go.Time.{Time}

pub data PowerStep : Type 0 where
  -- the setting is written, the memory is changed, the event is recorded
  write_power change_power : String → PowerStep
  record_power : Time → String → PowerStep

-- The mode that the last write of a run leaves, and the last change.
abbrev pub last_write : String → List PowerStep → String
last_write v [] = v
last_write v (write_power m ∷ steps) = last_write m steps
last_write v (change_power m ∷ steps) = last_write v steps
last_write v (record_power now m ∷ steps) = last_write v steps

abbrev pub last_change : String → List PowerStep → String
last_change v [] = v
last_change v (write_power m ∷ steps) = last_change v steps
last_change v (change_power m ∷ steps) = last_change m steps
last_change v (record_power now m ∷ steps) = last_change v steps

-- The modes in the order of the writes, and in the order of the changes of the memory.
abbrev pub writes : List PowerStep → List String
writes [] = []
writes (write_power m ∷ steps) = m ∷ writes steps
writes (change_power m ∷ steps) = writes steps
writes (record_power now m ∷ steps) = writes steps

abbrev pub changes : List PowerStep → List String
changes [] = []
changes (write_power m ∷ steps) = changes steps
changes (change_power m ∷ steps) = m ∷ changes steps
changes (record_power now m ∷ steps) = changes steps

-- the steps of one call
abbrev pub power_steps : Time → String → List PowerStep
power_steps now m = write_power m ∷ change_power m ∷ record_power now m ∷ []

-- The steps of two calls in one order, in which each call's stand in theirs.
pub data Merge {ℓ} {A : Type ℓ} : List A → List A → List A → Type ℓ where
  finished : Merge [] [] []
  first : {x : A} {xs ys zs : List A} → Merge xs ys zs → Merge (x ∷ xs) ys (x ∷ zs)
  second : {y : A} {xs ys zs : List A} → Merge xs ys zs → Merge xs (y ∷ ys) (y ∷ zs)

pub Merge-writes :
    (xs ys zs : List PowerStep) → Merge xs ys zs → Merge (writes xs) (writes ys) (writes zs)
Merge-writes _ _ _ finished = finished
Merge-writes (write_power m ∷ xs) ys (_ ∷ zs) (first h) = first (Merge-writes xs ys zs h)
Merge-writes (change_power m ∷ xs) ys (_ ∷ zs) (first h) = Merge-writes xs ys zs h
Merge-writes (record_power t m ∷ xs) ys (_ ∷ zs) (first h) = Merge-writes xs ys zs h
Merge-writes xs (write_power m ∷ ys) (_ ∷ zs) (second h) = second (Merge-writes xs ys zs h)
Merge-writes xs (change_power m ∷ ys) (_ ∷ zs) (second h) = Merge-writes xs ys zs h
Merge-writes xs (record_power t m ∷ ys) (_ ∷ zs) (second h) = Merge-writes xs ys zs h

pub Merge-changes :
    (xs ys zs : List PowerStep) → Merge xs ys zs → Merge (changes xs) (changes ys) (changes zs)
Merge-changes _ _ _ finished = finished
Merge-changes (write_power m ∷ xs) ys (_ ∷ zs) (first h) = Merge-changes xs ys zs h
Merge-changes (change_power m ∷ xs) ys (_ ∷ zs) (first h) = first (Merge-changes xs ys zs h)
Merge-changes (record_power t m ∷ xs) ys (_ ∷ zs) (first h) = Merge-changes xs ys zs h
Merge-changes xs (write_power m ∷ ys) (_ ∷ zs) (second h) = Merge-changes xs ys zs h
Merge-changes xs (change_power m ∷ ys) (_ ∷ zs) (second h) = second (Merge-changes xs ys zs h)
Merge-changes xs (record_power t m ∷ ys) (_ ∷ zs) (second h) = Merge-changes xs ys zs h

-- Two modes in either order
abbrev pub InSomeOrder : String → String → List String → Type 0
InSomeOrder m n l = (l ≡ m ∷ n ∷ []) ⊎ (l ≡ n ∷ m ∷ [])

pub two_orders : (m n : String) (l : List String) → Merge (m ∷ []) (n ∷ []) l → InSomeOrder m n l
two_orders m n _ (first (second finished)) = inl refl
two_orders m n _ (second (first finished)) = inr refl

pub some_write : (m n : String) (l : List String) → InSomeOrder m n l → l ≢ []
some_write m n l (inl e) z = cc
some_write m n l (inr e) z = cc

abbrev pub last_of : String → List String → String
last_of v [] = v
last_of v (m ∷ ms) = last_of m ms

pub last_write-last_of :
    (v : String) (steps : List PowerStep) → last_write v steps ≡ last_of v (writes steps)
last_write-last_of v [] = refl
last_write-last_of v (write_power m ∷ steps) = last_write-last_of m steps
last_write-last_of v (change_power m ∷ steps) = last_write-last_of v steps
last_write-last_of v (record_power now m ∷ steps) = last_write-last_of v steps

pub last_change-last_of :
    (v : String) (steps : List PowerStep) → last_change v steps ≡ last_of v (changes steps)
last_change-last_of v [] = refl
last_change-last_of v (write_power m ∷ steps) = last_change-last_of v steps
last_change-last_of v (change_power m ∷ steps) = last_change-last_of m steps
last_change-last_of v (record_power now m ∷ steps) = last_change-last_of v steps

-- Of two modes in some order, the last tells the order.
pub same_last :
    (m n v w : String) (xs ys : List String)
    → m ≢ n
    → InSomeOrder m n xs
    → InSomeOrder m n ys
    → (last_of v xs ≡ last_of w ys) ↔ (xs ≡ ys)
same_last m n v w xs ys other (inl e) (inl e') = rw (e, e') ((λ h. refl), (λ h. refl))
same_last m n v w xs ys other (inl e) (inr e') =
    rw (e, e') ((λ h. absurd (other (sym h))), (λ h. cc))
same_last m n v w xs ys other (inr e) (inl e') = rw (e, e') ((λ h. absurd (other h)), (λ h. cc))
same_last m n v w xs ys other (inr e) (inr e') = rw (e, e') ((λ h. refl), (λ h. refl))
