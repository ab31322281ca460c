-- ===== src/Go/Result.antt =====
-- A value beside an error that the code only tests for nil.
use wallbox_homeautomation_g.Base.{Bool, Option, false, inl, inr, none, refl, some, true, ◌≡◌, ◌⊎◌}

pub data Result {ℓ} (A : Type ℓ) : Type ℓ where
  ok : A → Result A
  err : Result A

abbrev pub Done : Type 0
Done = Result (Unit {0})

abbrev pub is_ok {ℓ} : {A : Type ℓ} → Result A → Bool
is_ok (ok a) = true
is_ok err = false

-- `if err != nil { return err }`
infixl 5 ◌>>=◌ ◌>>◌
abbrev pub ◌>>=◌ {ℓ κ} : {A : Type ℓ} {B : Type κ} → Result A → (A → Result B) → Result B
ok a >>= f = f a
err >>= f = err

abbrev pub ◌>>◌ {ℓ} : {B : Type ℓ} → Done → Result B → Result B
m >> k = m >>= λ _. k

abbrev pub guard : Bool → Done
guard true = ok tt
guard false = err

abbrev pub of_option {ℓ} : {A : Type ℓ} → Option A → Result A
of_option none = err
of_option (some a) = ok a

pub Result-cases {ℓ} : {A : Type ℓ} (r : Result A) → ((a : A) × (r ≡ ok a)) ⊎ (r ≡ err)
Result-cases (ok a) = inl (a, refl)
Result-cases err = inr refl

pub bind-ok {ℓ κ} :
    {A : Type ℓ} {B : Type κ} (r : Result A) (k : A → Result B) (b : B)
    → (r >>= k) ≡ ok b
    → (a : A) × (r ≡ ok a) × (k a ≡ ok b)
bind-ok (ok a) k b h = (a, refl, h)
bind-ok err k b h = absurd (cc)

pub of_option-ok {ℓ} : {A : Type ℓ} (m : Option A) (a : A) → of_option m ≡ ok a → m ≡ some a
of_option-ok none a h = absurd (cc)
of_option-ok (some b) a h = cc
