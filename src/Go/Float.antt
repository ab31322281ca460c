-- ===== src/Go/Float.antt =====
-- float64. The code uses the operations below; their values are left open, so that every theorem
-- holds of the machine's rounding, and a theorem that needs a law of IEEE 754 names it.
use wallbox_homeautomation_g.Base.{
  Bool, Option, String, false, if◌then◌else◌, none, some, true, ℕ, ◌==◌, ◌≡◌,
}
use wallbox_homeautomation_g.Base.Int.{
  eq_ℤ, int_laws, le_ℤ, lt_ℤ, pos, ℤ, ◌%ℤ◌, ◌*ℤ◌, ◌+ℤ◌, ◌-ℤ◌, ◌/ℤ◌,
}

pub record Float {ℓ} (W : Type ℓ) : Type ℓ where
  pub lt : W → W → Bool
  pub le : W → W → Bool
  pub eq : W → W → Bool
  pub add : W → W → W
  pub sub : W → W → W
  pub mul : W → W → W
  pub div : W → W → W
  pub fmod : W → W → W
  -- the conversions `float64(n)` and `int(math.Round(x))`
  pub of_int : ℤ → W
  pub round : W → ℤ
  -- `int(x)`, `time.Duration(x)`: towards zero; out of range the machine decides
  pub trunc : W → ℤ
  -- `strconv.ParseFloat(s, 64)` and `strconv.FormatFloat(x, 'f', -1, 64)`
  pub parse_float : String → Option W
  pub format_float : W → String
  -- `fmt.Sprintf("%.1f", x)`, by the number of decimals
  pub format_fixed : ℕ → W → String

abbrev pub nought {ℓ} : {W : Type ℓ} ⦃f : Float W⦄ → W
nought ⦃f⦄ = f.of_int (pos 0)

-- The comparisons of IEEE 754: a NaN operand makes each of them false.
pub record IsOrdered {ℓ} (W : Type ℓ) ⦃f : Float W⦄ : Type ℓ where
  pub lt_asym : (x y : W) → f.lt x y ≡ true → f.lt y x ≡ false
  pub lt_trans : (x y z : W) → f.lt x y ≡ true → f.lt y z ≡ true → f.lt x z ≡ true
  pub lt_le_trans : (x y z : W) → f.lt x y ≡ true → f.le y z ≡ true → f.lt x z ≡ true

-- Whole numbers, with division towards zero; of texts they read one numeral.
instance abbrev pub whole : Float ℤ
whole = record {
  lt = lt_ℤ;
  le = le_ℤ;
  eq = eq_ℤ;
  add = ◌+ℤ◌;
  sub = ◌-ℤ◌;
  mul = ◌*ℤ◌;
  div = ◌/ℤ◌;
  fmod = ◌%ℤ◌;
  of_int = λ n. n;
  round = λ n. n;
  trunc = λ n. n;
  parse_float = λ s. if s == "1500" then some (pos 1500) else none;
  format_float = λ w. "1500";
  format_fixed = λ decimals w. "1.5";
}

pub whole-IsOrdered : IsOrdered ℤ ⦃f = whole⦄
whole-IsOrdered = record {
  lt_asym = λ x y h. omega (int_laws);
  lt_trans = λ x y z h k. omega (int_laws);
  lt_le_trans = λ x y z h k. omega (int_laws);
}

-- `Duration.Hours`
unfoldable pub hours {ℓ} : {W : Type ℓ} ⦃f : Float W⦄ → ℤ → W
hours ⦃f⦄ d =
    let h : ℤ = pos 3_600_000_000_000 in
    f.add (f.of_int (d /ℤ h)) (f.div (f.of_int (d %ℤ h)) (f.of_int h))

-- `Duration.Minutes` and `Duration.Seconds`
unfoldable pub minutes {ℓ} : {W : Type ℓ} ⦃f : Float W⦄ → ℤ → W
minutes ⦃f⦄ d =
    let m : ℤ = pos 60_000_000_000 in
    f.add (f.of_int (d /ℤ m)) (f.div (f.of_int (d %ℤ m)) (f.of_int m))

unfoldable pub seconds {ℓ} : {W : Type ℓ} ⦃f : Float W⦄ → ℤ → W
seconds ⦃f⦄ d =
    let s : ℤ = pos 1_000_000_000 in
    f.add (f.of_int (d /ℤ s)) (f.div (f.of_int (d %ℤ s)) (f.of_int s))
