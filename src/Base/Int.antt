-- ===== src/Base/Int.antt =====
-- Signed integers over the native numbers, their Boolean tests, and the wrap-around of `int`.
use Prim.Native.Nat.{ℕ, suc, ◌+◌, ◌-◌, ◌*◌, ◌/◌, ◌%◌, ◌^◌, ◌≤◌, ◌<◌}
use mathlib.Core.Path.{◌≡◌}
use mathlib.Core.Logic.{◌↔◌}
use mathlib.Core.Bool.{Bool, true, false}
use native.Mathlib.Omega.{arith}
use wallbox_homeautomation_g.Base.Tests.{ltb, leb, eqb, if◌then◌else◌}

-- `negsuc n` is -(n + 1).
pub data ℤ : Type 0 where
  pos : ℕ → ℤ
  negsuc : ℕ → ℤ

abbrev pub pos_part : ℤ → ℕ
pos_part (pos n) = n
pos_part (negsuc n) = 0

abbrev pub neg_part : ℤ → ℕ
neg_part (pos n) = 0
neg_part (negsuc n) = suc n

-- a - b, as an integer.
abbrev pub sub_ℕ : ℕ → ℕ → ℤ
sub_ℕ a b = if leb b a then pos (a - b) else negsuc (b - a - 1)

infixl 65 ◌+ℤ◌ ◌-ℤ◌
infixl 70 ◌*ℤ◌ ◌/ℤ◌ ◌%ℤ◌
infix 50 ◌≤ℤ◌ ◌<ℤ◌
unfoldable pub ◌+ℤ◌ : ℤ → ℤ → ℤ
a +ℤ b = sub_ℕ (pos_part a + pos_part b) (neg_part a + neg_part b)

unfoldable pub ◌-ℤ◌ : ℤ → ℤ → ℤ
a -ℤ b = sub_ℕ (pos_part a + neg_part b) (neg_part a + pos_part b)

unfoldable pub ◌*ℤ◌ : ℤ → ℤ → ℤ
a *ℤ b =
    sub_ℕ (pos_part a * pos_part b + neg_part a * neg_part b)
      (pos_part a * neg_part b + neg_part a * pos_part b)

-- Go divides towards zero; the remainder has the sign of the dividend.
unfoldable pub ◌/ℤ◌ : ℤ → ℤ → ℤ
a /ℤ b =
    sub_ℕ (pos_part a / pos_part b + neg_part a / neg_part b)
      (pos_part a / neg_part b + neg_part a / pos_part b)

unfoldable pub ◌%ℤ◌ : ℤ → ℤ → ℤ
a %ℤ b = let d = pos_part b + neg_part b in sub_ℕ (pos_part a % d) (neg_part a % d)

abbrev pub ◌≤ℤ◌ : ℤ → ℤ → Type 0
a ≤ℤ b = pos_part a + neg_part b ≤ pos_part b + neg_part a

abbrev pub ◌<ℤ◌ : ℤ → ℤ → Type 0
a <ℤ b = pos_part a + neg_part b < pos_part b + neg_part a

unfoldable pub lt_ℤ : ℤ → ℤ → Bool
lt_ℤ a b = ltb (pos_part a + neg_part b) (pos_part b + neg_part a)

unfoldable pub le_ℤ : ℤ → ℤ → Bool
le_ℤ a b = leb (pos_part a + neg_part b) (pos_part b + neg_part a)

unfoldable pub eq_ℤ : ℤ → ℤ → Bool
eq_ℤ a b = eqb (pos_part a + neg_part b) (pos_part b + neg_part a)

pub lt_ℤ→< : (a b : ℤ) → lt_ℤ a b ≡ true → a <ℤ b
unfolding lt_ℤ
lt_ℤ→< a b h = ground arith

pub lt_ℤ→≥ : (a b : ℤ) → lt_ℤ a b ≡ false → b ≤ℤ a
unfolding lt_ℤ
lt_ℤ→≥ a b h = ground arith

pub <→lt_ℤ : (a b : ℤ) → a <ℤ b → lt_ℤ a b ≡ true
unfolding lt_ℤ
<→lt_ℤ a b h = ground arith

pub ≥→lt_ℤ : (a b : ℤ) → b ≤ℤ a → lt_ℤ a b ≡ false
unfolding lt_ℤ
≥→lt_ℤ a b h = ground arith

pub le_ℤ→≤ : (a b : ℤ) → le_ℤ a b ≡ true → a ≤ℤ b
unfolding le_ℤ
le_ℤ→≤ a b h = ground arith

pub le_ℤ→> : (a b : ℤ) → le_ℤ a b ≡ false → b <ℤ a
unfolding le_ℤ
le_ℤ→> a b h = ground arith

pub ≤→le_ℤ : (a b : ℤ) → a ≤ℤ b → le_ℤ a b ≡ true
unfolding le_ℤ
≤→le_ℤ a b h = ground arith

pub >→le_ℤ : (a b : ℤ) → b <ℤ a → le_ℤ a b ≡ false
unfolding le_ℤ
>→le_ℤ a b h = ground arith

pub lt_ℤ_iff : (a b : ℤ) → (lt_ℤ a b ≡ true) ↔ (a <ℤ b)
lt_ℤ_iff a b = (lt_ℤ→< a b, <→lt_ℤ a b)

pub le_ℤ_iff : (a b : ℤ) → (le_ℤ a b ≡ true) ↔ (a ≤ℤ b)
le_ℤ_iff a b = (le_ℤ→≤ a b, ≤→le_ℤ a b)

pub eq_ℤ→≡ : (a b : ℤ) → eq_ℤ a b ≡ true → a ≡ b
unfolding eq_ℤ
eq_ℤ→≡ a b h = ground arith

pub eq_of_parts : (a b : ℤ) → pos_part a + neg_part b ≡ pos_part b + neg_part a → a ≡ b
eq_of_parts a b h = ground arith

pub eq_ℤ_self : (a : ℤ) → eq_ℤ a a ≡ true
unfolding eq_ℤ
eq_ℤ_self a = ground arith

pub +ℤ_parts :
    (a b : ℤ)
    → pos_part (a +ℤ b) + neg_part a + neg_part b ≡ neg_part (a +ℤ b) + pos_part a + pos_part b
unfolding ◌+ℤ◌
+ℤ_parts a b = ground arith

pub -ℤ_parts :
    (a b : ℤ)
    → pos_part (a -ℤ b) + neg_part a + pos_part b ≡ neg_part (a -ℤ b) + pos_part a + neg_part b
unfolding ◌-ℤ◌
-ℤ_parts a b = ground arith

pub ℤ_ext : (a b : ℤ) → pos_part a + neg_part b ≡ pos_part b + neg_part a → a ≡ b
ℤ_ext a b h = ground arith

pub ruleset int_laws = (
  arith, +ℤ_parts, -ℤ_parts, ℤ_ext, lt_ℤ→<, lt_ℤ→≥, <→lt_ℤ, ≥→lt_ℤ, le_ℤ→≤, le_ℤ→>, ≤→le_ℤ, >→le_ℤ,
)

-- What a 64-bit two's complement register holds of an integer.
unfoldable pub int64 : ℤ → ℤ
int64 (pos n) = let r = n % 2 ^ 64 in if ltb r (2 ^ 63) then pos r else negsuc (2 ^ 64 - 1 - r)
int64 (negsuc n) = let r = n % 2 ^ 64 in if ltb r (2 ^ 63) then negsuc r else pos (2 ^ 64 - 1 - r)

abbrev pub IsInt64 : ℤ → Type 0
IsInt64 a = (negsuc (2 ^ 63 - 1) ≤ℤ a) × (a <ℤ pos (2 ^ 63))

pub int64_of_IsInt64 : (a : ℤ) → IsInt64 a → int64 a ≡ a
unfolding int64
int64_of_IsInt64 (pos n) h = ground arith
int64_of_IsInt64 (negsuc n) h = ground arith

pub int64-IsInt64 : (a : ℤ) → IsInt64 (int64 a)
unfolding int64
int64-IsInt64 (pos n) = ground arith
int64-IsInt64 (negsuc n) = ground arith
