-- ===== src/Go/Strconv.antt =====
-- Package strconv: Itoa and Atoi on a 64-bit int.
use Prim.Native.Char.{code}
use Prim.Native.String.{[], ◌∷◌, ◌++◌ as append}
use wallbox_homeautomation_g.Base.{
  Bool, Option, String, eqb, false, if◌then◌else◌, leb, ltb, none, refl, some, suc, true, zero, ℕ,
  ◌%◌, ◌&&◌, ◌*◌, ◌+◌, ◌-◌, ◌/◌, ◌^◌, ◌≡◌,
}
use wallbox_homeautomation_g.Base.Int.{negsuc, pos, sub_ℕ, ℤ}

digit_text : ℕ → String
digit_text d =
    if eqb d 0
    then "0"
    else if eqb d 1
    then "1"
    else if eqb d 2
    then "2"
    else if eqb d 3
    then "3"
    else if eqb d 4
    then "4"
    else if eqb d 5
    then "5"
    else if eqb d 6
    then "6"
    else if eqb d 7
    then "7"
    else if eqb d 8
    then "8"
    else "9"

-- A 64-bit magnitude has at most 20 digits.
digits : ℕ → ℕ → String → String
unfolding digit_text
digits zero n out = out
digits (suc fuel) n out =
    let out' = append (digit_text (n % 10)) out in
    let rest = digits fuel (n / 10) out' in if ltb n 10 then out' else rest

unfoldable pub itoa : ℤ → String
unfolding digits
itoa (pos n) = digits 20 n ""
itoa (negsuc n) = append "-" (digits 20 (n + 1) "")

scan : ℕ → String → Option ℕ
scan n [] = some n
scan n (c ∷ s) =
    if leb b'0' (code c) && leb (code c) b'9' then scan (n * 10 + (code c - b'0')) s else none

scan_some : String → Option ℕ
unfolding scan
scan_some [] = none
scan_some (c ∷ s) = scan 0 (c ∷ s)

abbrev signed : Bool → Option ℕ → Option ℤ
signed minus none = none
signed true (some n) = if leb n (2 ^ 63) then some (sub_ℕ 0 n) else none
signed false (some n) = if ltb n (2 ^ 63) then some (pos n) else none

-- `none` is an error, of syntax or of range.
unfoldable pub atoi : String → Option ℤ
unfolding scan_some
atoi [] = none
atoi (c ∷ s) =
    if eqb (code c) b'-'
    then signed true (scan_some s)
    else if eqb (code c) b'+'
    then signed false (scan_some s)
    else signed false (scan_some (c ∷ s))

atoi_test : atoi (itoa (negsuc 41)) ≡ some (negsuc 41)
unfolding atoi itoa
atoi_test = refl
