-- ===== src/Util/Float.antt =====
-- util/money.go: amounts of money as float64. A float64 is its 64 bits (IEEE 754 binary64): a sign, 11
-- bits of exponent and 52 of fraction; the operations below compute on exact integers and round to the
-- nearest, ties to even. What `int64(x)` is where x is out of range Go leaves to the processor, so
-- that is a parameter.
mod Tests
use go_bank.Common.{
  ℕ, zero, suc, ◌+◌, ◌-◌, ◌*◌, ◌/◌, ◌%◌, ◌^◌, Bool, not, ◌&&◌, ◌||◌, if◌then◌else◌, ltb, leb, ◌==◌,
}
use go_bank.Common.Int.{ℤ, pos, pos_part, neg_part, ltb_ℤ, sub_ℕ}

-- The bits of a float64.
abbrev pub Float64 : Type 0
Float64 = ℕ

abbrev pub is_negative : Float64 → Bool
is_negative x = (x / 2 ^ 63) % 2 == 1

abbrev pub exponent : Float64 → ℕ
exponent x = (x / 2 ^ 52) % 2 ^ 11

abbrev pub fraction : Float64 → ℕ
fraction x = x % 2 ^ 52

abbrev pub is_nan : Float64 → Bool
is_nan x = (exponent x == 2047) && not (fraction x == 0)

abbrev pub is_zero : Float64 → Bool
is_zero x = (exponent x == 0) && (fraction x == 0)

-- `x <= 0` and `x < 0`: no comparison with a NaN holds, and -0 is 0.
abbrev pub le_zero : Float64 → Bool
le_zero x = not (is_nan x) && (is_negative x || is_zero x)

abbrev pub lt_zero : Float64 → Bool
lt_zero x = not (is_nan x) && is_negative x && not (is_zero x)

-- A finite float64 is its significand times 2 ^ (scale - 1075).
abbrev pub significand : Float64 → ℕ
significand x = if exponent x == 0 then fraction x else fraction x + 2 ^ 52

abbrev pub scale : Float64 → ℕ
scale x = if exponent x == 0 then 1 else exponent x

bit_length : ℕ → ℕ → ℕ
bit_length zero n = 0
bit_length (suc fuel) n = let rest = bit_length fuel (n / 2) in if n == 0 then 0 else suc rest

-- n / d to the nearest integer, ties to even; `sticky` says that n has a fraction left out.
abbrev round_even : (n d : ℕ) → (sticky : Bool) → ℕ
round_even n d sticky =
    let up = ltb d (2 * (n % d)) || ((2 * (n % d) == d) && (sticky || ((n / d) % 2 == 1))) in
    if up then n / d + 1 else n / d

-- The bits of a number that exceed 53, which a float64 rounds away.
abbrev excess_bits : ℕ → ℕ
excess_bits n = bit_length 128 n - 53

-- math.Round, half away from zero, of n * 2 ^ (e - 1075).
abbrev round_scaled : (n e : ℕ) → ℕ
round_scaled n e =
    if leb 1075 e then n * 2 ^ (e - 1075) else (2 * n + 2 ^ (1075 - e)) / (2 * 2 ^ (1075 - e))

-- The magnitude of `math.Round(x * 100)` for a finite x.
cents_magnitude : Float64 → ℕ
unfolding bit_length
cents_magnitude x =
    let n = significand x * 100 in
    let k = excess_bits n in round_scaled (round_even n (2 ^ k) Bool.false) (scale x + k)

-- `int64(math.Round(amount * 100))`. A product that overflows to infinity is out of range here too.
unfoldable pub float_to_cents : (out_of_range : Float64 → ℤ) → Float64 → ℤ
unfolding cents_magnitude
float_to_cents out_of_range amount =
    let n = cents_magnitude amount in
    if exponent amount == 2047
    then out_of_range amount
    else if is_negative amount
    then (if leb n (2 ^ 63) then sub_ℕ 0 n else out_of_range amount)
    else if ltb n (2 ^ 63)
    then pos n
    else out_of_range amount

-- The float64 nearest to n * 2 ^ (e - 1075), for n ≥ 1 with a fraction left out where `sticky`.
encode : (n e : ℕ) → (sticky : Bool) → Float64
unfolding bit_length
encode n e sticky =
    let k = excess_bits n in
    let r = round_even n (2 ^ k) sticky in
    if r == 2 ^ 53 then (e + k + 1) * 2 ^ 52 else (e + k) * 2 ^ 52 + (r - 2 ^ 52)

-- `float64(n) / 100.0` for n ≥ 1: n is rounded to 53 bits, then the quotient is.
hundredth : ℕ → Float64
unfolding bit_length encode
hundredth n =
    let k = excess_bits n in
    let m = round_even n (2 ^ k) Bool.false * 2 ^ k * 2 ^ 64 in
    encode (m / 100) (1075 - 64) (not (m % 100 == 0))

-- `float64(cents) / 100.0`
unfoldable pub cents_to_float : ℤ → Float64
unfolding hundredth
cents_to_float cents =
    if ltb_ℤ cents (pos 0)
    then 2 ^ 63 + hundredth (neg_part cents)
    else if pos_part cents == 0
    then 0
    else hundredth (pos_part cents)
