-- ===== src/Common/Text/Decimal.antt =====
-- The digits of a number say the number, if there are enough of them.
use Prim.Native.Char.{code}
use Prim.Native.String
use Prim.Native.String.{String}
use Prim.Native.String.append.{nil, cons}
use Prim.Native.Nat.pow
use go_bank.Common.{
  ℕ, zero, suc, ◌+◌, ◌-◌, ◌*◌, ◌/◌, ◌%◌, ◌^◌, ◌<◌, ◌≡◌, refl, ap, ◌∙◌, Bool-cases, inl, inr, ltb,
  arith,
}
use go_bank.Common.Int.{pos}
use go_bank.Common.Text.{single, digits, decimal}

-- Reads decimal digits, from a number that the digits before have made.
read_from : ℕ → String → ℕ
read_from acc String.[] = acc
read_from acc (String.◌∷◌ c s) = read_from (acc * 10 + (code c - 48)) s

unfoldable pub read_digits : String → ℕ
unfolding read_from
read_digits s = read_from 0 s

read_from-++ :
    (acc : ℕ) (s t : String) → read_from acc (String.◌++◌ s t) ≡ read_from (read_from acc s) t
unfolding read_from
read_from-++ acc String.[] t = ap (read_from acc) (nil t)
read_from-++ acc (String.◌∷◌ c s) t =
    ap (read_from acc) (cons c s t) ∙ read_from-++ (acc * 10 + (code c - 48)) s t

digit : (r : ℕ) → r < 10 → code (String.char_at "0123456789" r) ≡ 48 + r
digit zero h = refl
digit (suc zero) h = refl
digit (suc (suc zero)) h = refl
digit (suc (suc (suc zero))) h = refl
digit (suc (suc (suc (suc zero)))) h = refl
digit (suc (suc (suc (suc (suc zero))))) h = refl
digit (suc (suc (suc (suc (suc (suc zero)))))) h = refl
digit (suc (suc (suc (suc (suc (suc (suc zero))))))) h = refl
digit (suc (suc (suc (suc (suc (suc (suc (suc zero)))))))) h = refl
digit (suc (suc (suc (suc (suc (suc (suc (suc (suc zero))))))))) h = refl
digit (suc (suc (suc (suc (suc (suc (suc (suc (suc (suc r)))))))))) h = absurd (omega arith)

last_digit : (n : ℕ) → code (String.char_at "0123456789" (n % 10)) - 48 ≡ n % 10
last_digit n = let e = digit (n % 10) (omega arith) in omega arith

power : (n : ℕ) → 10 ^ suc n ≡ 10 ^ n * 10
power n = pow.suc 10 n

read-digits : (fuel n : ℕ) → n < 10 ^ fuel → read_from 0 (digits fuel n) ≡ n
unfolding digits read_from
read-digits zero n h = omega arith
read-digits (suc fuel) n h = elim (Bool-cases (ltb n 10)) [
  | inl small ↦ let low : n < 10 = ground arith in rw small (omega (arith, last_digit n))
  | inr large ↦ rw large (
      read_from-++ 0 (digits fuel (n / 10)) (single (String.char_at "0123456789" (n % 10)))
      ∙ ap (λ q. q * 10 + (code (String.char_at "0123456789" (n % 10)) - 48))
          (read-digits fuel (n / 10) (omega (arith, power fuel)))
      ∙ omega (arith, last_digit n))
]

-- The decimal text of an id below 10 ^ 19, which every id of the bank is, reads back as the id: the 19 digits that the fuel gives
-- are enough.
pub read_digits-decimal : (n : ℕ) → n < 10 ^ 19 → read_digits (decimal (pos n)) ≡ n
unfolding decimal read_digits
read_digits-decimal n h = read-digits 19 n h
