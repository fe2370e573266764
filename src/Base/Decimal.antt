-- ===== src/Base/Decimal.antt =====
-- Decimal numbers: printing and reading agree.
use Prim.Native.String.{String, [], ◌∷◌}
use Prim.Native.Nat.{ℕ, zero, suc, ◌+◌, ◌-◌, ◌*◌, ◌/◌, ◌%◌, ◌<◌}
use Prim.Native.Char.{code}
use mathlib.Core.Path.{◌≡◌, refl}
use mathlib.Core.Bool.{true, false}
use native.Mathlib.Omega.{arith}
use cloudshell_shell_automat.Base.Text.{
  is_blank, all_digits, is_digit, digits_value, digit_char, decimal_rounds, decimal,
}

-- A digit's character stands for it.
code-digit_char : (d : ℕ) → d < 10 → code (digit_char d) - b'0' ≡ d
code-digit_char zero h = refl
code-digit_char (suc zero) h = refl
code-digit_char (suc (suc zero)) h = refl
code-digit_char (suc (suc (suc zero))) h = refl
code-digit_char (suc (suc (suc (suc zero)))) h = refl
code-digit_char (suc (suc (suc (suc (suc zero))))) h = refl
code-digit_char (suc (suc (suc (suc (suc (suc zero)))))) h = refl
code-digit_char (suc (suc (suc (suc (suc (suc (suc zero))))))) h = refl
code-digit_char (suc (suc (suc (suc (suc (suc (suc (suc zero)))))))) h = refl
code-digit_char (suc (suc (suc (suc (suc (suc (suc (suc (suc n))))))))) h = omega arith

pub is_digit-digit_char : (d : ℕ) → is_digit (digit_char d) ≡ true
is_digit-digit_char zero = refl
is_digit-digit_char (suc zero) = refl
is_digit-digit_char (suc (suc zero)) = refl
is_digit-digit_char (suc (suc (suc zero))) = refl
is_digit-digit_char (suc (suc (suc (suc zero)))) = refl
is_digit-digit_char (suc (suc (suc (suc (suc zero))))) = refl
is_digit-digit_char (suc (suc (suc (suc (suc (suc zero)))))) = refl
is_digit-digit_char (suc (suc (suc (suc (suc (suc (suc zero))))))) = refl
is_digit-digit_char (suc (suc (suc (suc (suc (suc (suc (suc zero)))))))) = refl
is_digit-digit_char (suc (suc (suc (suc (suc (suc (suc (suc (suc n))))))))) = refl

-- One digit read: the two sides of a round of the printing.
digits_value-digit :
    (q d : ℕ) (acc : String)
    → d < 10
    → digits_value q (digit_char d ∷ acc) ≡ digits_value (q * 10 + d) acc
unfolding digits_value
digits_value-digit q d acc h = rw (code-digit_char d h)

digits_value-rounds :
    (f n : ℕ) (acc : String) → n < f → digits_value 0 (decimal_rounds f n acc) ≡ digits_value n acc
unfolding decimal_rounds
digits_value-rounds zero n acc h = absurd (omega arith)
digits_value-rounds (suc f) n acc h = ground (
  arith,
  digits_value-digit 0 n acc,
  digits_value-digit (n / 10) (n % 10) acc,
  digits_value-rounds f (n / 10) (digit_char (n % 10) ∷ acc),
)

pub digits_value-decimal : (n : ℕ) → digits_value 0 (decimal n) ≡ n
unfolding decimal digits_value
digits_value-decimal n = digits_value-rounds (suc n) n [] (omega arith)

all_digits-digit :
    (d : ℕ) (acc : String) → all_digits acc ≡ true → all_digits (digit_char d ∷ acc) ≡ true
unfolding all_digits
all_digits-digit d acc h = rw (is_digit-digit_char d) h

all_digits-rounds :
    (f n : ℕ) (acc : String) → all_digits acc ≡ true → all_digits (decimal_rounds f n acc) ≡ true
unfolding decimal_rounds
all_digits-rounds zero n acc h = h
all_digits-rounds (suc f) n acc h = ground (
  arith,
  all_digits-digit n acc,
  all_digits-digit (n % 10) acc,
  all_digits-rounds f (n / 10) (digit_char (n % 10) ∷ acc),
)

pub all_digits-decimal : (n : ℕ) → all_digits (decimal n) ≡ true
unfolding decimal all_digits
all_digits-decimal n = all_digits-rounds (suc n) n [] refl

is_blank-rounds :
    (f n : ℕ) (acc : String) → is_blank acc ≡ false → is_blank (decimal_rounds f n acc) ≡ false
unfolding decimal_rounds
is_blank-rounds zero n acc h = h
is_blank-rounds (suc f) n acc h =
    ground (arith, is_blank-rounds f (n / 10) (digit_char (n % 10) ∷ acc))

pub is_blank-decimal : (n : ℕ) → is_blank (decimal n) ≡ false
unfolding decimal decimal_rounds
is_blank-decimal n = ground (arith, is_blank-rounds n (n / 10) (digit_char (n % 10) ∷ []))
