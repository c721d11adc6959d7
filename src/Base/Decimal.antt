-- ===== src/Base/Decimal.antt =====
-- `std::to_string` read back by `strtol` and `stoi`.
use Prim.Native.Nat.{ℕ, zero, suc, ◌+◌, ◌-◌, ◌*◌, ◌/◌, ◌%◌, ◌≤◌, ◌<◌, min}
use mathlib.Core.Path.{◌≡◌, refl, ◌∙◌}
use mathlib.Core.Logic.{inl, inr}
use mathlib.Core.Bool.{Bool, true, false, ◌&&◌}
use mathlib.Core.List.{[], ◌∷◌}
use mathlib.Core.Option.{some}
use native.Mathlib.Omega.{arith}
use user_center.Base.Tests.{ltb, ◌==◌, Bool-cases}
use user_center.Base.Text.{Bytes, ℤ, pos, negsuc, decimal_digits, to_string, int_string}
use user_center.Base.Strtol.{
  is_space, is_digit, skip_space, read_digits, strtol_digits, strtol, stoi, int_max, long_max,
  stoi_value,
}

is_digit_lem : (c : ℕ) → b'0' ≤ c → c ≤ b'9' → is_digit c ≡ true
unfolding is_digit
is_digit_lem c lo hi = ground arith

abbrev pub are_digits : Bytes → Bool
are_digits [] = true
are_digits (c ∷ s) = is_digit c && are_digits s

decimal_digits-are_digits :
    (f n : ℕ) (acc : Bytes) → are_digits acc ≡ true → are_digits (decimal_digits f n acc) ≡ true
unfolding decimal_digits
decimal_digits-are_digits zero n acc h = h
decimal_digits-are_digits (suc f) n acc h = elim (Bool-cases (ltb n 10)) [
  | inl last ↦ rw (last, is_digit_lem (n + b'0') (omega arith) (ground arith)) h
  | inr more ↦ rw more (
      decimal_digits-are_digits f (n / 10) ((n % 10 + b'0') ∷ acc)
        (rw (is_digit_lem (n % 10 + b'0') (omega arith) (omega arith)) h))
]

pub to_string-are_digits : (n : ℕ) → are_digits (to_string n) ≡ true
unfolding to_string
to_string-are_digits n = decimal_digits-are_digits (suc n) n [] refl

-- The text begins with a digit.
digits_head :
    (f n : ℕ) (acc : Bytes)
    → n < f
    → (c : ℕ) × (s : Bytes) × (decimal_digits f n acc ≡ c ∷ s) × (b'0' ≤ c) × (c ≤ b'9')
unfolding decimal_digits
digits_head zero n acc h = absurd (omega arith)
digits_head (suc f) n acc h = elim (Bool-cases (ltb n 10)) [
  | inl last ↦ (n + b'0', acc, rw last, omega arith, ground arith)
  | inr more ↦ rw more (digits_head f (n / 10) ((n % 10 + b'0') ∷ acc) (ground arith))
]

pub to_string-head : (n : ℕ) → (c : ℕ) × (s : Bytes) × (to_string n ≡ c ∷ s)
unfolding to_string
to_string-head n = let (c, s, e, _, _) = digits_head (suc n) n [] (omega arith) in (c, s, e)

one_digit :
    (d m k : ℕ) (s : Bytes)
    → m * 10 + d ≡ k
    → d < 10
    → read_digits ((d + b'0') ∷ s) m ≡ read_digits s k
unfolding read_digits
one_digit d m k s e small =
    let digit : is_digit (d + b'0') ≡ true = is_digit_lem (d + b'0') (omega arith) (omega arith) in
    let value : m * 10 + (d + b'0' - b'0') ≡ k = omega arith in rw (digit, value)

read_digits_nil : (n : ℕ) → read_digits [] n ≡ (n, [])
unfolding read_digits
read_digits_nil n = refl

read-digits :
    (f n : ℕ) (acc : Bytes) → n < f → read_digits (decimal_digits f n acc) 0 ≡ read_digits acc n
unfolding decimal_digits
read-digits zero n acc h = absurd (omega arith)
read-digits (suc f) n acc h = elim (Bool-cases (ltb n 10)) [
  | inl last ↦ rw last (one_digit n 0 n acc (omega arith) (ground arith))
  | inr more ↦ rw more (
      read-digits f (n / 10) ((n % 10 + b'0') ∷ acc) (ground arith)
      ∙ one_digit (n % 10) (n / 10) n acc (omega arith) (omega arith))
]

not_space : (c : ℕ) → b'0' ≤ c → c ≤ b'9' → is_space c ≡ false
unfolding is_space
not_space c lo hi = ground arith

-- A text of digits alone, and the same behind a minus sign.
module _ (c : ℕ) (s : Bytes) (n : ℕ) (lo : b'0' ≤ c) (hi : c ≤ b'9')
    (read : read_digits (c ∷ s) 0 ≡ (n, [])) where
  digits_strtol :
      (negative : Bool) → strtol_digits negative (c ∷ s) ≡ some (negative, min n long_max, [])
  unfolding strtol_digits
  digits_strtol negative = rw (is_digit_lem c lo hi, read)

  skip_digits : skip_space (c ∷ s) ≡ c ∷ s
  unfolding skip_space
  skip_digits = rw (not_space c lo hi)

  plain_strtol : strtol (skip_space (c ∷ s)) ≡ some (false, min n long_max, [])
  unfolding strtol
  plain_strtol =
      let no_minus : (c == b'-') ≡ false = ground arith in
      let no_plus : (c == b'+') ≡ false = ground arith in
      rw (skip_digits, no_minus, no_plus) (digits_strtol false)

  minus_strtol : strtol (skip_space (b'-' ∷ c ∷ s)) ≡ some (true, min n long_max, [])
  unfolding strtol skip_space is_space
  minus_strtol = digits_strtol true

pub to_string-strtol :
    (n : ℕ) → strtol (skip_space (to_string n)) ≡ some (false, min n long_max, [])
unfolding to_string
to_string-strtol n =
    let (c, s, e, lo, hi) = digits_head (suc n) n [] (omega arith) in
    rw e (
      plain_strtol c s n lo hi
        (rw (← e) (read-digits (suc n) n [] (omega arith) ∙ read_digits_nil n)))

minus-strtol : (n : ℕ) → strtol (skip_space (b'-' ∷ to_string n)) ≡ some (true, min n long_max, [])
unfolding to_string
minus-strtol n =
    let (c, s, e, lo, hi) = digits_head (suc n) n [] (omega arith) in
    rw e (
      minus_strtol c s n lo hi
        (rw (← e) (read-digits (suc n) n [] (omega arith) ∙ read_digits_nil n)))

-- The range of an int.
abbrev pub IsInt : ℤ → Type 0
IsInt (pos n) = n ≤ int_max
IsInt (negsuc n) = n ≤ int_max

-- An int that is printed and read back is the same int.
pub stoi-int_string : (n : ℤ) → IsInt n → stoi (int_string n) ≡ some n
unfolding stoi int_string stoi_value
stoi-int_string (pos n) h = rw (to_string-strtol n) (ground arith)
stoi-int_string (negsuc n) h = rw (minus-strtol (suc n)) (ground arith)
