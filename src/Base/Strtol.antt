-- ===== src/Base/Strtol.antt =====
-- `std::isspace`, `std::strtol` to base 10 and `std::stoi` as the sources use them: the C locale, a
-- 64-bit long and a 32-bit int.
use Prim.Native.Nat.{ℕ, ◌+◌, ◌-◌, ◌*◌, min}
use mathlib.Core.Bool.{Bool, true, false, ◌&&◌, ◌||◌}
use mathlib.Core.List.{[], ◌∷◌}
use mathlib.Core.Option.{Option, none, some}
use user_center.Base.Tests.{leb, ltb, ◌==◌, if◌then◌else◌}
use user_center.Base.Text.{Bytes, ℤ, pos, minus}

unfoldable pub is_space : ℕ → Bool
is_space c = c == 32 || leb 9 c && leb c 13

abbrev pub int_max : ℕ
int_max = 2147483647

abbrev pub long_max : ℕ
long_max = 9223372036854775807

unfoldable pub is_digit : ℕ → Bool
is_digit c = leb b'0' c && leb c b'9'

unfoldable pub skip_space : Bytes → Bytes
skip_space [] = []
skip_space (c ∷ s) = if is_space c then skip_space s else c ∷ s

-- The digits at the front of a text, read onto a number, and the text after them.
unfoldable pub read_digits : Bytes → ℕ → ℕ × Bytes
read_digits [] n = (n, [])
read_digits (c ∷ s) n =
    let more = read_digits s (n * 10 + (c - b'0')) in if is_digit c then more else (n, c ∷ s)

abbrev pub starts_with_digit : Bytes → Bool
starts_with_digit [] = false
starts_with_digit (c ∷ s) = is_digit c

-- What strtol reads: the sign, the magnitude, and the text at `endptr`; `none` when it converts
-- nothing.
unfoldable pub strtol_digits : Bool → Bytes → Option (Bool × ℕ × Bytes)
strtol_digits negative s =
    if starts_with_digit s
    then some (negative, min (read_digits s 0).0 long_max, (read_digits s 0).1)
    else none

unfoldable pub strtol : Bytes → Option (Bool × ℕ × Bytes)
strtol [] = none
strtol (c ∷ s) =
    if c == b'-'
    then strtol_digits true s
    else if c == b'+'
    then strtol_digits false s
    else strtol_digits false (c ∷ s)

-- The value as a signed number.
abbrev pub signed : Bool → ℕ → ℤ
signed true n = minus n
signed false n = pos n

-- `std::stoi`; `none` is the exception on a text that is no number or no int.
unfoldable pub stoi_value : Option (Bool × ℕ × Bytes) → Option ℤ
stoi_value none = none
stoi_value (some (negative, n, rest)) =
    if ltb (if negative then int_max + 1 else int_max) n then none else some (signed negative n)

unfoldable pub stoi : Bytes → Option ℤ
stoi s = stoi_value (strtol (skip_space s))
