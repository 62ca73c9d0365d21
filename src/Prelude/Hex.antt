-- ===== src/Prelude/Hex.antt =====
-- Lower-case hexadecimal digits, which identifiers, nonces and signatures are written in.
use Prim.Native.Nat.{ℕ, ◌+◌, ◌-◌, ◌<◌}
use mathlib.Core.Path.{◌≡◌}
use mathlib.Core.Bool.{Bool, true, ◌||◌}
use mathlib.Core.Option.{Option, none, some}
use native.Mathlib.Omega.{arith}
use ankah.Prelude.Tests.{ltb, if◌then◌else◌}
use ankah.Prelude.Text.{within}

abbrev pub lower_digit : ℕ → Option ℕ
lower_digit c =
    if within b'0' b'9' c
    then some (c - b'0')
    else if within b'a' b'f' c
    then some (c - b'a' + 10)
    else none

abbrev pub is_lower_digit : ℕ → Bool
is_lower_digit c = within b'0' b'9' c || within b'a' b'f' c

-- digits[d], for a value below 16
abbrev pub digit_char : ℕ → ℕ
digit_char d = if ltb d 10 then b'0' + d else b'a' + d - 10

pub lower_digit-digit_char : (d : ℕ) → d < 16 → lower_digit (digit_char d) ≡ some d
lower_digit-digit_char d h = ground arith

pub is_lower_digit-digit_char : (d : ℕ) → d < 16 → is_lower_digit (digit_char d) ≡ true
is_lower_digit-digit_char d h = ground arith
