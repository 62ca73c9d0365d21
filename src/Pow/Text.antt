-- ===== src/Pow/Text.antt =====
-- src/pow.c: the encodings of the fields, and how a text is cut at its dots.
pub mod Decimal
pub mod Fields
use ankah.Prelude.{
  ℕ, zero, suc, ◌+◌, ◌-◌, ◌/◌, ◌%◌, ◌*◌, Bool, true, false, not, ◌&&◌, ◌||◌, List, [], ◌∷◌, ◌++◌,
  Option, none, some, ltb, ◌==◌, if◌then◌else◌, length, take, all, Bytes, is_empty, is_digit,
}
use ankah.Prelude.Hex.{digit_char, is_lower_digit}
use ankah.Prelude.Words.{size_max}

-- The bytes of `in` as two digits each.
unfoldable pub hex_encode : List ℕ → Bytes
hex_encode [] = []
hex_encode (b ∷ bs) = digit_char (b / 16) ∷ digit_char (b % 16) ∷ hex_encode bs

-- True where the function returns 0. A text that ends early has a NUL there, which is no digit.
unfoldable pub lower_hex : Bytes → ℕ → Bool
lower_hex value count = all is_lower_digit (take count value) && length value == count

-- `difference` as a test, whether it is 0. Both texts have `count` bytes.
abbrev pub equal_loop : Bytes → Bytes → Bool → Bool
equal_loop (x ∷ xs) (y ∷ ys) same = equal_loop xs ys (same && x == y)
equal_loop _ _ same = same

unfoldable pub equal_secret : Bytes → Bytes → ℕ → Bool
equal_secret a b count = equal_loop (take count a) (take count b) true

-- The loop, with the digits that are left. UINT64_MAX is SIZE_MAX.
unfoldable pub decimal_loop : ℕ → Bytes → Option ℕ
decimal_loop result [] = some result
decimal_loop result (c ∷ cs) =
    let rest = decimal_loop (result * 10 + (c - b'0')) cs in
    if not (is_digit c)
    then none
    else if ltb ((size_max - (c - b'0')) / 10) result
    then none
    else rest

abbrev pub is_padded : Bytes → Bool
is_padded [] = true
is_padded (c ∷ cs) = c == b'0' && not (is_empty cs)

-- `none` is -1.
unfoldable pub decimal_u64 : Bytes → Option ℕ
decimal_u64 value = if is_padded value then none else decimal_loop 0 value

-- The `%u` of snprintf, for a value of at most `n` digits.
unfoldable pub decimal_digits : ℕ → ℕ → Bytes
decimal_digits zero value = []
decimal_digits (suc n) value =
    let rest = decimal_digits n (value / 10) in
    if ltb value 10 then (b'0' + value) ∷ [] else rest ++ (b'0' + value % 10) ∷ []

-- A value of 64 bits has at most 20 digits.
abbrev pub decimal : ℕ → Bytes
decimal = decimal_digits 20

-- `dot = strchr(text, '.'); if (!dot) return -1; *dot = 0;`: the text before the dot and after it.
unfoldable pub cut_dot : Bytes → Option (Bytes × Bytes)
cut_dot [] = none
cut_dot (c ∷ cs) = elim (c == b'.') [
  | true ↦ some ([], cs)
  | false ↦ elim (cut_dot cs) [ none ↦ none | some (part, rest) ↦ some (c ∷ part, rest) ]
]

-- What `snprintf(buffer, size, …)` leaves, if the text fits.
abbrev pub fitting : ℕ → Bytes → Option Bytes
fitting size text = if ltb (length text) size then some text else none
