-- ===== src/Chunked/Line.antt =====
-- src/http.c, `parse_chunk_size` and `parse_chunk_trailer`: the lines around the data of a chunk.
pub mod Size
use ankah.Prelude.{
  ℕ, suc, ◌+◌, ◌-◌, ◌*◌, ◌/◌, Bool, true, false, not, ◌&&◌, ◌||◌, List, [], ◌∷◌, map, Option, none,
  some, ltb, leb, ◌==◌, if◌then◌else◌, all, Bytes, codes, str_eq, is_empty, within, is_digit,
}
use ankah.Prelude.Words.{size_max}

-- The value of a digit; `none` is -1.
unfoldable pub chunk_hex : ℕ → Option ℕ
chunk_hex value =
    if within b'0' b'9' value
    then some (value - b'0')
    else if within b'a' b'f' value
    then some (value - b'a' + 10)
    else if within b'A' b'F' value
    then some (value - b'A' + 10)
    else none

-- `strchr(text, value) != NULL`: the terminating NUL is found too.
abbrev pub strchr : Bytes → ℕ → Bool
strchr [] value = value == 0
strchr (c ∷ cs) value = c == value || strchr cs value

unfoldable pub chunk_token : ℕ → Bool
chunk_token value =
    within b'0' b'9' value
    || within b'A' b'Z' value
    || within b'a' b'z' value
    || strchr (codes "!#$%&'*+-.^_`|~") value

abbrev pub lower : ℕ → ℕ
lower c = if within b'A' b'Z' c then c + 32 else c

unfoldable pub chunk_name_is : Bytes → Bytes → Bool
chunk_name_is value name = str_eq (map lower value) (map lower name)

-- The variables of the loop in `parse_chunk_size`.
pub record SizeScan : Type 0 where
  pub value : ℕ
  pub digits : ℕ
  pub extension : Bool

unfoldable pub size_digit : SizeScan → Option ℕ → Option SizeScan
size_digit s none = none
size_digit s (some digit) =
    if ltb ((size_max - digit) / 16) s.value
    then none
    else some (record s { value = s.value * 16 + digit; digits = s.digits + 1 })

-- One round of that loop; `none` returns -1.
unfoldable pub size_step : SizeScan → ℕ → Option SizeScan
unfolding size_digit chunk_hex
size_step s byte =
    if not s.extension && byte == b';'
    then if s.digits == 0 then none else some (record s { extension = true })
    else if s.extension
    then if ltb byte 0x20 || ltb 0x7e byte then none else some s
    else size_digit s (chunk_hex byte)

unfoldable pub size_loop : SizeScan → Bytes → Option ℕ
size_loop s [] = if s.digits == 0 then none else some s.value
size_loop s (byte ∷ line) = elim (size_step s byte) [ none ↦ none | some s' ↦ size_loop s' line ]

unfoldable pub parse_chunk_size : Bytes → Option ℕ
unfolding size_loop size_step
parse_chunk_size = size_loop (record { value = 0; digits = 0; extension = false })

-- The bytes before the first colon, and those after it.
unfoldable pub split_colon : Bytes → Option (Bytes × Bytes)
split_colon [] = none
split_colon (c ∷ cs) = elim (c == b':') [
  | true ↦ some ([], cs)
  | false ↦ elim (split_colon cs) [ none ↦ none | some (name, rest) ↦ some (c ∷ name, rest) ]
]

abbrev value_byte : ℕ → Bool
value_byte byte = not ((ltb byte 0x20 && not (byte == b'\t')) || byte == 0x7f)

abbrev pub is_forbidden : Bytes → Bool
is_forbidden name =
    chunk_name_is name (codes "content-length")
    || chunk_name_is name (codes "transfer-encoding")
    || chunk_name_is name (codes "host")
    || chunk_name_is name (codes "connection")
    || chunk_name_is name (codes "trailer")

-- True where the function returns 0.
unfoldable pub parse_chunk_trailer : Bytes → Bool
unfolding split_colon chunk_token chunk_name_is
parse_chunk_trailer line = elim (split_colon line) [
  | none ↦ false
  | some (name, value) ↦
      not (is_empty name) && all chunk_token name && all value_byte value && not (is_forbidden name)
]
