-- ===== src/Dots/Names.antt =====
-- src/dots_policy.c: the names of access lists, and their search in a reply.
pub mod Scanning
mod Examples
use ankah.Prelude.{
  ℕ, zero, suc, ◌+◌, Bool, true, false, not, ◌&&◌, ◌||◌, List, [], ◌∷◌, ◌++◌, Option, none, some,
  ◌>>=◌, ltb, leb, ◌==◌, if◌then◌else◌, length, drop, all, map, Bytes, codes, is_empty, is_digit,
  within,
}

abbrev pub name_max : ℕ
name_max = 80

abbrev pub is_cuid_byte : ℕ → Bool
is_cuid_byte c = is_digit c || within b'a' b'z' c || within b'A' b'Z' c || c == b'-' || c == b'_'

unfoldable pub valid_cuid : Bytes → Bool
valid_cuid cuid = not (is_empty cuid) && ltb (length cuid) 64 && all is_cuid_byte cuid

abbrev pub is_hex_byte : ℕ → Bool
is_hex_byte c = is_digit c || within b'a' b'f' c || within b'A' b'F' c

-- One byte of an address in a name; `none` returns -1.
abbrev pub name_byte : ℕ → Option ℕ
name_byte c = if c == b'.' || c == b':' then some b'-' else if is_hex_byte c then some c else none

unfoldable pub name_bytes : Bytes → Option Bytes
name_bytes [] = some []
name_bytes (c ∷ cs) = elim (name_byte c) [
  | none ↦ none
  | some d ↦ elim (name_bytes cs) [ none ↦ none | some ds ↦ some (d ∷ ds) ]
]

unfoldable pub acl_name : Bytes → ℕ → Option Bytes
acl_name ip capacity =
    if is_empty ip || ltb capacity (length ip + 7)
    then none
    else name_bytes ip >>= λ bytes. some (codes "ankah-" ++ bytes)

abbrev pub is_space : ℕ → Bool
is_space c = c == b' ' || c == b'\t' || c == b'\r' || c == b'\n'

-- A position in the reply is what is left from there.
unfoldable pub skip_space : Bytes → Bytes
skip_space [] = []
skip_space (c ∷ cs) = if is_space c then skip_space cs else c ∷ cs

abbrev pub starts_with : Bytes → Bytes → Bool
starts_with [] body = true
starts_with (c ∷ cs) [] = false
starts_with (c ∷ cs) (d ∷ ds) = c == d && starts_with cs ds

abbrev pub begins : ℕ → Bytes → Bool
begins c [] = false
begins c (d ∷ ds) = d == c

-- The bytes up to a quote or a backslash, and what is left from there.
unfoldable pub until_quote : Bytes → Bytes × Bytes
until_quote [] = ([], [])
until_quote (c ∷ cs) =
    if c == b'"' || c == b'\\' then ([], c ∷ cs) else (c ∷ (until_quote cs).0, (until_quote cs).1)

-- A C string ends at its first NUL.
abbrev pub before_nul : Bytes → Bytes
before_nul [] = []
before_nul (c ∷ cs) = if c == 0 then [] else c ∷ before_nul cs

-- The value of a member, as the name that is stored, if it is one.
unfoldable pub accepted : Bytes → Bytes → Option Bytes
accepted prefix value =
    if ltb (length value) (length prefix)
      || leb name_max (length value)
      || not (starts_with prefix value)
      || not (valid_cuid (before_nul value))
    then none
    else some (before_nul value)

-- One round of the loop: a name, if one is found, and the position to go on from.
unfoldable pub scan_round : Bytes → ℕ → Bytes → Option Bytes × Bytes
scan_round prefix c cs =
    let colon = skip_space (drop 6 (c ∷ cs)) in
    let open_quote = skip_space (drop 1 colon) in
    let (value, close_quote) = until_quote (drop 1 open_quote) in
    if not (starts_with (codes "\"name\"") (c ∷ cs))
    then (none, cs)
    else if not (begins b':' colon)
    then (none, colon)
    else if not (begins b'"' open_quote)
    then (none, open_quote)
    else if not (begins b'"' close_quote)
    then (none, close_quote)
    else (accepted prefix value, drop 1 close_quote)

-- The names that are found, `max` at most; `none` is no outcome of the code (Scanning).
unfoldable pub scan_loop : ℕ → Bytes → ℕ → Bytes → Option (List Bytes)
scan_loop zero prefix max body = none
scan_loop (suc fuel) prefix zero body = some []
scan_loop (suc fuel) prefix (suc max) [] = some []
scan_loop (suc fuel) prefix (suc max) (c ∷ cs) = elim (ltb (length (c ∷ cs)) 6) [
  | true ↦ some []
  | false ↦ elim ((scan_round prefix c cs).0) [
    | none ↦ scan_loop fuel prefix (suc max) (scan_round prefix c cs).1
    | some name ↦ elim (scan_loop fuel prefix max (scan_round prefix c cs).1) [
      | none ↦ none
      | some names ↦ some (name ∷ names)
    ]
  ]
]

unfoldable pub scan_names : Bytes → Bytes → ℕ → Option (List Bytes)
scan_names body prefix max = scan_loop (suc (length body)) prefix max body
