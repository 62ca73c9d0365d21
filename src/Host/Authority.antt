-- ===== src/Host/Authority.antt =====
-- src/host.c, `ankah_authority` and `ankah_host_find`: "name" or "name:port".
pub mod Canonical
pub mod Casing
use ankah.Prelude.{
  ℕ, zero, suc, ◌+◌, ◌-◌, ◌*◌, Bool, true, false, not, ◌&&◌, ◌||◌, List, [], ◌∷◌, ◌++◌, Option,
  none, some, ◌>>=◌, ◌>>◌, guard, ltb, leb, ◌==◌, if◌then◌else◌, length, Bytes, str_eq, is_empty,
  is_digit, within,
}

abbrev pub lower_case : ℕ → ℕ
lower_case c = if within b'A' b'Z' c then c + 32 else c

-- name[n - 1]
abbrev pub last : Bytes → ℕ
last [] = 0
last (c ∷ cs) = if is_empty cs then c else last cs

abbrev pub is_label_byte : ℕ → Bool
is_label_byte c = within b'a' b'z' c || within b'0' b'9' c || c == b'-'

-- One round of the loop over the name: the byte `c` after `name`, whose last label has `label`
-- bytes. `none` returns -1.
unfoldable pub name_step : Bytes → ℕ → ℕ → Option (Bytes × ℕ)
name_step name label c =
    if leb 253 (length name)
    then none
    else if c == b'.'
    then if label == 0 || last name == b'-' then none else some (name ++ c ∷ [], 0)
    else if not (is_label_byte c)
    then none
    else if (label == 0 && c == b'-') || ltb 63 (label + 1)
    then none
    else some (name ++ c ∷ [], label + 1)

-- What the loop over the name leaves; `rest` is empty or begins with a colon.
pub record Scan : Type 0 where
  pub name : Bytes
  pub label : ℕ
  pub rest : Bytes

unfoldable pub name_loop : Bytes → Bytes → ℕ → Option Scan
name_loop [] name label = some (record { name = name; label = label; rest = [] })
name_loop (c ∷ cs) name label =
    if c == b':'
    then some (record { name = name; label = label; rest = c ∷ cs })
    else elim (name_step name label (lower_case c)) [
      | none ↦ none
      | some (name', label') ↦ name_loop cs name' label'
    ]

unfoldable pub port_loop : ℕ → Bytes → Option ℕ
port_loop value [] = some value
port_loop value (c ∷ cs) = elim (is_digit c && leb (value * 10 + (c - b'0')) 65535) [
  | false ↦ none
  | true ↦ port_loop (value * 10 + (c - b'0')) cs
]

-- `!*at || (*at == '0' && at[1])`
abbrev pub is_bad_port : Bytes → Bool
is_bad_port [] = true
is_bad_port (c ∷ cs) = c == b'0' && not (is_empty cs)

-- The port, from the text that the loop over the name leaves.
unfoldable pub parse_port : ℕ → Bytes → Option ℕ
parse_port default_port [] = some default_port
parse_port default_port (colon ∷ digits) = do
  guard (not (is_bad_port digits))
  value ← port_loop 0 digits
  guard (not (value == 0))
  some value

-- `none` is -1.
unfoldable pub authority : Bytes → ℕ → Option (Bytes × ℕ)
authority text default_port = do
  guard (not (is_empty text))
  s ← name_loop text [] 0
  guard (not (s.label == 0 || last s.name == b'-'))
  port ← parse_port default_port s.rest
  some (s.name, port)

-- The fields of `ankah_host` that this part reads.
pub record Served : Type 0 where
  pub origin : Bytes
  pub authority_text : Bytes
  pub name : Bytes
  pub port : ℕ

-- The results of `ankah_host_find`: an index, -400 and -421.
pub data Found : Type 0 where
  host_at : ℕ → Found
  bad_request misdirected : Found

unfoldable pub find_host : List Served → ℕ → Bytes × ℕ → Found
find_host [] i wanted = misdirected
find_host (h ∷ hs) i wanted =
    let rest = find_host hs (suc i) wanted in
    if str_eq wanted.0 h.name && wanted.1 == h.port then host_at i else rest

unfoldable pub host_find : List Served → Bytes → Found
host_find hosts text = elim (authority text 443) [
  | none ↦ bad_request
  | some wanted ↦ find_host hosts 0 wanted
]
