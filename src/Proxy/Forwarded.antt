-- ===== src/Proxy/Forwarded.antt =====
-- src/proxy.c: the chains of addresses in Forwarded and X-Forwarded-For headers.
pub mod Elements
pub mod Values
use ankah.Prelude.{
  ℕ, zero, suc, ◌+◌, Bool, true, false, not, ◌&&◌, ◌||◌, List, [], ◌∷◌, ◌++◌, Option, none, some,
  ◌>>=◌, ==_iff, ◌==◌, if◌then◌else◌, length, drop, map, Bytes, codes, str_eq, is_empty,
}
use ankah.Host.Authority.{lower_case}
use ankah.Http.{Header}
use ankah.Http.Cookies.{header_is}
use ankah.Proxy.Address.{Ip, Inet, is_blank, trim_start, trim_end, starts, parse_ip_text}

abbrev pub max_chain : ℕ
max_chain = 64

-- ANKAH_HEADER_FORWARDED and ANKAH_HEADER_X_FORWARDED_FOR
abbrev pub forwarded_kind : ℕ
forwarded_kind = 14

abbrev pub x_forwarded_for_kind : ℕ
x_forwarded_for_kind = 31

abbrev pub same_ascii_part : Bytes → Bytes → Bool
same_ascii_part left right = str_eq (map lower_case left) (map lower_case right)

abbrev pub is_separator : ℕ → Bool
is_separator c = c == b' ' || c == b'\t' || c == b';'

unfoldable pub skip_separators : Bytes → Bytes
skip_separators [] = []
skip_separators (c ∷ cs) = if is_separator c then skip_separators cs else c ∷ cs

-- The name of a parameter and what follows its "=".
unfoldable pub parameter_name : Bytes → Option (Bytes × Bytes)
parameter_name [] = none
parameter_name (c ∷ cs) =
    if c == b'='
    then some ([], cs)
    else if c == b';'
    then none
    else (parameter_name cs >>= λ parts. some (c ∷ parts.0, parts.1))

-- What is left of a quoted value, its closing quote included, and what follows. `last` is p[-1],
-- which the code reads at the end of the element.
unfoldable pub quoted_rest : ℕ → Bytes → Option (Bytes × Bytes)
quoted_rest last [] = if last == b'"' then some ([], []) else none
quoted_rest last (c ∷ []) =
    if c == b'\\' then none else if c == b'"' then some (c ∷ [], []) else none
quoted_rest last (c ∷ d ∷ cs) =
    let after_escape = quoted_rest d cs >>= λ parts. some (c ∷ d ∷ parts.0, parts.1) in
    let after_byte = quoted_rest c (d ∷ cs) >>= λ parts. some (c ∷ parts.0, parts.1) in
    if c == b'\\' then after_escape else if c == b'"' then some (c ∷ [], d ∷ cs) else after_byte

unfoldable pub until_semicolon : Bytes → Bytes × Bytes
until_semicolon [] = ([], [])
until_semicolon (c ∷ cs) =
    if c == b';' then ([], c ∷ cs) else (c ∷ (until_semicolon cs).0, (until_semicolon cs).1)

-- The value of a parameter, with its quotes, and what follows.
unfoldable pub parameter_value : Bytes → Option (Bytes × Bytes)
parameter_value text =
    if starts b'"' text
    then (quoted_rest b'"' (drop 1 text) >>= λ parts. some (b'"' ∷ parts.0, parts.1))
    else some (trim_end (until_semicolon text).0, (until_semicolon text).1)

-- The outcome of a walk over a header's value. Only `parsed` returns 0. `overrun` is a read beyond
-- the value's terminating NUL; `unfinished` is no outcome of the code (Elements).
pub data Walk : Type 0 where
  parsed : List Ip → Walk
  refused overrun unfinished : Walk

abbrev pub element_walk : Option (Option (List Ip)) → Walk
element_walk none = unfinished
element_walk (some none) = refused
element_walk (some (some chain)) = parsed chain

abbrev pub then_walk : Walk → (List Ip → Walk) → Walk
then_walk (parsed chain) next = next chain
then_walk refused next = refused
then_walk overrun next = overrun
then_walk unfinished next = unfinished

-- The flags after the byte `c`.
abbrev pub next_quoted : Bool → Bool → ℕ → Bool
next_quoted quoted escaped c = if quoted then escaped || not (c == b'"') else c == b'"'

abbrev pub next_escaped : Bool → Bool → ℕ → Bool
next_escaped quoted escaped c = quoted && not escaped && c == b'\\'

abbrev pub option_walk : Option (List Ip) → Walk
option_walk none = refused
option_walk (some chain) = parsed chain

-- `return *count ? 0 : -1`
abbrev pub non_empty : List Ip → Walk
non_empty [] = refused
non_empty (ip ∷ ips) = parsed (ip ∷ ips)

module _ (net : Inet) where
  unfoldable pub append_chain : List Ip → Bytes → Option (List Ip)
  append_chain chain text =
      if length chain == max_chain
      then none
      else (parse_ip_text net text >>= λ ip. some (chain ++ ip ∷ []))

  -- The addresses of one X-Forwarded-For value; `part` is what was read of the next one.
  unfoldable pub xff_loop : List Ip → Bytes → Bytes → Option (List Ip)
  xff_loop chain part [] = append_chain chain part
  xff_loop chain part (c ∷ cs) = elim (c == b',') [
    | true ↦ append_chain chain part >>= λ chain. elim cs [
      | [] ↦ some chain
      | d ∷ ds ↦ xff_loop chain [] cs
    ]
    | false ↦ xff_loop chain (part ++ c ∷ []) cs
  ]

  unfoldable pub xff_value : List Ip → Bytes → Option (List Ip)
  xff_value chain value = if is_empty value then some chain else xff_loop chain [] value

  -- A "for" parameter adds its address, once in an element.
  unfoldable pub take_parameter : List Ip → Bool → Bytes → Bytes → Option (List Ip × Bool)
  take_parameter chain found name value =
      if not (same_ascii_part name (codes "for"))
      then some (chain, found)
      else if found
      then none
      else (append_chain chain value >>= λ chain. some (chain, true))

  -- One parameter of an element, at a byte that is no separator.
  unfoldable pub element_round : List Ip → Bool → Bytes → Option (List Ip × Bool × Bytes)
  element_round chain found text = parameter_name text >>= λ named.
      parameter_value (trim_start named.1) >>= λ valued.
      take_parameter chain found (trim_end named.0) valued.0 >>= λ taken.
      let rest = trim_start valued.1 in
      if is_empty rest || starts b';' rest then some (taken.0, taken.1, rest) else none

  unfoldable pub element_loop : ℕ → List Ip → Bool → Bytes → Option (Option (List Ip))
  element_loop zero chain found text = none
  element_loop (suc fuel) chain found text = elim (is_empty (skip_separators text)) [
    | true ↦ some (if found then some chain else none)
    | false ↦ elim (element_round chain found (skip_separators text)) [
      | none ↦ some none
      | some (chain', found', rest) ↦ element_loop fuel chain' found' rest
    ]
  ]

  unfoldable pub forwarded_element : List Ip → Bytes → Option (Option (List Ip))
  forwarded_element chain text = element_loop (suc (length text)) chain false text

  -- One Forwarded value; `part` is what was read of the next element. At the NUL an escape is taken
  -- off like at any other byte, and the loop goes on.
  unfoldable pub value_loop : List Ip → Bool → Bool → Bytes → Bytes → Walk
  value_loop chain quoted escaped part [] =
      if quoted && escaped
      then overrun
      else if quoted
      then refused
      else element_walk (forwarded_element chain part)
  value_loop chain quoted escaped part (c ∷ cs) = elim (not quoted && c == b',') [
    | true ↦
        then_walk (element_walk (forwarded_element chain part))
          λ chain. value_loop chain false false [] cs
    | false ↦
        value_loop chain (next_quoted quoted escaped c) (next_escaped quoted escaped c)
          (part ++ c ∷ []) cs
  ]

  unfoldable pub parse_forwarded_value : List Ip → Bytes → Walk
  parse_forwarded_value chain value = value_loop chain false false [] value

  module _ (name_kind : Bytes → ℕ) where
    unfoldable pub xff_headers : List Ip → List Header → Walk
    xff_headers chain [] = non_empty chain
    xff_headers chain (h ∷ hs) = elim (header_is name_kind h x_forwarded_for_kind) [
      | false ↦ xff_headers chain hs
      | true ↦ then_walk (option_walk (xff_value chain h.value)) λ chain. xff_headers chain hs
    ]

    unfoldable pub forwarded_headers : List Ip → List Header → Walk
    forwarded_headers chain [] = non_empty chain
    forwarded_headers chain (h ∷ hs) = elim (header_is name_kind h forwarded_kind) [
      | false ↦ forwarded_headers chain hs
      | true ↦ then_walk (parse_forwarded_value chain h.value) λ chain. forwarded_headers chain hs
    ]
