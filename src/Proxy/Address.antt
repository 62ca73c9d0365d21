-- ===== src/Proxy/Address.antt =====
-- src/proxy.c, `parse_ip_text`: an address as it stands in a header, quoted, in brackets or with a
-- port.
pub mod Sizes
use ankah.Prelude.{
  ℕ, zero, suc, ◌+◌, Bool, true, false, not, ◌&&◌, ◌||◌, List, [], ◌∷◌, ◌++◌, Option, none, some,
  ◌>>=◌, ltb, leb, ◌==◌, if◌then◌else◌, length, take, drop, replicate, all, Bytes, str_eq, is_empty,
  is_digit,
}
use ankah.Host.Authority.{last}

pub data Family : Type 0 where
  inet inet6 : Family

-- `bytes` has 16 elements, of which an IPv4 address uses four.
pub record Ip : Type 0 where
  pub bytes : Bytes
  pub family : Family

-- uv_inet_pton and uv_inet_ntop of libuv. `none` is an error.
pub record Inet : Type 0 where
  pub pton4 : Bytes → Option Bytes
  pub pton6 : Bytes → Option Bytes
  pub ntop : Family → Bytes → ℕ → Option Bytes

abbrev pub is_blank : ℕ → Bool
is_blank c = c == b' ' || c == b'\t'

unfoldable pub trim_start : Bytes → Bytes
trim_start [] = []
trim_start (c ∷ cs) = if is_blank c then trim_start cs else c ∷ cs

-- What is left without the blanks at the end.
unfoldable pub trim_end : Bytes → Bytes
trim_end [] = []
trim_end (c ∷ cs) = let rest = trim_end cs in if is_empty rest && is_blank c then [] else c ∷ rest

-- memchr(…) != NULL
abbrev pub contains : ℕ → Bytes → Bool
contains x [] = false
contains x (c ∷ cs) = c == x || contains x cs

-- The bytes before the first `x`, and those after it.
unfoldable pub before : ℕ → Bytes → Bytes
before x [] = []
before x (c ∷ cs) = if c == x then [] else c ∷ before x cs

unfoldable pub after : ℕ → Bytes → Bytes
after x [] = []
after x (c ∷ cs) = if c == x then cs else after x cs

unfoldable pub all_but_last : Bytes → Bytes
all_but_last [] = []
all_but_last (c ∷ cs) = if is_empty cs then [] else c ∷ all_but_last cs

abbrev pub starts : ℕ → Bytes → Bool
starts x [] = false
starts x (c ∷ cs) = c == x

-- Without the quotes, if the text begins with one.
unfoldable pub unquoted : Bytes → Option Bytes
unquoted text =
    let inner = all_but_last (drop 1 text) in
    if not (starts b'"' text)
    then some text
    else if ltb (length text) 2 || not (last text == b'"') || contains b'\\' inner
    then none
    else some inner

abbrev pub is_port : Bytes → Bool
is_port digits = not (is_empty digits) && all is_digit digits

-- "[address]" or "[address]:port"
unfoldable pub bracketed : Bytes → Option Bytes
bracketed text =
    let rest = after b']' text in
    if not (contains b']' text)
    then none
    else if is_empty rest || starts b':' rest && is_port (drop 1 rest)
    then some (before b']' text)
    else none

-- An IPv4 address may have a port: there is one colon, and a dot.
unfoldable pub without_port : Bytes → Option Bytes
without_port text =
    if not (contains b':' text && contains b'.' text && not (contains b':' (after b':' text)))
    then some text
    else if is_port (after b':' text)
    then some (before b':' text)
    else none

unfoldable pub address_part : Bytes → Option Bytes
address_part text = if starts b'[' text then bracketed (drop 1 text) else without_port text

abbrev pub mapped_prefix : Bytes
mapped_prefix = replicate 10 0 ++ 255 ∷ 255 ∷ []

abbrev pub ipv4 : Bytes → Ip
ipv4 bytes = record { bytes = bytes ++ replicate 12 0; family = inet }

-- An IPv4 address that is mapped into IPv6 is taken as IPv4.
unfoldable pub unmapped : Bytes → Ip
unmapped bytes =
    if str_eq (take 12 bytes) mapped_prefix
    then ipv4 (drop 12 bytes)
    else record { bytes = bytes; family = inet6 }

-- What the two calls of uv_inet_pton find.
abbrev pub either_ip : Option Bytes → Option Bytes → Option Ip
either_ip (some bytes) six = some (ipv4 bytes)
either_ip none (some bytes) = some (unmapped bytes)
either_ip none none = none

module _ (net : Inet) where
  unfoldable pub parse_value : Bytes → Option Ip
  parse_value value = either_ip (net.pton4 value) (net.pton6 value)

  unfoldable pub parse_ip_text : Bytes → Option Ip
  parse_ip_text text =
      let trimmed = trim_end (trim_start text) in
      if is_empty trimmed
      then none
      else unquoted trimmed >>= λ inner. address_part inner >>= λ value.
          if is_empty value || leb 128 (length value) then none else parse_value value

  unfoldable pub format_ip : Ip → ℕ → Option Bytes
  format_ip ip capacity = net.ntop ip.family ip.bytes capacity

  unfoldable pub normalize_ip : Bytes → ℕ → Option Bytes
  normalize_ip text capacity =
      if capacity == 0 then none else (parse_ip_text text >>= λ ip. format_ip ip capacity)
