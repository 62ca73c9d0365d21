-- ===== src/Proxy/Network.antt =====
-- src/proxy.c: networks, "address/prefix", and which addresses they contain.
pub mod Digits
pub mod Masks
pub mod Prefixes
use Prim.Native.Nat.{bit_and}
use ankah.Prelude.{
  ℕ, zero, suc, ◌+◌, ◌-◌, ◌*◌, ◌/◌, ◌%◌, ◌^◌, Bool, true, false, not, ◌&&◌, ◌||◌, List, [], ◌∷◌,
  Option, none, some, ◌>>=◌, ltb, leb, ◌==◌, if◌then◌else◌, length, take, get_or, set, all, Bytes,
  str_eq, is_empty, is_digit,
}
use ankah.Proxy.Address.{Family, inet, inet6, Ip, Inet, contains, starts, parse_ip_text}

-- `address` has 16 elements.
pub record Network : Type 0 where
  pub address : Bytes
  pub prefix : ℕ
  pub family : Family

abbrev pub same_family : Family → Family → Bool
same_family inet inet = true
same_family inet6 inet6 = true
same_family _ _ = false

-- (unsigned char)(0xffU << (8U - remainder))
abbrev pub mask : ℕ → ℕ
mask remainder = 255 * 2 ^ (8 - remainder) % 256

-- The test of the bytes: `address` is the network's, `bytes` the other one.
unfoldable pub same_prefix : ℕ → Bytes → Bytes → Bool
same_prefix prefix address bytes =
    str_eq (take (prefix / 8) address) (take (prefix / 8) bytes)
    && (prefix % 8 == 0
        || bit_and (get_or address (prefix / 8) 0) (mask (prefix % 8))
          == bit_and (get_or bytes (prefix / 8) 0) (mask (prefix % 8)))

unfoldable pub network_contains : Network → Ip → Bool
network_contains network ip =
    same_family network.family ip.family && same_prefix network.prefix network.address ip.bytes

unfoldable pub is_trusted : Ip → List Network → Bool
is_trusted ip [] = false
is_trusted ip (network ∷ trusted) = network_contains network ip || is_trusted ip trusted

abbrev pub family_length : Family → ℕ
family_length inet = 4
family_length inet6 = 16

abbrev pub max_prefix : Family → ℕ
max_prefix inet = 32
max_prefix inet6 = 128

-- `for (i = bytes; i < length; ++i) out->address[i] = 0;`, with the rounds that are left.
unfoldable pub zero_loop : ℕ → ℕ → Bytes → Bytes
zero_loop i zero address = address
zero_loop i (suc rounds) address = zero_loop (suc i) rounds (set address i 0)

abbrev pub is_split : ℕ → ℕ → Bool
is_split size prefix = not (prefix % 8 == 0) && ltb (prefix / 8) size

-- What is beyond the prefix is cleared.
unfoldable pub masked : ℕ → ℕ → Bytes → Bytes
masked size prefix address =
    if is_split size prefix
    then zero_loop (suc (prefix / 8)) (size - suc (prefix / 8))
        (set address (prefix / 8) (bit_and (get_or address (prefix / 8) 0) (mask (prefix % 8))))
    else zero_loop (prefix / 8) (size - prefix / 8) address

-- strrchr: the bytes before the last `x`, and those after it.
unfoldable pub before_last : ℕ → Bytes → Bytes
before_last x [] = []
before_last x (c ∷ cs) = if contains x cs then c ∷ before_last x cs else []

unfoldable pub after_last : ℕ → Bytes → Bytes
after_last x [] = []
after_last x (c ∷ cs) = if contains x cs then after_last x cs else cs

-- strtoul on digits. Where the code stops at ULONG_MAX, the prefix is too large either way.
unfoldable pub decimal_prefix : ℕ → Bytes → ℕ
decimal_prefix value [] = value
decimal_prefix value (c ∷ cs) = decimal_prefix (value * 10 + (c - b'0')) cs

abbrev pub network_of : Ip → ℕ → Option Network
network_of ip prefix =
    if ltb (max_prefix ip.family) prefix
    then none
    else some (record {
      address = masked (family_length ip.family) prefix ip.bytes;
      prefix = prefix;
      family = ip.family;
    })

-- The address and the digits of a network, if they have the form.
unfoldable pub network_parts : Bytes → Option (Bytes × Bytes)
network_parts text =
    let address = before_last b'/' text in
    let digits = after_last b'/' text in
    if leb 128 (length text) || not (contains b'/' text) || is_empty address || is_empty digits
    then none
    else if starts b'[' address || contains b'.' address && contains b':' address
    then none
    else if not (all is_digit digits)
    then none
    else some (address, digits)

module _ (net : Inet) where
  unfoldable pub parse_network : Bytes → Option Network
  parse_network text = network_parts text >>= λ parts.
      parse_ip_text net parts.0 >>= λ ip. network_of ip (decimal_prefix 0 parts.1)

  unfoldable pub peer_is_trusted : Bytes → List Network → Bool
  peer_is_trusted peer trusted = elim (parse_ip_text net peer) [
    | none ↦ false
    | some ip ↦ is_trusted ip trusted
  ]
