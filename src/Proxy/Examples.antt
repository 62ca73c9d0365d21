-- ===== src/Proxy/Examples.antt =====
-- Addresses behind a proxy in 10.0.0.0/8.
use ankah.Prelude.{
  ◌≡◌, ◌≢◌, ◌↔◌, refl, true, false, [], ◌∷◌, ◌++◌, Option, none, some, arith, if◌then◌else◌, length,
  take, replicate, All, Bytes, codes, str_eq,
}
use ankah.Host.Authority.{last}
use ankah.Http.{Request}
use ankah.Http.Cookies.{header_is}
use ankah.Proxy.Address.{
  inet, Ip, Inet, ipv4, parse_ip_text, format_ip, parse_value, trim_start, trim_end, unquoted,
  address_part, without_port,
}
use ankah.Proxy.Address.Sizes.{IsByte, IsSound, IsAddress}
use ankah.Proxy.Network.{
  Network, network_contains, parse_network, network_parts, decimal_prefix, before_last, after_last,
  masked, zero_loop, is_trusted, same_prefix,
}
use ankah.Proxy.Network.Digits.{bits}
use ankah.Proxy.Network.Prefixes.{parse_network-bits}
use ankah.Proxy.Forwarded.{
  overrun, unfinished, parse_forwarded_value, value_loop, xff_headers, xff_value, xff_loop,
  append_chain,
}
use ankah.Proxy.Forwarded.Values.{parse_forwarded_value-Ends}
use ankah.Proxy.Resolve.{
  address, resolve_client_ip, resolve_from, resolve_chain, select_client, select_loop,
}
use ankah.Proxy.Resolve.Origin.{Origin, resolve_client_ip-Origin}

abbrev network_bytes : Bytes
network_bytes = 10 ∷ 0 ∷ 0 ∷ 0 ∷ []

abbrev proxy_bytes : Bytes
proxy_bytes = 10 ∷ 0 ∷ 0 ∷ 1 ∷ []

abbrev client_bytes : Bytes
client_bytes = 192 ∷ 0 ∷ 2 ∷ 7 ∷ []

-- A parser that knows three addresses.
abbrev known : Bytes → Option Bytes
known text =
    if str_eq text (codes "10.0.0.0")
    then some network_bytes
    else if str_eq text (codes "10.0.0.1")
    then some proxy_bytes
    else if str_eq text (codes "192.0.2.7")
    then some client_bytes
    else none

abbrev an_inet : Inet
an_inet = record {
  pton4 = known;
  pton6 = λ text. none;
  ntop = λ family bytes capacity. some (take 4 bytes);
}

known-IsAddress :
    (text bytes : Bytes) → known text ≡ some bytes → (length bytes ≡ 4) × All IsByte bytes
known-IsAddress text bytes e = ground arith

none-IsAddress : (bytes : Bytes) → none ≡ some bytes → (length bytes ≡ 16) × All IsByte bytes
none-IsAddress bytes e = cc

an_inet-IsSound : IsSound an_inet
an_inet-IsSound = record {
  four = known-IsAddress;
  sixteen = λ text bytes e. none-IsAddress bytes e;
}

abbrev a_network : Network
a_network = record { address = network_bytes ++ replicate 12 0; prefix = 8; family = inet }

test_parse_network : parse_network an_inet (codes "10.0.0.0/8") ≡ some a_network
unfolding parse_network network_parts before_last after_last parse_ip_text trim_end trim_start
    unquoted address_part without_port parse_value decimal_prefix masked zero_loop
test_parse_network = refl

client-IsAddress : IsAddress (ipv4 client_bytes)
client-IsAddress = (refl, omega arith)

parse_network-bits_example :
    (ip : Ip) × (parts : Bytes × Bytes) × (network_parts (codes "10.0.0.0/8") ≡ some parts)
    × (parse_ip_text an_inet parts.0 ≡ some ip)
    × ((network_contains a_network (ipv4 client_bytes) ≡ true) ↔ (
        (ip.family ≡ inet)
        × (take (decimal_prefix 0 parts.1) (bits ip.bytes)
            ≡ take (decimal_prefix 0 parts.1) (bits (ipv4 client_bytes).bytes))))
parse_network-bits_example =
    parse_network-bits an_inet (codes "10.0.0.0/8") a_network (ipv4 client_bytes) an_inet-IsSound
      test_parse_network client-IsAddress

abbrev a_value : Bytes
a_value = codes "for=192.0.2.7;proto=\"https\\"

-- The escape takes the terminating NUL for an escaped byte.
test_overrun : parse_forwarded_value an_inet [] a_value ≡ overrun
unfolding parse_forwarded_value value_loop
test_overrun = refl

parse_forwarded_value-Ends_example :
    (parse_forwarded_value an_inet [] a_value ≢ unfinished)
    × (parse_forwarded_value an_inet [] a_value ≡ overrun → last a_value ≡ b'\\')
parse_forwarded_value-Ends_example = parse_forwarded_value-Ends an_inet [] a_value

abbrev a_request : Request
a_request = record {
  method = codes "GET";
  target = codes "/";
  headers =
      record { name = codes "X-Forwarded-For"; value = codes "192.0.2.7, 10.0.0.1"; kind = 31 }
      ∷ [];
  websocket = false;
  has_body = false;
  chunked = false;
  content_length = 0;
}

test_resolve :
    resolve_client_ip an_inet (λ name. 1) a_request (codes "10.0.0.1") (a_network ∷ []) 64
    ≡ address client_bytes
unfolding resolve_client_ip parse_ip_text trim_end trim_start unquoted address_part without_port
    parse_value resolve_from is_trusted network_contains same_prefix header_is resolve_chain
    xff_headers xff_value xff_loop append_chain format_ip select_client select_loop
test_resolve = refl

resolve_client_ip-Origin_example :
    (direct : Ip) × (ip : Ip) × (parse_ip_text an_inet (codes "10.0.0.1") ≡ some direct)
    × (format_ip an_inet ip 64 ≡ some client_bytes)
    × Origin an_inet (λ name. 1) a_request (a_network ∷ []) direct ip
resolve_client_ip-Origin_example =
    resolve_client_ip-Origin an_inet (λ name. 1) a_request (codes "10.0.0.1") (a_network ∷ []) 64
      client_bytes test_resolve
