-- ===== src/Host/Headers.antt =====
-- src/host.c, `ankah_host_request`: the checks of the authority and of the headers, before the route.
pub mod Nomination
pub mod Counting
pub mod Admitted
use ankah.Prelude.{
  ℕ, zero, suc, ◌+◌, ◌-◌, Bool, true, false, not, ◌&&◌, ◌||◌, List, [], ◌∷◌, ◌++◌, Option, none,
  some, ◌>>=◌, ltb, ◌==◌, if◌then◌else◌, length, take, drop, get_or, Bytes, codes, str_eq, is_empty,
}
use ankah.Http.{Header, Request, max_field}
use ankah.Host.Authority.{lower_case, authority}
use ankah.Host.Routes.{Route, Host, Verdict, denied, route_request}

unfoldable pub equal : Bytes → Bytes → Bool
equal [] [] = true
equal [] (d ∷ ds) = false
equal (c ∷ cs) [] = false
equal (c ∷ cs) (d ∷ ds) = lower_case c == lower_case d && equal cs ds

abbrev pub is_blank : ℕ → Bool
is_blank c = c == b' ' || c == b'\t'

unfoldable pub skip_separators : Bytes → Bytes
skip_separators [] = []
skip_separators (c ∷ cs) = if is_blank c || c == b',' then skip_separators cs else c ∷ cs

unfoldable pub before_comma : Bytes → Bytes
before_comma [] = []
before_comma (c ∷ cs) = if c == b',' then [] else c ∷ before_comma cs

unfoldable pub from_comma : Bytes → Bytes
from_comma [] = []
from_comma (c ∷ cs) = if c == b',' then c ∷ cs else from_comma cs

-- Without the blanks at the end.
unfoldable pub trim : Bytes → Bytes
trim [] = []
trim (c ∷ cs) = let rest = trim cs in if is_empty rest && is_blank c then [] else c ∷ rest

-- What the buffer of `max_field` bytes has after the loop that fills it, and the one that trims it.
abbrev pub token_of : Bytes → Bytes
token_of value = trim (take (max_field - 1) (before_comma value))

-- The outer loop. `none` is no outcome of the code: the fuel of `nominated` is enough (Nomination).
unfoldable pub nominated_loop : ℕ → Bytes → Bytes → Option Bool
nominated_loop zero value name = none
nominated_loop (suc fuel) [] name = some false
nominated_loop (suc fuel) (c ∷ cs) name =
    let at_token = skip_separators (c ∷ cs) in
    let rest = nominated_loop fuel (from_comma at_token) name in
    if equal (token_of at_token) name then some true else rest

-- Each round but the first passes a comma.
unfoldable pub nominated : Bytes → Bytes → Bool
nominated value name = elim (nominated_loop (suc (suc (length value))) value name) [
  | none ↦ false
  | some found ↦ found
]

abbrev pub sensitive : List Bytes
sensitive =
    codes "Host"
    ∷ codes "Authorization"
    ∷ codes "Idempotency-Key"
    ∷ codes "Content-Type"
    ∷ codes "Content-Length"
    ∷ codes "Transfer-Encoding"
    ∷ codes "Expect"
    ∷ []

-- The loop over the sensitive names and their counts, for one header; `none` returns 400.
unfoldable pub sensitive_loop : Header → List Bytes → List ℕ → Option (List ℕ)
sensitive_loop header [] seen = some []
sensitive_loop header (name ∷ names) seen =
    let count = get_or seen 0 0 in
    let counted = if equal header.name name then count + 1 else count in
    let rest = sensitive_loop header names (drop 1 seen) in
    if equal header.name name && ltb 1 (count + 1)
    then none
    else if equal header.name (codes "Connection") && nominated header.value name
    then none
    else rest >>= λ counts. some (counted ∷ counts)

abbrev pub is_connection_field : Bytes → Bool
is_connection_field name =
    equal name (codes "Connection")
    || equal name (codes "Transfer-Encoding")
    || equal name (codes "Upgrade")
    || equal name (codes "Keep-Alive")
    || equal name (codes "Proxy-Connection")

-- The host that an authority names, against the one that is served: 400, 421 or, for it, 0.
abbrev pub authority_status : Host → Option (Bytes × ℕ) → ℕ
authority_status host none = 400
authority_status host (some (name, port)) =
    if not (str_eq name host.name) || not (port == host.port) then 421 else 0

-- host->route_count
abbrev pub has_routes : List Route → Bool
has_routes [] = false
has_routes (r ∷ rs) = true

-- The checks of one header after those of the sensitive names; 0 goes on.
unfoldable pub field_status : Host → Bool → Header → ℕ
field_status host h2 header =
    let host_status =
      if equal header.name (codes "Host")
      then authority_status host (authority header.value 443)
      else 0 in
    if not (host_status == 0)
    then host_status
    else if h2 && is_connection_field header.name
    then 400
    else if has_routes host.routes
        && (equal header.name (codes "Trailer") || equal header.name (codes "Upgrade"))
    then 400
    else 0

-- The loop over the headers returns a status, or goes on with the counts.
pub data Checked : Type 0 where
  stop : ℕ → Checked
  pass : List ℕ → Checked

unfoldable pub header_loop : Host → Bool → List Header → List ℕ → Checked
header_loop host h2 [] seen = pass seen
header_loop host h2 (header ∷ headers) seen = elim (sensitive_loop header sensitive seen) [
  | none ↦ stop 400
  | some seen' ↦ elim (field_status host h2 header == 0) [
    | false ↦ stop (field_status host h2 header)
    | true ↦ header_loop host h2 headers seen'
  ]
]

abbrev pub none_seen : List ℕ
none_seen = 0 ∷ 0 ∷ 0 ∷ 0 ∷ 0 ∷ 0 ∷ 0 ∷ []

unfoldable pub after_headers : Host → Request → Bool → Checked → Verdict
after_headers host request h2 (stop status) = denied status
after_headers host request h2 (pass seen) =
    if not h2 && not (get_or seen 0 0 == 1) then denied 400 else route_request host request

unfoldable pub host_request : Host → Request → Bytes → Bool → Verdict
host_request host request text h2 =
    if not (authority_status host (authority text 443) == 0)
    then denied (authority_status host (authority text 443))
    else after_headers host request h2 (header_loop host h2 request.headers none_seen)
