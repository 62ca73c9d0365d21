-- ===== src/Host/Headers/Admitted.antt =====
-- What the checks leave of a request.
use ankah.Prelude.{
  ℕ, zero, suc, ◌≤◌, ◌≡◌, refl, sym, ap, ◌∙◌, inl, inr, ◌⊎◌, Bool, true, false, not, ◌&&◌, List, [],
  ◌∷◌, arith, Option, none, some, ◌==◌, ==_iff, ap₂, All, Bytes, codes, Bool-cases, str_eq_iff,
  subst, get_or, get_elem?,
}
use ankah.Http.{Header, Request}
use ankah.Host.Authority.{authority}
use ankah.Host.Routes.{Route, Host, route_request}
use ankah.Host.Routes.Forwarding.{Forwarded, route_request-Forwarded}
use ankah.Host.Headers.Counting.{count_named, header_loop-cons, header_loop-counts}
use ankah.Host.Headers.{
  equal, sensitive, authority_status, field_status, has_routes, Checked, stop, pass, header_loop,
  none_seen, after_headers, host_request,
}

-- The fields that have no place in HTTP/2.
abbrev pub connection_fields : List Bytes
connection_fields =
    codes "Connection"
    ∷ codes "Keep-Alive"
    ∷ codes "Proxy-Connection"
    ∷ codes "Transfer-Encoding"
    ∷ codes "Upgrade"
    ∷ []

-- A Host header names the host that is served; HTTP/2 has no connection fields; a host with routes
-- takes no Trailer or Upgrade.
abbrev pub HeaderOk : Host → Bool → Header → Type 0
HeaderOk host h2 h =
    ((equal h.name (codes "Host") ≡ false) ⊎ (authority h.value 443 ≡ some (host.name, host.port)))
    × ((h2 ≡ false) ⊎ All (λ field. equal h.name field ≡ false) connection_fields)
    × ((has_routes host.routes ≡ false)
        ⊎ ((equal h.name (codes "Trailer") ≡ false) × (equal h.name (codes "Upgrade") ≡ false)))

authority_status-zero :
    (host : Host) (o : Option (Bytes × ℕ))
    → authority_status host o ≡ 0
    → o ≡ some (host.name, host.port)
authority_status-zero host none e = ground arith
authority_status-zero host (some (name, port)) e =
    ap₂ (λ n p. some (n, p)) ((str_eq_iff name host.name).0 (ground arith))
      ((==_iff port host.port).0 (ground arith))

field_status-HeaderOk :
    (host : Host) (h2 : Bool) (h : Header) → field_status host h2 h ≡ 0 → HeaderOk host h2 h
unfolding field_status
field_status-HeaderOk host h2 h e =
    ground (arith, authority_status-zero host (authority h.value 443))

header_loop-HeaderOk :
    (host : Host) (h2 : Bool) (headers : List Header) (seen seen' : List ℕ)
    → header_loop host h2 headers seen ≡ pass seen'
    → All (HeaderOk host h2) headers
header_loop-HeaderOk host h2 [] seen seen' e = tt
header_loop-HeaderOk host h2 (h ∷ hs) seen seen' e =
    let (mid, went, good, e') = header_loop-cons host h2 h hs seen seen' e in
    (field_status-HeaderOk host h2 h good, header_loop-HeaderOk host h2 hs mid seen' e')

-- What the checks of the authority and the headers leave of a request.
pub record Admitted (host : Host) (request : Request) (text : Bytes) (h2 : Bool) (name : Bytes)
    : Type 0 where
  pub authority_served : authority text 443 ≡ some (host.name, host.port)
  pub each : All (HeaderOk host h2) request.headers
  pub at_most_once : count_named name request.headers ≤ 1
  pub one_host : (h2 ≡ true) ⊎ (count_named (codes "Host") request.headers ≡ 1)

after_headers-pass :
    (host : Host) (request : Request) (h2 : Bool) (c : Checked) (i : ℕ)
    → (after_headers host request h2 c).route ≡ some i
    → (seen : List ℕ) × (c ≡ pass seen)
      × ((h2 ≡ true) ⊎ (get_or seen 0 0 ≡ 1))
      × (after_headers host request h2 c ≡ route_request host request)
unfolding after_headers
after_headers-pass host request h2 (stop status) i = λ e. cc
after_headers-pass host request h2 (pass seen) i =
    elim (Bool-cases (not h2 && not (get_or seen 0 0 == 1))) [
      | inl bad ↦ rw bad (λ e. cc)
      | inr good ↦ rw good (λ e. (seen, refl, ground (arith, good), refl))
    ]

host_request-headers :
    (host : Host) (request : Request) (text : Bytes) (h2 : Bool) (i : ℕ)
    → (host_request host request text h2).route ≡ some i
    → (authority_status host (authority text 443) ≡ 0)
      × (host_request host request text h2
          ≡ after_headers host request h2 (header_loop host h2 request.headers none_seen))
unfolding host_request
host_request-headers host request text h2 i =
    elim (Bool-cases (authority_status host (authority text 443) == 0)) [
      | inl good ↦
          rw good (λ e. ((==_iff (authority_status host (authority text 443)) 0).0 good, refl))
      | inr bad ↦ rw bad (λ e. cc)
    ]

get_or-le : (ns : List ℕ) (k : ℕ) → All (λ n. n ≤ 1) ns → get_or ns k 0 ≤ 1
get_or-le [] k h = omega arith
get_or-le (n ∷ ns) zero h = h.0
get_or-le (n ∷ ns) (suc k) h = get_or-le ns k h.1

none_seen-le : (k : ℕ) → get_or none_seen k 0 ≤ 1
none_seen-le k = get_or-le none_seen k (omega arith)

-- A request that `ankah_host_request` gives a route: its authority is that of the host; every Host
-- header names the host too, and over HTTP/1.1 there is exactly one; over HTTP/2 there is no
-- connection header, and no Trailer or Upgrade for a host with routes; none of the seven sensitive
-- headers occurs twice (`name` is the one at `k`); and the route is in the table, as specific as any
-- that matches the path, with the request's method.
pub host_request-Admitted :
    (host : Host) (request : Request) (text : Bytes) (h2 : Bool) (i k : ℕ) (name : Bytes)
    → (host_request host request text h2).route ≡ some i
    → get_elem? sensitive k ≡ some name
    → Admitted host request text h2 name
      × ((r : Route) × Forwarded host request (host_request host request text h2).status i r)
host_request-Admitted host request text h2 i k name e at_k =
    let (served, checked) = host_request-headers host request text h2 i e in
    let (seen, went, one, routed) =
      after_headers-pass host request h2 (header_loop host h2 request.headers none_seen) i
        (ap (λ v. v.route) (sym checked) ∙ e) in
    let all = checked ∙ routed in
    (
      record {
        authority_served = authority_status-zero host (authority text 443) served;
        each = header_loop-HeaderOk host h2 request.headers none_seen seen went;
        at_most_once =
            let (grows, small) =
              header_loop-counts host h2 request.headers none_seen seen k name went at_k
                (none_seen-le k) in
            omega (arith, grows);
        one_host = elim one [
          | inl two ↦ inl two
          | inr first ↦ inr (
              omega (
                arith,
                (header_loop-counts host h2 request.headers none_seen seen 0 (codes "Host") went
                    refl (omega arith)).0,
              ))
        ];
      },
      subst (λ v. (r : Route) × Forwarded host request v.status i r) (sym all)
          (route_request-Forwarded host request i (ap (λ v. v.route) (sym all) ∙ e)),
    )
