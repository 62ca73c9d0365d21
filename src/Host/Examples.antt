-- ===== src/Host/Examples.antt =====
-- Authorities, parsed.
use ankah.Http.{Request}
use ankah.Host.Routes.{
  Route, Host, route_request, best_loop, improves, route_path, owned_request, method_loop,
  unambiguous_prefix_path, unambiguous_loop,
}
use ankah.Host.Routes.{local_path}
use ankah.Host.Conflicts.{has_url, route_conflict, route_conflict-local_path}
use ankah.Host.Routes.Forwarding.{Forwarded, route_request-Forwarded}
use ankah.Host.Headers.{
  equal, nominated, nominated_loop, skip_separators, before_comma, from_comma, trim, sensitive_loop,
  field_status, header_loop, after_headers, host_request,
}
use ankah.Host.Headers.Nomination.{nominated_loop-total}
use ankah.Host.Headers.Admitted.{Admitted, host_request-Admitted}
use ankah.Prelude.{
  str_eq, arith, true, false, suc, length, Bool, ◌≡◌, refl, List, [], ◌∷◌, none, some, Bytes, codes,
}
use ankah.Host.Authority.{
  name_step, name_loop, port_loop, parse_port, authority, Served, host_at, misdirected, bad_request,
  find_host, host_find,
}
use ankah.Host.Authority.Canonical.{Canonical, authority-Canonical}

abbrev hosts : List Served
hosts =
    record {
      origin = codes "https://example.org:8443";
      authority_text = codes "example.org:8443";
      name = codes "example.org";
      port = 8443;
    }
    ∷ []

parsed : authority (codes "Example.ORG:8443") 443 ≡ some (codes "example.org", 8443)
unfolding authority name_loop name_step parse_port port_loop
parsed = refl

double_dot_refused : authority (codes "example..org") 443 ≡ none
unfolding authority name_loop name_step parse_port port_loop
double_dot_refused = refl

padded_port_refused : authority (codes "example.org:0443") 443 ≡ none
unfolding authority name_loop name_step parse_port port_loop
padded_port_refused = refl

found : host_find hosts (codes "EXAMPLE.org:8443") ≡ host_at 0
unfolding host_find find_host authority name_loop name_step parse_port port_loop
found = refl

other_port : host_find hosts (codes "example.org") ≡ misdirected
unfolding host_find find_host authority name_loop name_step parse_port port_loop
other_port = refl

malformed : host_find hosts (codes "exam_ple.org") ≡ bad_request
unfolding host_find find_host authority name_loop name_step parse_port port_loop
malformed = refl

authority-Canonical_example : Canonical 443 (codes "example.org") 8443
authority-Canonical_example =
    authority-Canonical (codes "Example.ORG:8443") 443 (codes "example.org") 8443 parsed

abbrev route : Bytes → Bool → Route
route path prefix = record {
  method = codes "GET";
  path = path;
  policy_index = 0;
  prefix = prefix;
  query = true;
}

abbrev host : Host
host = record {
  name = codes "example.org";
  port = 443;
  primary = false;
  dashboard_route = [];
  has_asset = λ path. false;
  routes = route (codes "/") true ∷ route (codes "/api/") true ∷ route (codes "/api/v1") false ∷ [];
  defaults = record { body_limit = 1000 };
  policies = [];
}

abbrev request : Bytes → Request
request target = record {
  method = codes "GET";
  target = target;
  headers =
      record { name = codes "host"; value = codes "Example.org"; kind = 0 }
      ∷ record { name = codes "connection"; value = codes "close , x-one"; kind = 0 }
      ∷ [];
  websocket = false;
  has_body = false;
  chunked = false;
  content_length = 0;
}

longest_prefix : (route_request host (request (codes "/api/v2?x=1"))).route ≡ some 1
unfolding route_request best_loop improves route_path owned_request method_loop
    unambiguous_prefix_path unambiguous_loop
longest_prefix = refl

exact_first : (route_request host (request (codes "/api/v1"))).route ≡ some 2
unfolding route_request best_loop improves route_path owned_request method_loop
exact_first = refl

dots_refused : (route_request host (request (codes "/api/../x"))).status ≡ 404
unfolding route_request best_loop improves route_path owned_request method_loop
    unambiguous_prefix_path unambiguous_loop
dots_refused = refl

admitted :
    (host_request host (request (codes "/api/v1")) (codes "example.org") false).route ≡ some 2
unfolding host_request authority name_loop name_step parse_port header_loop sensitive_loop equal
    nominated nominated_loop skip_separators before_comma from_comma trim field_status after_headers
    route_request best_loop improves route_path owned_request method_loop
admitted = refl

route_request-Forwarded_example :
    (r : Route) × Forwarded host
      (request (codes "/api/v1"))
      (route_request host (request (codes "/api/v1"))).status
      2
      r
route_request-Forwarded_example =
    route_request-Forwarded host (request (codes "/api/v1")) 2 exact_first

host_request-Admitted_example :
    Admitted host (request (codes "/api/v1")) (codes "example.org") false (codes "Content-Length")
    × ((r : Route) × Forwarded host
          (request (codes "/api/v1"))
          (host_request host (request (codes "/api/v1")) (codes "example.org") false).status
          2
          r)
host_request-Admitted_example =
    host_request-Admitted host (request (codes "/api/v1")) (codes "example.org") false 2 4
      (codes "Content-Length") admitted refl

nominated_loop-total_example :
    (found : Bool) × (nominated_loop
        (suc (suc (length (codes "close, host"))))
        (codes "close, host")
        (codes "Host")
      ≡ some found)
nominated_loop-total_example = nominated_loop-total (codes "close, host") (codes "Host")

abbrev app_host : Host
app_host = record host {
  dashboard_route = codes "/dash/";
  has_asset = λ path. str_eq path (codes "/app.js");
}

app_listed :
    (url : Bytes) → app_host.has_asset url ≡ true → has_url url (codes "/app.js" ∷ []) ≡ true
app_listed url e = ground (arith, e)

route_conflict-local_path_example : local_path app_host (codes "/api/items?page=2") ≡ false
unfolding route_conflict route_path
route_conflict-local_path_example =
    route_conflict-local_path (codes "/app.js" ∷ []) app_host (route (codes "/api/") true)
      (codes "/api/items?page=2") app_listed refl refl
