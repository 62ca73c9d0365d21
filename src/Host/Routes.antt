-- ===== src/Host/Routes.antt =====
-- src/host.c: which route a request takes, once its headers are checked.
pub mod Owner
pub mod Forwarding
use ankah.Prelude.{
  ℕ, zero, suc, ◌+◌, ◌-◌, Bool, true, false, not, ◌&&◌, ◌||◌, List, [], ◌∷◌, ◌++◌, Option, none,
  some, ltb, leb, ◌==◌, if◌then◌else◌, length, get_or, Bytes, codes, str_eq, is_empty,
}
use mathlib.Core.Bool.{beq}
use ankah.Http.{Request, max_target}

-- The fields of `ankah_exact_route` that this part reads.
pub record Route : Type 0 where
  pub method : Bytes
  pub path : Bytes
  pub policy_index : ℕ
  pub prefix : Bool
  pub query : Bool

-- The field of `ankah_upstream_policy` that this part reads.
pub record Policy : Type 0 where
  pub body_limit : ℕ

-- The fields of `ankah_host` that this part reads. `has_asset` says whether ankah_static_find finds
-- a path in the host's bundle.
pub record Host : Type 0 where
  pub name : Bytes
  pub port : ℕ
  pub primary : Bool
  pub dashboard_route : Bytes
  pub has_asset : Bytes → Bool
  pub routes : List Route
  pub defaults : Policy
  pub policies : List Policy

abbrev pub is_prefix : Bytes → Bytes → Bool
is_prefix [] text = true
is_prefix (c ∷ cs) [] = false
is_prefix (c ∷ cs) (d ∷ ds) = c == d && is_prefix cs ds

-- The first strcspn(target, "?") bytes.
abbrev pub path_of : Bytes → Bytes
path_of [] = []
path_of (c ∷ cs) = if c == b'?' then [] else c ∷ path_of cs

-- `path_size != strlen(target)`
abbrev pub has_query : Bytes → Bool
has_query target = not (length (path_of target) == length target)

abbrev pub host_policy : Host → Route → Policy
host_policy host route =
    if route.policy_index == 0
    then host.defaults
    else get_or host.policies (route.policy_index - 1) host.defaults

-- `route_path`, for the bytes before the query.
unfoldable pub route_path : Route → Bytes → Bool
route_path route path = if route.prefix then is_prefix route.path path else str_eq path route.path

unfoldable pub local_path : Host → Bytes → Bool
local_path host target =
    let path = path_of target in
    let dashboard = host.dashboard_route in
    not (leb max_target (length path))
    && (is_prefix (codes "/ankah/") path
        || (not (is_empty dashboard)
            && (is_prefix dashboard path
                || (length path + 1 == length dashboard && is_prefix path dashboard)))
        || host.has_asset path)

-- The condition under which `r` becomes `best`.
unfoldable pub improves : Option Route → Route → Bool
improves none r = true
improves (some best) r =
    (not r.prefix && best.prefix)
    || (best.prefix && r.prefix && ltb (length best.path) (length r.path))

unfoldable pub best_loop : Bytes → List Route → Option Route → Option Route
best_loop path [] best = best
best_loop path (r ∷ rs) best =
    best_loop path rs (if route_path r path && improves best r then some r else best)

abbrev pub is_ambiguous_byte : ℕ → Bool
is_ambiguous_byte c = c == b'%' || c == b'\\' || c == b'#'

abbrev pub is_dots : Bytes → Bool
is_dots segment = str_eq segment (codes ".") || str_eq segment (codes "..")

-- The loop of `unambiguous_prefix_path`: `segment` is what was read since the last slash, `before`
-- the byte before.
unfoldable pub unambiguous_loop : Bytes → Bytes → ℕ → Bool
unambiguous_loop [] segment before = not (is_dots segment)
unambiguous_loop (c ∷ cs) segment before = elim (is_ambiguous_byte c) [
  | true ↦ false
  | false ↦ elim (c == b'/') [
    | false ↦ unambiguous_loop cs (segment ++ c ∷ []) c
    | true ↦ elim (before == b'/' || is_dots segment) [
      | true ↦ false
      | false ↦ unambiguous_loop cs [] c
    ]
  ]
]

-- The result of `ankah_host_request`, and the index that `*route` is set to.
pub record Verdict : Type 0 where
  pub status : ℕ
  pub route : Option ℕ

abbrev pub denied : ℕ → Verdict
denied status = record { status = status; route = none }

abbrev pub same_owner : Route → Route → Bool
same_owner best r = beq r.prefix best.prefix && str_eq r.path best.path

-- The first byte is in no segment.
unfoldable pub unambiguous_prefix_path : Bytes → Bool
unambiguous_prefix_path [] = true
unambiguous_prefix_path (c ∷ cs) = not (is_ambiguous_byte c) && unambiguous_loop cs [] c

-- The last loop, from index `i`, among the routes of the path that `best` owns.
unfoldable pub method_loop : Host → Request → Route → List Route → ℕ → Bool → Verdict
method_loop host request best [] i query_allowed = denied (if query_allowed then 405 else 404)
method_loop host request best (r ∷ rs) i query_allowed =
    let skip = method_loop host request best rs (suc i) query_allowed in
    let other_method =
      method_loop host request best rs (suc i)
        (query_allowed || not (has_query request.target) || r.query) in
    if not (same_owner best r)
    then skip
    else if not (str_eq request.method r.method)
    then other_method
    else if has_query request.target && not r.query
    then denied 404
    else record {
      status = if ltb (host_policy host r).body_limit request.content_length then 413 else 0;
      route = some i;
    }

unfoldable pub owned_request : Host → Request → Option Route → Verdict
owned_request host request none = denied (if local_path host request.target then 0 else 404)
owned_request host request (some best) =
    if best.prefix && not (unambiguous_prefix_path (path_of request.target))
    then denied 404
    else method_loop host request best host.routes 0 false

-- `ankah_host_request` from `if (host->primary) return 0;` on.
unfoldable pub route_request : Host → Request → Verdict
route_request host request =
    if host.primary
    then denied 0
    else owned_request host request (best_loop (path_of request.target) host.routes none)
