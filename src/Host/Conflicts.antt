-- ===== src/Host/Conflicts.antt =====
-- src/host.c: what is checked of the configuration of a host. An origin that is refused may leave its name
-- in the record, which is then not used.
use ankah.Prelude.{
  ap, subst, ℕ, ◌+◌, ◌≡◌, refl, sym, ◌∙◌, inl, inr, Bool, true, false, not, ◌&&◌, ◌||◌, List, [],
  ◌∷◌, Option, none, some, ◌>>=◌, arith, leb, ◌==◌, if◌then◌else◌, length, drop, Bytes, codes,
  str_eq, str_eq_iff, is_empty, Bool-cases, Option-cases, some-injective, str_eq_refl,
}
use ankah.Host.Authority.{Served, authority, host_at, find_host, host_find}
use ankah.Host.Routes.{Route, Host, is_prefix, path_of, route_path, local_path}

abbrev pub origin_size : ℕ
origin_size = 256

unfoldable pub host_origin : Bytes → Option Served
host_origin origin =
    if not (is_prefix (codes "https://") origin) || leb origin_size (length origin)
    then none
    else (authority (drop 8 origin) 443 >>= λ (name, port).
        some record { origin = origin; authority_text = drop 8 origin; name = name; port = port })

-- A host with an accepted origin is found by its own authority.
host_origin-host_find :
    (origin : Bytes) (host : Served)
    → host_origin origin ≡ some host
    → host_find (host ∷ []) host.authority_text ≡ host_at 0
unfolding host_origin host_find find_host
host_origin-host_find origin host =
    elim (Bool-cases
      (not (is_prefix (codes "https://") origin) || leb origin_size (length origin))) [
        | inl refused ↦ rw refused (ground arith)
        | inr accepted ↦ elim (Option-cases (authority (drop 8 origin) 443)) [
          | inl bad ↦ rw (accepted, bad) (ground arith)
          | inr ((name, port), good) ↦
              rw (accepted, good)
                (λ e.
                  let served : Served = record {
                    origin = origin;
                    authority_text = drop 8 origin;
                    name = name;
                    port = port;
                  } in
                  subst (λ h. host_find (h ∷ []) h.authority_text ≡ host_at 0)
                    (some-injective served host e)
                    (rw (good, host_find) (ground (arith, str_eq_refl name))))
        ]
      ]

-- The bytes of the shorter path are the first of the longer one.
abbrev pub intersects : Bytes → Bytes → Bool
intersects [] right = true
intersects (c ∷ left) [] = true
intersects (c ∷ left) (d ∷ right) = c == d && intersects left right

-- The loop over the entries of the bundle.
abbrev pub matches_any : Route → List Bytes → Bool
matches_any route [] = false
matches_any route (url ∷ urls) = route_path route url || matches_any route urls

-- `urls` are those of the host's bundle.
unfoldable pub route_conflict : List Bytes → Host → Route → Bool
route_conflict urls host route =
    if not route.prefix
    then local_path host route.path
    else intersects route.path (codes "/ankah/")
      || (not (is_empty host.dashboard_route) && intersects route.path host.dashboard_route)
      || matches_any route urls

path_of-path_of : (target : Bytes) → path_of (path_of target) ≡ path_of target
path_of-path_of [] = refl
path_of-path_of (c ∷ cs) = elim (Bool-cases (c == b'?')) [
  | inl query ↦ rw query refl
  | inr other ↦ rw (other, other) (ap (λ rest. c ∷ rest) (path_of-path_of cs))
]

-- Two beginnings of one path intersect.
intersects-beginnings :
    (a b path : Bytes) → is_prefix a path ≡ true → is_prefix b path ≡ true → intersects a b ≡ true
intersects-beginnings [] b path h k = refl
intersects-beginnings (c ∷ a) [] path h k = refl
intersects-beginnings (c ∷ a) (d ∷ b) [] h k = ground arith
intersects-beginnings (c ∷ a) (d ∷ b) (e ∷ path) h k =
    let tail : intersects a b ≡ true =
      intersects-beginnings a b path (ground arith) (ground arith) in
    ground arith

-- A beginning of a path intersects what the path begins.
intersects-within :
    (a path b : Bytes) → is_prefix a path ≡ true → is_prefix path b ≡ true → intersects a b ≡ true
intersects-within [] path b h k = refl
intersects-within (c ∷ a) path [] h k = refl
intersects-within (c ∷ a) [] (d ∷ b) h k = ground arith
intersects-within (c ∷ a) (e ∷ path) (d ∷ b) h k =
    let tail : intersects a b ≡ true = intersects-within a path b (ground arith) (ground arith) in
    ground arith

abbrev pub has_url : Bytes → List Bytes → Bool
has_url path [] = false
has_url path (url ∷ urls) = str_eq path url || has_url path urls

matches_any-has_url :
    (route : Route) (path : Bytes) (urls : List Bytes)
    → route_path route path ≡ true
    → has_url path urls ≡ true
    → matches_any route urls ≡ true
matches_any-has_url route path [] h has = ground arith
matches_any-has_url route path (url ∷ urls) h has = elim (Bool-cases (str_eq path url)) [
  | inl same ↦
      let e : path ≡ url = (str_eq_iff path url).0 same in
      let here : route_path route url ≡ true = ap (route_path route) (sym e) ∙ h in ground arith
  | inr other ↦
      let later : matches_any route urls ≡ true =
        matches_any-has_url route path urls h (ground arith) in
      ground arith
]

-- What a local path is, for the bytes before the query.
abbrev is_reserved : Host → Bytes → Bool
is_reserved host path =
    let dashboard = host.dashboard_route in
    is_prefix (codes "/ankah/") path
    || (not (is_empty dashboard)
        && (is_prefix dashboard path
            || (length path + 1 == length dashboard && is_prefix path dashboard)))
    || host.has_asset path

refuted : (t : Bool) → (t ≡ true → ⊥) → t ≡ false
refuted t h = elim (Bool-cases t) [ inl holds ↦ absurd (h holds) | inr other ↦ other ]

prefix_free :
    (urls : List Bytes) (host : Host) (route : Route) (path : Bytes)
    → ((url : Bytes) → host.has_asset url ≡ true → has_url url urls ≡ true)
    → route.prefix ≡ true
    → route_conflict urls host route ≡ false
    → route_path route path ≡ true
    → is_reserved host path ≡ false
unfolding route_conflict route_path
prefix_free urls host route path listed prefix free matches =
    let begins : is_prefix route.path path ≡ true = ground (arith, matches, prefix) in
    let ankah : intersects route.path (codes "/ankah/") ≡ false = ground (arith, free, prefix) in
    let dashboard : not (is_empty host.dashboard_route)
          && intersects route.path host.dashboard_route
        ≡ false =
      ground (arith, free, prefix) in
    let bundle : matches_any route urls ≡ false = ground (arith, free, prefix) in
    let no_ankah : is_prefix (codes "/ankah/") path ≡ false =
      refuted (is_prefix (codes "/ankah/") path) (λ y.
        ground (arith, intersects-beginnings route.path (codes "/ankah/") path begins y, ankah)) in
    let below : not (is_empty host.dashboard_route) && is_prefix host.dashboard_route path ≡ false =
      elim (Bool-cases (is_prefix host.dashboard_route path)) [
        | inl y ↦
            ground (
              arith,
              intersects-beginnings route.path host.dashboard_route path begins y,
              dashboard,
            )
        | inr n ↦ ground (arith, n)
      ] in
    let above : not (is_empty host.dashboard_route) && is_prefix path host.dashboard_route ≡ false =
      elim (Bool-cases (is_prefix path host.dashboard_route)) [
        | inl y ↦
            ground
              (arith, intersects-within route.path path host.dashboard_route begins y, dashboard)
        | inr n ↦ ground (arith, n)
      ] in
    let no_asset : host.has_asset path ≡ false =
      refuted (host.has_asset path) (λ y.
        ground (arith, matches_any-has_url route path urls matches (listed path y), bundle)) in
    ground (arith, no_ankah, below, above, no_asset)

exact_path :
    (route : Route) (path : Bytes)
    → route.prefix ≡ false
    → route_path route path ≡ true
    → str_eq path route.path ≡ true
unfolding route_path
exact_path route path exact = rw exact (λ e. e)

exact_conflict :
    (urls : List Bytes) (host : Host) (route : Route)
    → route.prefix ≡ false
    → route_conflict urls host route ≡ false
    → local_path host route.path ≡ false
unfolding route_conflict
exact_conflict urls host route exact = rw exact (λ e. e)

local_path-path_of :
    (host : Host) (target : Bytes) → local_path host (path_of target) ≡ local_path host target
unfolding local_path
local_path-path_of host target = rw (path_of-path_of target) refl

-- A route that does not conflict with its host takes no path that the host serves itself: none below
-- /ankah/, none of the dashboard and no file of the bundle. It takes that the bundle has the files that
-- ankah_static_find finds.
pub route_conflict-local_path :
    (urls : List Bytes) (host : Host) (route : Route) (target : Bytes)
    → ((url : Bytes) → host.has_asset url ≡ true → has_url url urls ≡ true)
    → route_conflict urls host route ≡ false
    → route_path route (path_of target) ≡ true
    → local_path host target ≡ false
unfolding local_path
route_conflict-local_path urls host route target listed free matches =
    elim (Bool-cases route.prefix) [
      | inl prefix ↦
          let unreserved : is_reserved host (path_of target) ≡ false =
            prefix_free urls host route (path_of target) listed prefix free matches in
          rw unreserved (ground arith)
      | inr exact ↦
          let same : path_of target ≡ route.path =
            (str_eq_iff (path_of target) route.path).0
              (exact_path route (path_of target) exact matches) in
          let own : local_path host route.path ≡ false =
            exact_conflict urls host route exact free in
          sym (local_path-path_of host target) ∙ ap (local_path host) same ∙ own
    ]
