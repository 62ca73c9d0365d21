-- ===== src/Host/Routes/Forwarding.antt =====
-- What a request that is given a route has in common with it.
use mathlib.Core.Bool.{beq}
use ankah.Prelude.{
  ℕ, suc, ◌+◌, ◌≤◌, ◌<◌, ◌≡◌, refl, ◌∙◌, inl, inr, ◌⊎◌, Bool, true, false, not, ◌&&◌, ◌||◌, List,
  [], ◌∷◌, arith, Option, none, some, some-injective, ltb, if◌then◌else◌, get_elem?, All, Bytes,
  Bool-cases, str_eq, str_eq_iff, subst,
}
use ankah.Http.{Request}
use ankah.Host.Routes.{
  Route, Host, path_of, has_query, host_policy, route_path, best_loop, unambiguous_prefix_path,
  Verdict, denied, same_owner, method_loop, owned_request, route_request,
}
use ankah.Host.Routes.Owner.{Covered, Owner, best_loop-Owner}

-- 413 is the status of a body over the limit.
abbrev pub BodyStatus : ℕ → ℕ → ℕ → Type 0
BodyStatus status limit size = ((status ≡ 0) × (size ≤ limit)) ⊎ ((status ≡ 413) × (limit < size))

-- The request is given `r`, the route at `i`: one as specific as any that matches its path, with
-- its method, that allows a query if there is one; the status says whether the body is in its limit.
pub record Forwarded (host : Host) (request : Request) (status i : ℕ) (r : Route) : Type 0 where
  pub at_index : get_elem? host.routes i ≡ some r
  pub matches : route_path r (path_of request.target) ≡ true
  pub owner : All (Covered (path_of request.target) r) host.routes
  pub same_method : request.method ≡ r.method
  pub query_allowed : (has_query request.target ≡ false) ⊎ (r.query ≡ true)
  pub unambiguous : (r.prefix ≡ false) ⊎ (unambiguous_prefix_path (path_of request.target) ≡ true)
  pub body : BodyStatus status (host_policy host r).body_limit request.content_length

-- What the last loop finds.
record Picked (host : Host) (request : Request) (best : Route) (rs : List Route) (status k : ℕ)
    (r : Route) : Type 0 where
  at_index : get_elem? rs k ≡ some r
  owned : same_owner best r ≡ true
  same_method : request.method ≡ r.method
  query_allowed : (has_query request.target ≡ false) ⊎ (r.query ≡ true)
  body : BodyStatus status (host_policy host r).body_limit request.content_length

beq-eq : (a b : Bool) → beq a b ≡ true → a ≡ b
beq-eq true true e = refl
beq-eq true false e = cc
beq-eq false true e = cc
beq-eq false false e = refl

BodyStatus-if : (limit size : ℕ) → BodyStatus (if ltb limit size then 413 else 0) limit size
BodyStatus-if limit size = elim (Bool-cases (ltb limit size)) [
  | inl over ↦ rw over (inr (refl, ground arith))
  | inr within_limit ↦ rw within_limit (inl (refl, ground arith))
]

Picked-later :
    {host : Host} {request : Request} {best q : Route} {rs : List Route} {status k : ℕ} {r : Route}
    → Picked host request best rs status k r
    → Picked host request best (q ∷ rs) status (suc k) r
Picked-later p = record {
  at_index = p.at_index;
  owned = p.owned;
  same_method = p.same_method;
  query_allowed = p.query_allowed;
  body = p.body;
}

module _ (host : Host) (request : Request) (best : Route) where
  Result : List Route → ℕ → Verdict → ℕ → Type 0
  Result rs i v j = (k : ℕ) × (r : Route) × (j ≡ i + k) × Picked host request best rs v.status k r

  Result-later :
      (q : Route) (rs : List Route) (i : ℕ) (v : Verdict) (j : ℕ)
      → Result rs (suc i) v j
      → Result (q ∷ rs) i v j
  unfolding Result
  Result-later q rs i v j (k, r, e, p) = (suc k, r, omega arith, Picked-later p)

  method_loop-Result :
      (rs : List Route) (i : ℕ) (allowed : Bool) (j : ℕ)
      → (method_loop host request best rs i allowed).route ≡ some j
      → Result rs i (method_loop host request best rs i allowed) j
  unfolding method_loop Result
  method_loop-Result [] i allowed j = λ e. cc
  method_loop-Result (q ∷ rs) i allowed j = elim (Bool-cases (same_owner best q)) [
    | inr other ↦ rw other (λ e.
        Result-later q rs i (method_loop host request best rs (suc i) allowed) j
          (method_loop-Result rs (suc i) allowed j e))
    | inl owned ↦ elim (Bool-cases (str_eq request.method q.method)) [
      | inr wrong ↦
          rw (owned, wrong)
            (λ e.
              let allowed' = allowed || not (has_query request.target) || q.query in
              Result-later q rs i (method_loop host request best rs (suc i) allowed') j
                (method_loop-Result rs (suc i) allowed' j e))
      | inl right ↦ elim (Bool-cases (has_query request.target && not q.query)) [
        | inl no_query ↦ rw (owned, right, no_query) (λ e. cc)
        | inr query ↦
            rw (owned, right, query)
              (λ e. (
                0,
                q,
                omega (arith, some-injective i j e),
                record {
                  at_index = refl;
                  owned = owned;
                  same_method = (str_eq_iff request.method q.method).0 right;
                  query_allowed = ground (arith, query);
                  body = BodyStatus-if (host_policy host q).body_limit request.content_length;
                },
              ))
      ]
    ]
  ]

  same_owner-fields :
      (r : Route) → same_owner best r ≡ true → (r.prefix ≡ best.prefix) × (r.path ≡ best.path)
  same_owner-fields r e =
      (beq-eq r.prefix best.prefix (ground arith), (str_eq_iff r.path best.path).0 (ground arith))

  Covered-owned :
      (path : Bytes) (r q : Route)
      → r.prefix ≡ best.prefix
      → r.path ≡ best.path
      → Covered path best q
      → Covered path r q
  Covered-owned path r q p l (inl miss) = inl miss
  Covered-owned path r q p l (inr (inl exact)) = inr (inl (p ∙ exact))
  Covered-owned path r q p l (inr (inr (prefix, le))) = inr (inr (prefix, rw l le))

  Covered-All :
      (path : Bytes) (r : Route) (rs : List Route)
      → r.prefix ≡ best.prefix
      → r.path ≡ best.path
      → All (Covered path best) rs
      → All (Covered path r) rs
  Covered-All path r [] p l h = tt
  Covered-All path r (q ∷ rs) p l h =
      (Covered-owned path r q p l h.0, Covered-All path r rs p l h.1)

  route_path-owned :
      (path : Bytes) (r : Route)
      → r.prefix ≡ best.prefix
      → r.path ≡ best.path
      → route_path r path ≡ route_path best path
  unfolding route_path
  route_path-owned path r p l = rw (p, l) refl

  Forwarded-of_Picked :
      (status k : ℕ) (r : Route)
      → route_path best (path_of request.target) ≡ true
      → All (Covered (path_of request.target) best) host.routes
      → (best.prefix ≡ false) ⊎ (unambiguous_prefix_path (path_of request.target) ≡ true)
      → Picked host request best host.routes status k r
      → Forwarded host request status k r
  Forwarded-of_Picked status k r matched all clear p =
      let (pre, path) = same_owner-fields r p.owned in
      record {
        at_index = p.at_index;
        matches = route_path-owned (path_of request.target) r pre path ∙ matched;
        owner = Covered-All (path_of request.target) r host.routes pre path all;
        same_method = p.same_method;
        query_allowed = p.query_allowed;
        unambiguous = elim clear [ inl exact ↦ inl (pre ∙ exact) | inr ok ↦ inr ok ];
        body = p.body;
      }

Forwarded-of_Result :
    (host : Host) (request : Request) (best : Route) (i : ℕ)
    → route_path best (path_of request.target) ≡ true
    → All (Covered (path_of request.target) best) host.routes
    → (best.prefix ≡ false) ⊎ (unambiguous_prefix_path (path_of request.target) ≡ true)
    → Result host request best host.routes 0 (method_loop host request best host.routes 0 false) i
    → (r : Route) × Forwarded host request
        (method_loop host request best host.routes 0 false).status
        i
        r
unfolding Result
Forwarded-of_Result host request best i matched all clear (k, r, e, p) = (
  r,
  subst (λ j. Forwarded host request (method_loop host request best host.routes 0 false).status j r)
      (omega arith) (Forwarded-of_Picked host request best _ k r matched all clear p),
)

owned_request-Forwarded :
    (host : Host) (request : Request) (o : Option Route) (i : ℕ)
    → Owner (path_of request.target) host.routes o
    → (owned_request host request o).route ≡ some i
    → (r : Route) × Forwarded host request (owned_request host request o).status i r
unfolding owned_request
owned_request-Forwarded host request none i h = λ e. cc
owned_request-Forwarded host request (some best) i (matched, all) =
    elim (Bool-cases (best.prefix && not (unambiguous_prefix_path (path_of request.target)))) [
      | inl bad ↦ rw bad (λ e. cc)
      | inr clear ↦ rw clear (λ e.
          Forwarded-of_Result host request best i matched all (ground (arith, clear))
            (method_loop-Result host request best host.routes 0 false i e))
    ]

gated :
    (host : Host) (request : Request) (b : Bool) (v : Verdict) (i : ℕ)
    → (v.route ≡ some i → (r : Route) × Forwarded host request v.status i r)
    → (if b then denied 0 else v).route ≡ some i
    → (r : Route) × Forwarded host request (if b then denied 0 else v).status i r
gated host request true v i f e = cc
gated host request false v i f e = f e

-- A request that is given a route: that route is in the table at the index, matches the path and
-- is as specific as any other that does, has the method of the request, allows a query if there is
-- one, and if it is a prefix the path has no dots or escapes; the status is 0 or 413 by its limit.
pub route_request-Forwarded :
    (host : Host) (request : Request) (i : ℕ)
    → (route_request host request).route ≡ some i
    → (r : Route) × Forwarded host request (route_request host request).status i r
unfolding route_request
route_request-Forwarded host request i e =
    let best = best_loop (path_of request.target) host.routes none in
    gated host request host.primary (owned_request host request best) i
      (owned_request-Forwarded host request best i
        (best_loop-Owner (path_of request.target) host.routes))
      e
