-- ===== src/Host/Routes/Owner.antt =====
-- The route that owns a path is the most specific one.
use ankah.Prelude.{
  ◌≤◌, ◌≡◌, inl, inr, ◌⊎◌, true, false, List, [], ◌∷◌, arith, Option, none, some, length, All,
  Bytes, Bool-cases,
}
use ankah.Host.Routes.{Route, route_path, improves, best_loop}

-- `best` is as specific as `r`: it is exact, or both are prefixes and `r` is not longer.
abbrev pub AsSpecific : Route → Route → Type 0
AsSpecific best r = (best.prefix ≡ false) ⊎ ((r.prefix ≡ true) × (length r.path ≤ length best.path))

abbrev pub Covered : Bytes → Route → Route → Type 0
Covered path best r = (route_path r path ≡ false) ⊎ AsSpecific best r

-- The owner of a path among the routes.
abbrev pub Owner : Bytes → List Route → Option Route → Type 0
Owner path rs none = All (λ r. route_path r path ≡ false) rs
Owner path rs (some best) = (route_path best path ≡ true) × All (Covered path best) rs

AsSpecific-refl : (r : Route) → AsSpecific r r
AsSpecific-refl r = elim (Bool-cases r.prefix) [
  | inl prefix ↦ inr (prefix, omega arith)
  | inr exact ↦ inl exact
]

AsSpecific-trans : (a b c : Route) → AsSpecific a b → AsSpecific b c → AsSpecific a c
AsSpecific-trans a b c (inl exact) k = inl exact
AsSpecific-trans a b c (inr (prefix, le)) (inl exact) = ground (arith, prefix, exact)
AsSpecific-trans a b c (inr (prefix, le)) (inr (prefix', le')) = inr (prefix', omega arith)

improves-AsSpecific : (best r : Route) → improves (some best) r ≡ true → AsSpecific r best
unfolding improves
improves-AsSpecific best r e = ground arith

not_improves-AsSpecific : (best r : Route) → improves (some best) r ≡ false → AsSpecific best r
unfolding improves
not_improves-AsSpecific best r e = ground arith

-- The loop from a route that matches.
abbrev Above : Bytes → Route → List Route → Option Route → Type 0
Above path start rs none = ⊥
Above path start rs (some best) =
    (route_path best path ≡ true) × AsSpecific best start × All (Covered path best) rs

Above-cons :
    (path : Bytes) (start next r : Route) (rs : List Route) (o : Option Route)
    → AsSpecific next start
    → ((best : Route) → AsSpecific best next → Covered path best r)
    → Above path next rs o
    → Above path start (r ∷ rs) o
Above-cons path start next r rs none a f h = h
Above-cons path start next r rs (some best) a f (matched, above, rest) =
    (matched, AsSpecific-trans best next start above a, (f best above, rest))

best_loop-Above :
    (path : Bytes) (rs : List Route) (start : Route)
    → route_path start path ≡ true
    → Above path start rs (best_loop path rs (some start))
unfolding best_loop
best_loop-Above path [] start m = (m, AsSpecific-refl start, tt)
best_loop-Above path (r ∷ rs) start m = elim (Bool-cases (route_path r path)) [
  | inr miss ↦ rw miss (
      Above-cons path start start r rs (best_loop path rs (some start)) (AsSpecific-refl start)
        (λ best above. inl miss) (best_loop-Above path rs start m))
  | inl hit ↦ elim (Bool-cases (improves (some start) r)) [
    | inl better ↦
        rw (hit, better)
          (Above-cons path start r r rs (best_loop path rs (some r))
            (improves-AsSpecific start r better) (λ best above. inr above)
            (best_loop-Above path rs r hit))
    | inr worse ↦
        rw (hit, worse)
          (Above-cons path start start r rs (best_loop path rs (some start)) (AsSpecific-refl start)
            (λ best above.
              inr (AsSpecific-trans best start r above (not_improves-AsSpecific start r worse)))
            (best_loop-Above path rs start m))
  ]
]

Owner-Above :
    (path : Bytes) (r : Route) (rs : List Route) (o : Option Route)
    → Above path r rs o
    → Owner path (r ∷ rs) o
Owner-Above path r rs none h = absurd h
Owner-Above path r rs (some best) (matched, above, rest) = (matched, (inr above, rest))

Owner-cons :
    (path : Bytes) (r : Route) (rs : List Route) (o : Option Route)
    → route_path r path ≡ false
    → Owner path rs o
    → Owner path (r ∷ rs) o
Owner-cons path r rs none miss h = (miss, h)
Owner-cons path r rs (some best) miss (matched, rest) = (matched, (inl miss, rest))

-- The loop finds the owner of a path: a route that matches and is as specific as every other that
-- does, an exact one before a prefix and a longer prefix before a shorter; or none, if none matches.
pub best_loop-Owner : (path : Bytes) (rs : List Route) → Owner path rs (best_loop path rs none)
unfolding best_loop improves
best_loop-Owner path [] = tt
best_loop-Owner path (r ∷ rs) = elim (Bool-cases (route_path r path)) [
  | inl hit ↦
      rw hit (Owner-Above path r rs (best_loop path rs (some r)) (best_loop-Above path rs r hit))
  | inr miss ↦
      rw miss (Owner-cons path r rs (best_loop path rs none) miss (best_loop-Owner path rs))
]
