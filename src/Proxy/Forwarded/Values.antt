-- ===== src/Proxy/Forwarded/Values.antt =====
-- How the walk over a Forwarded value can end.
use ankah.Prelude.{
  ℕ, ◌≡◌, ◌≢◌, refl, inl, inr, Bool, true, false, not, ◌&&◌, List, [], ◌∷◌, ◌++◌, Option, none,
  some, arith, ◌==◌, Bool-cases, Bytes,
}
use ankah.Host.Authority.{last}
use ankah.Proxy.Address.{Ip, Inet}
use ankah.Proxy.Forwarded.{
  Walk, overrun, unfinished, element_walk, then_walk, next_quoted, next_escaped, forwarded_element,
  value_loop, parse_forwarded_value,
}
use ankah.Proxy.Forwarded.Elements.{forwarded_element-total}

-- The walk ends, and reads beyond the value only if that ends in a backslash.
abbrev Ends : ℕ → Bytes → Walk → Type 0
Ends before rest walk = (walk ≢ unfinished) × (walk ≡ overrun → last (before ∷ rest) ≡ b'\\')

last-cons : (s : Bytes) → last (0 ∷ s) ≡ b'\\' → last s ≡ b'\\'
last-cons [] e = absurd (omega (arith, e))
last-cons (c ∷ cs) e = e

element_walk-Ends :
    (r : Option (List Ip)) (before : ℕ) (rest : Bytes) → Ends before rest (element_walk (some r))
element_walk-Ends none before rest = ((λ e. cc), λ e. cc)
element_walk-Ends (some chain) before rest = ((λ e. cc), λ e. cc)

then_walk-Ends :
    (r : Option (List Ip)) (next : List Ip → Walk) (before : ℕ) (rest : Bytes)
    → ((chain : List Ip) → Ends before rest (next chain))
    → Ends before rest (then_walk (element_walk (some r)) next)
then_walk-Ends none next before rest h = ((λ e. cc), λ e. cc)
then_walk-Ends (some chain) next before rest h = h chain

module _ (net : Inet) where
  element-Ends :
      (chain : List Ip) (part : Bytes) (before : ℕ) (rest : Bytes)
      → Ends before rest (element_walk (forwarded_element net chain part))
  element-Ends chain part before rest =
      let (r, e) = forwarded_element-total net chain part in rw e (element_walk-Ends r before rest)

  value_loop-Ends :
      (chain : List Ip) (quoted escaped : Bool) (part : Bytes) (before : ℕ) (cs : Bytes)
      → (escaped ≡ true → before ≡ b'\\')
      → Ends before cs (value_loop net chain quoted escaped part cs)
  unfolding value_loop
  value_loop-Ends chain true true part before [] h = ((λ e. cc), λ e. h refl)
  value_loop-Ends chain true false part before [] h = ((λ e. cc), λ e. cc)
  value_loop-Ends chain false escaped part before [] h = element-Ends chain part before []
  value_loop-Ends chain quoted escaped part before (c ∷ cs) h =
      elim (Bool-cases (not quoted && c == b',')) [
        | inl comma ↦
            let (r, e) = forwarded_element-total net chain part in
            rw (comma, value_loop)
              (rw e (
                then_walk-Ends r (λ chain'. value_loop net chain' false false [] cs) before (c ∷ cs)
                  (λ chain'. value_loop-Ends chain' false false [] c cs (λ e. cc))))
        | inr other ↦
            rw (other, value_loop)
              (value_loop-Ends chain (next_quoted quoted escaped c) (next_escaped quoted escaped c)
                (part ++ c ∷ []) c cs (λ e. ground (arith, e)))
      ]

  -- The walk over a Forwarded value ends, and reads beyond the terminating NUL only if the value ends
  -- in a backslash.
  pub parse_forwarded_value-Ends :
      (chain : List Ip) (value : Bytes)
      → (parse_forwarded_value net chain value ≢ unfinished)
        × (parse_forwarded_value net chain value ≡ overrun → last value ≡ b'\\')
  unfolding parse_forwarded_value
  parse_forwarded_value-Ends chain value =
      let (ends, at) = value_loop-Ends chain false false [] 0 value (λ e. cc) in
      (ends, λ e. last-cons value (at e))
