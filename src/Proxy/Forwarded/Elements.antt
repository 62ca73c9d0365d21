-- ===== src/Proxy/Forwarded/Elements.antt =====
-- The loop over the parameters of an element ends.
use ankah.Prelude.{
  ℕ, zero, suc, ◌≤◌, ◌<◌, ◌≡◌, inl, inr, Bool, false, List, [], ◌∷◌, Option, none, some,
  >>=-eq-some, arith, ◌==◌, if◌then◌else◌, Bool-cases, Option-cases, length, length-drop, drop,
  Bytes, is_empty,
}
use ankah.Proxy.Address.{Ip, Inet, trim_start, trim_end, starts}
use ankah.Proxy.Forwarded.{
  skip_separators, parameter_name, quoted_rest, until_semicolon, parameter_value, take_parameter,
  element_round, element_loop, forwarded_element,
}

length-trim_start : (s : Bytes) → length (trim_start s) ≤ length s
unfolding trim_start
length-trim_start [] = omega arith
length-trim_start (c ∷ cs) = ground (arith, length-trim_start cs)

length-skip_separators : (s : Bytes) → length (skip_separators s) ≤ length s
unfolding skip_separators
length-skip_separators [] = omega arith
length-skip_separators (c ∷ cs) = ground (arith, length-skip_separators cs)

length-until_semicolon : (s : Bytes) → length (until_semicolon s).1 ≤ length s
unfolding until_semicolon
length-until_semicolon [] = omega arith
length-until_semicolon (c ∷ cs) = ground (arith, length-until_semicolon cs)

length-parameter_name :
    (s : Bytes) (parts : Bytes × Bytes) → parameter_name s ≡ some parts → length parts.1 < length s
unfolding parameter_name
length-parameter_name [] parts = λ e. cc
length-parameter_name (c ∷ cs) parts = elim (Option-cases (parameter_name cs)) [
  | inl refused ↦ λ e. ground (arith, refused)
  | inr (ps, e') ↦ λ e. ground (arith, length-parameter_name cs ps e')
]

length-quoted_rest :
    (last : ℕ) (s : Bytes) (parts : Bytes × Bytes)
    → quoted_rest last s ≡ some parts
    → length parts.1 ≤ length s
unfolding quoted_rest
length-quoted_rest last [] parts = λ e. ground arith
length-quoted_rest last (c ∷ []) parts = λ e. ground arith
length-quoted_rest last (c ∷ d ∷ cs) parts = elim (Bool-cases (c == b'\\')) [
  | inl escape ↦ rw escape (λ e.
      let (ps, e', e'') = >>=-eq-some (quoted_rest d cs) _ e in
      ground (arith, length-quoted_rest d cs ps e', e''))
  | inr plain ↦ elim (Bool-cases (c == b'"')) [
    | inl quote ↦ rw (plain, quote) (λ e. ground (arith, e))
    | inr other ↦
        rw (plain, other)
          (λ e.
            let (ps, e', e'') = >>=-eq-some (quoted_rest c (d ∷ cs)) _ e in
            ground (arith, length-quoted_rest c (d ∷ cs) ps e', e''))
  ]
]

length-parameter_value :
    (s : Bytes) (parts : Bytes × Bytes) → parameter_value s ≡ some parts → length parts.1 ≤ length s
unfolding parameter_value
length-parameter_value s parts = elim (Bool-cases (starts b'"' s)) [
  | inl quote ↦ rw quote (λ e.
      let (ps, e', e'') = >>=-eq-some (quoted_rest b'"' (drop 1 s)) _ e in
      ground (arith, length-quoted_rest b'"' (drop 1 s) ps e', length-drop 1 s, e''))
  | inr plain ↦ rw plain (λ e. ground (arith, length-until_semicolon s, e))
]

module _ (net : Inet) where
  length-element_round :
      (chain : List Ip) (found : Bool) (s : Bytes) (taken : List Ip × Bool × Bytes)
      → element_round net chain found s ≡ some taken
      → length taken.2 < length s
  unfolding element_round
  length-element_round chain found s taken e =
      let (named, e1, e') = >>=-eq-some (parameter_name s) _ e in
      let (valued, e2, e'') = >>=-eq-some (parameter_value (trim_start named.1)) _ e' in
      let (pair, e3, e''') =
        >>=-eq-some (take_parameter net chain found (trim_end named.0) valued.0) _ e'' in
      ground (
        arith,
        e''',
        length-parameter_name s named e1,
        length-trim_start named.1,
        length-parameter_value (trim_start named.1) valued e2,
        length-trim_start valued.1,
      )

  element_loop-total :
      (fuel : ℕ) (chain : List Ip) (found : Bool) (s : Bytes)
      → length s < fuel
      → (r : Option (List Ip)) × (element_loop net fuel chain found s ≡ some r)
  unfolding element_loop
  element_loop-total zero chain found s lt = elim lt [ ]
  element_loop-total (suc fuel) chain found s lt =
      elim (Bool-cases (is_empty (skip_separators s))) [
        | inl end ↦ (if found then some chain else none, rw (end, element_loop))
        | inr more ↦ elim (Option-cases (element_round net chain found (skip_separators s))) [
          | inl refused ↦ (none, rw (more, refused, element_loop))
          | inr ((chain', found', rest), e) ↦
              let (r, done) = element_loop-total fuel chain' found' rest (
                omega (
                  arith,
                  length-element_round chain found (skip_separators s) (chain', found', rest) e,
                  length-skip_separators s,
                )) in
              (r, rw (more, element_loop) (rw e done))
        ]
      ]

  pub forwarded_element-total :
      (chain : List Ip) (text : Bytes)
      → (r : Option (List Ip)) × (forwarded_element net chain text ≡ some r)
  unfolding forwarded_element
  forwarded_element-total chain text =
      element_loop-total (suc (length text)) chain false text (omega arith)
