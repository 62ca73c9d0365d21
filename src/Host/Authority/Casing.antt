-- ===== src/Host/Authority/Casing.antt =====
-- Upper and lower case letters are the same in an authority.
use ankah.Prelude.{
  ℕ, ◌+◌, ◌-◌, ◌*◌, ◌≡◌, refl, sym, ap, ◌∙◌, inl, inr, not, ◌||◌, List, [], ◌∷◌, map, arith, Option,
  none, some, ◌>>=◌, ◌>>◌, guard, ◌==◌, Bytes, Bool-cases, Option-cases, is_empty,
}
use ankah.Host.Authority.{
  lower_case, last, name_step, Scan, name_loop, port_loop, parse_port, is_bad_port, authority,
  Served, host_find,
}

lower_case_idem : (c : ℕ) → lower_case (lower_case c) ≡ lower_case c
lower_case_idem c = ground arith

lower_case-colon : (c : ℕ) → (lower_case c == b':') ≡ (c == b':')
lower_case-colon c = ground arith

lower_case-zero : (c : ℕ) → (lower_case c == b'0') ≡ (c == b'0')
lower_case-zero c = ground arith

port_loop-map : (v : ℕ) (ds : Bytes) → port_loop v (map lower_case ds) ≡ port_loop v ds
unfolding port_loop
port_loop-map v [] = refl
port_loop-map v (d ∷ ds) = ground (arith, port_loop-map (v * 10 + (d - b'0')) ds)

is_bad_port-map : (ds : Bytes) → is_bad_port (map lower_case ds) ≡ is_bad_port ds
is_bad_port-map [] = refl
is_bad_port-map (d ∷ []) = ground arith
is_bad_port-map (d ∷ e ∷ ds) = ground arith

parse_port-map : (d : ℕ) (rest : Bytes) → parse_port d (map lower_case rest) ≡ parse_port d rest
unfolding parse_port
parse_port-map d [] = refl
parse_port-map d (c ∷ ds) = rw (is_bad_port-map ds, port_loop-map 0 ds) refl

-- The same scan, with what is left in lower case.
abbrev lowered : Option Scan → Option Scan
lowered none = none
lowered (some s) = some (record s { rest = map lower_case s.rest })

name_loop-map :
    (text name : Bytes) (label : ℕ)
    → name_loop (map lower_case text) name label ≡ lowered (name_loop text name label)
unfolding name_loop
name_loop-map [] name label = refl
name_loop-map (c ∷ cs) name label =
    rw (lower_case-colon c, lower_case_idem c)
      (elim (Bool-cases (c == b':')) [
        | inl colon ↦ rw colon refl
        | inr other ↦ elim (Option-cases (name_step name label (lower_case c))) [
          | inl refused ↦ rw (other, refused) refl
          | inr ((name', label'), e) ↦ rw (other, e) (name_loop-map cs name' label')
        ]
      ])

abbrev finish : ℕ → Option Scan → Option (Bytes × ℕ)
finish default_port r = do
  s ← r
  guard (not (s.label == 0 || last s.name == b'-'))
  port ← parse_port default_port s.rest
  some (s.name, port)

finish-lowered :
    (default_port : ℕ) (r : Option Scan) → finish default_port (lowered r) ≡ finish default_port r
finish-lowered default_port none = refl
finish-lowered default_port (some s) = rw (parse_port-map default_port s.rest) refl

is_empty-map : (text : Bytes) → is_empty (map lower_case text) ≡ is_empty text
is_empty-map [] = refl
is_empty-map (c ∷ cs) = refl

authority-map :
    (text : Bytes) (default_port : ℕ)
    → authority (map lower_case text) default_port ≡ authority text default_port
unfolding authority
authority-map text default_port =
    rw (is_empty-map text, name_loop-map text [] 0)
      (ap (λ r. guard (not (is_empty text)) >> r)
        (finish-lowered default_port (name_loop text [] 0)))

authority-eq :
    (a b : Bytes) (d : ℕ) → map lower_case a ≡ map lower_case b → authority a d ≡ authority b d
authority-eq a b d same = sym (authority-map a d) ∙ ap (λ t. authority t d) same ∙ authority-map b d

-- Two authorities that differ only in the case of their letters: they are both refused, or parse to
-- one name and port, and they find the same host.
authority-lower_case :
    (a b : Bytes) (default_port : ℕ) (hosts : List Served)
    → map lower_case a ≡ map lower_case b
    → (authority a default_port ≡ authority b default_port)
      × (host_find hosts a ≡ host_find hosts b)
unfolding host_find
authority-lower_case a b default_port hosts same =
    (authority-eq a b default_port same, rw (authority-eq a b 443 same, host_find) refl)
