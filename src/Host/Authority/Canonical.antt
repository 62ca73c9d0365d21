-- ===== src/Host/Authority/Canonical.antt =====
-- What a parsed authority looks like, and that it parses to itself.
use ankah.Prelude.{
  ℕ, ◌+◌, ◌-◌, ◌*◌, ◌≤◌, ◌<◌, ◌≡◌, refl, sym, ap, ◌∙◌, inl, inr, ◌⊎◌, true, false, not, ◌&&◌, ◌||◌,
  [], ◌∷◌, ◌++◌, arith, Option, none, some, some-injective, guard, guard_then, >>=-eq-some, leb,
  ◌==◌, length, length-append, All, All-append, Bytes, subst, Bool-cases, Option-cases, is_empty,
  is_digit,
}
use ankah.Host.Authority.{
  lower_case, last, is_label_byte, name_step, Scan, name_loop, port_loop, parse_port, is_bad_port,
  authority,
}

-- A byte of a name, in lower case.
abbrev pub IsNameByte : ℕ → Type 0
IsNameByte c = (is_label_byte c || c == b'.') ≡ true

step-name :
    (name : Bytes) (label c : ℕ) (name' : Bytes) (label' : ℕ)
    → name_step name label c ≡ some (name', label')
    → (name' ≡ name ++ c ∷ []) × IsNameByte c × (length name < 253) × (label' ≤ 63)
unfolding name_step
step-name name label c name' label' e = ground arith

lower_name_byte : (c : ℕ) → IsNameByte c → (lower_case c ≡ c) × ((c == b':') ≡ false)
lower_name_byte c h = ground arith

-- A name with nothing after it, once the step after it is made.
abbrev closed : Option (Bytes × ℕ) → Option Scan
closed none = none
closed (some (name, label)) = some (record { name = name; label = label; rest = [] })

plain_step :
    (name : Bytes) (label c : ℕ)
    → lower_case c ≡ c
    → (c == b':') ≡ false
    → name_loop (c ∷ []) name label ≡ closed (name_step name label c)
unfolding name_loop
plain_step name label c h k =
    rw (k, h)
      (elim (Option-cases (name_step name label c)) [
        | inl none_left ↦ rw none_left refl
        | inr (r, e) ↦ rw e refl
      ])

name_loop-nil :
    (name : Bytes) (label : ℕ)
    → name_loop [] name label ≡ some (record { name = name; label = label; rest = [] })
unfolding name_loop
name_loop-nil name label = refl

name_loop-snoc :
    (xs name : Bytes) (label c : ℕ) (name1 : Bytes) (label1 : ℕ)
    → lower_case c ≡ c
    → (c == b':') ≡ false
    → name_loop xs name label ≡ some (record { name = name1; label = label1; rest = [] })
    → name_loop (xs ++ c ∷ []) name label ≡ closed (name_step name1 label1 c)
unfolding name_loop
name_loop-snoc [] name label c name1 label1 h k = λ e.
    let same =
      some-injective (record { name = name; label = label; rest = [] })
        (record { name = name1; label = label1; rest = [] }) (sym (name_loop-nil name label) ∙ e) in
    plain_step name label c h k ∙ ap (λ s. closed (name_step s.name s.label c)) same
name_loop-snoc (x ∷ xs) name label c name1 label1 h k = elim (Bool-cases (x == b':')) [
  | inl colon ↦ λ e. ground (arith, colon, e)
  | inr other ↦ elim (Option-cases (name_step name label (lower_case x))) [
    | inl refused ↦ λ e. ground (arith, other, refused, e)
    | inr ((name', label'), e') ↦ rw (other, e') (name_loop-snoc xs name' label' c name1 label1 h k)
  ]
]

-- The state of the loop after `name`.
record Reads (name : Bytes) (label : ℕ) : Type 0 where
  again : name_loop name [] 0 ≡ some (record { name = name; label = label; rest = [] })
  bytes : All IsNameByte name
  short : length name ≤ 253
  within_label : label ≤ 63

step-Reads :
    (name : Bytes) (label c : ℕ) (name' : Bytes) (label' : ℕ)
    → Reads name label
    → name_step name label c ≡ some (name', label')
    → Reads name' label'
step-Reads name label c name' label' r e =
    let (longer, plain, room, small) = step-name name label c name' label' e in
    let (low, no_colon) = lower_name_byte c plain in
    record {
      again = rw longer (
          name_loop-snoc name [] 0 c name label low no_colon r.again
          ∙ ap closed e
          ∙ ap (λ n. some (record { name = n; label = label'; rest = [] })) longer);
      bytes = rw longer (All-append IsNameByte name (c ∷ []) r.bytes (plain, tt));
      short = rw longer (omega (arith, length-append name (c ∷ [])));
      within_label = small;
    }

loop-Reads :
    (text name : Bytes) (label : ℕ) (s : Scan)
    → Reads name label
    → name_loop text name label ≡ some s
    → Reads s.name s.label
unfolding name_loop
loop-Reads [] name label s r = λ e.
    let same = some-injective (record { name = name; label = label; rest = [] }) s e in
    subst (λ s. Reads s.name s.label) same r
loop-Reads (c ∷ cs) name label s r = elim (Bool-cases (c == b':')) [
  | inl colon ↦ rw colon (λ e.
      let same = some-injective (record { name = name; label = label; rest = c ∷ cs }) s e in
      subst (λ s. Reads s.name s.label) same r)
  | inr other ↦ elim (Option-cases (name_step name label (lower_case c))) [
    | inl refused ↦ rw (other, refused) (λ e. cc)
    | inr ((name', label'), e') ↦
        rw (other, e')
          (loop-Reads cs name' label' s (step-Reads name label (lower_case c) name' label' r e'))
  ]
]

port_loop-le : (v : ℕ) (ds : Bytes) (p : ℕ) → v ≤ 65535 → port_loop v ds ≡ some p → p ≤ 65535
unfolding port_loop
port_loop-le v [] p h = λ e. omega (arith, some-injective v p e)
port_loop-le v (d ∷ ds) p h = elim (Bool-cases (is_digit d && leb (v * 10 + (d - b'0')) 65535)) [
  | inl good ↦ rw (good, port_loop) (port_loop-le (v * 10 + (d - b'0')) ds p (ground arith))
  | inr bad ↦ rw (bad, port_loop) (λ e. cc)
]

parse_port-nil : (d : ℕ) → parse_port d [] ≡ some d
unfolding parse_port
parse_port-nil d = refl

parse_port-range :
    (d : ℕ) (rest : Bytes) (p : ℕ) → parse_port d rest ≡ some p → (p ≡ d) ⊎ ((1 ≤ p) × (p ≤ 65535))
unfolding parse_port
parse_port-range d [] p e = inl (sym (some-injective d p e))
parse_port-range d (c ∷ ds) p e =
    let (u, shape, e1) = >>=-eq-some (guard (not (is_bad_port ds))) _ e in
    let (v, read, e2) = >>=-eq-some (port_loop 0 ds) _ e1 in
    let (w, nonzero, e3) = >>=-eq-some (guard (not (v == 0))) _ e2 in
    let same = some-injective v p e3 in
    inr (ground (arith, same, nonzero), omega (arith, same, port_loop-le 0 ds v (omega arith) read))

empty-Reads : Reads [] 0
empty-Reads = record {
  again = name_loop-nil [] 0;
  bytes = tt;
  short = omega arith;
  within_label = omega arith;
}

-- A name and a port as `ankah_authority` gives them.
pub record Canonical (default_port : ℕ) (name : Bytes) (port : ℕ) : Type 0 where
  pub bytes : All IsNameByte name
  pub short : length name ≤ 253
  pub in_range : (port ≡ default_port) ⊎ ((1 ≤ port) × (port ≤ 65535))
  pub same_again : authority name port ≡ some (name, port)

nonempty-Reads :
    (name : Bytes) (label : ℕ) → Reads name label → (label == 0) ≡ false → is_empty name ≡ false
nonempty-Reads [] label r h =
    let same =
      ap (λ s. s.label)
        (some-injective (record { name = []; label = 0; rest = [] })
          (record { name = []; label = label; rest = [] }) (sym (name_loop-nil [] 0) ∙ r.again)) in
    ground (arith, same)
nonempty-Reads (c ∷ cs) label r h = refl

Canonical-of_Reads :
    (s : Scan) (d p : ℕ)
    → Reads s.name s.label
    → not (s.label == 0 || last s.name == b'-') ≡ true
    → parse_port d s.rest ≡ some p
    → Canonical d s.name p
unfolding authority
Canonical-of_Reads s d p r ended parsed = record {
  bytes = r.bytes;
  short = r.short;
  in_range = parse_port-range d s.rest p parsed;
  same_again =
      rw (nonempty-Reads s.name s.label r (ground arith))
        (rw r.again (rw ended (rw (parse_port-nil p) refl)));
}

-- What an authority parses to: a name of at most 253 lower-case letters, digits, dots and hyphens,
-- and a port that is the default or from 1 to 65535; and the name alone, with that port as the
-- default, parses to the same.
pub authority-Canonical :
    (text : Bytes) (default_port : ℕ) (name : Bytes) (port : ℕ)
    → authority text default_port ≡ some (name, port)
    → Canonical default_port name port
unfolding authority
authority-Canonical text default_port name port e =
    let (some_text, e1) = guard_then (not (is_empty text)) _ (name, port) e in
    let (s, scanned, e2) = >>=-eq-some (name_loop text [] 0) _ e1 in
    let (ended, e3) = guard_then (not (s.label == 0 || last s.name == b'-')) _ (name, port) e2 in
    let (p, parsed, e4) = >>=-eq-some (parse_port default_port s.rest) _ e3 in
    let r = loop-Reads text [] 0 s empty-Reads scanned in
    let same = some-injective (s.name, p) (name, port) e4 in
    subst (λ x. Canonical default_port x.0 x.1) same
      (Canonical-of_Reads s default_port p r ended parsed)
