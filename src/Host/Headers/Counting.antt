-- ===== src/Host/Headers/Counting.antt =====
-- The sensitive headers are counted.
use ankah.Prelude.{
  ℕ, zero, suc, ◌+◌, ◌≤◌, ◌≡◌, refl, sym, ap, ◌∙◌, inl, inr, ◌⊎◌, Bool, true, false, ◌&&◌, List, [],
  ◌∷◌, arith, some, some-injective, ltb, ◌==◌, ==_iff, if◌then◌else◌, Bytes, codes, Bool-cases,
  Option-cases, subst, get_or, get_elem?, drop,
}
use ankah.Http.{Header}
use ankah.Host.Routes.{Host}
use ankah.Host.Headers.{
  equal, nominated, sensitive, sensitive_loop, field_status, pass, header_loop,
}

abbrev bit : Bool → ℕ
bit b = if b then 1 else 0

-- How many of the headers have the name.
abbrev pub count_named : Bytes → List Header → ℕ
count_named name [] = 0
count_named name (h ∷ hs) = bit (equal h.name name) + count_named name hs

-- One header adds to the count of its name, which was 0.
abbrev Counts : Header → Bytes → ℕ → ℕ → Type 0
Counts header name before after =
    (after ≡ before + bit (equal header.name name))
    × ((equal header.name name ≡ false) ⊎ (before ≡ 0))

get_or-drop : (seen : List ℕ) (k : ℕ) → get_or (drop 1 seen) k 0 ≡ get_or seen (suc k) 0
get_or-drop [] k = refl
get_or-drop (n ∷ ns) k = refl

first_time : (same : Bool) (n : ℕ) → (same && ltb 1 (n + 1)) ≡ false → (same ≡ false) ⊎ (n ≡ 0)
first_time true n h = inr (ground arith)
first_time false n h = inl refl

counted : (same : Bool) (n : ℕ) → (if same then n + 1 else n) ≡ n + bit same
counted true n = refl
counted false n = omega arith

module _ (header : Header) where
  -- A loop over the names that goes on.
  abbrev Through : Bytes → List Bytes → List ℕ → List ℕ → Type 0
  Through name names seen seen' =
      (rest : List ℕ) × (sensitive_loop header names (drop 1 seen) ≡ some rest)
      × (seen' ≡ (if equal header.name name then get_or seen 0 0 + 1 else get_or seen 0 0) ∷ rest)
      × ((equal header.name name ≡ false) ⊎ (get_or seen 0 0 ≡ 0))

  sensitive_loop-cons :
      (name : Bytes) (names : List Bytes) (seen seen' : List ℕ)
      → sensitive_loop header (name ∷ names) seen ≡ some seen'
      → Through name names seen seen'
  unfolding sensitive_loop
  sensitive_loop-cons name names seen seen' =
      elim (Bool-cases (equal header.name name && ltb 1 (get_or seen 0 0 + 1))) [
        | inl twice ↦ rw twice (λ e. cc)
        | inr once ↦
            elim (Bool-cases
              (equal header.name (codes "Connection") && nominated header.value name)) [
                | inl named ↦ rw (once, named) (λ e. cc)
                | inr plain ↦ elim (Option-cases (sensitive_loop header names (drop 1 seen))) [
                  | inl stopped ↦ rw (once, plain, stopped) (λ e. cc)
                  | inr (rest, went) ↦
                      rw (once, plain, went)
                        (λ e. (
                          rest,
                          refl,
                          sym (
                              some-injective
                                ((if equal header.name name
                                    then get_or seen 0 0 + 1
                                    else get_or seen 0 0)
                                  ∷ rest)
                                seen' e),
                          first_time (equal header.name name) (get_or seen 0 0) once,
                        ))
                ]
              ]
      ]

  sensitive_loop-Counts :
      (names : List Bytes) (seen seen' : List ℕ) (k : ℕ) (name : Bytes)
      → sensitive_loop header names seen ≡ some seen'
      → get_elem? names k ≡ some name
      → Counts header name (get_or seen k 0) (get_or seen' k 0)
  sensitive_loop-Counts [] seen seen' k name e at_k = cc
  sensitive_loop-Counts (n ∷ ns) seen seen' zero name e at_k =
      let (rest, went, same, fresh) = sensitive_loop-cons n ns seen seen' e in
      subst (λ n. Counts header n (get_or seen 0 0) (get_or seen' 0 0)) (some-injective n name at_k)
        (ap (λ l. get_or l 0 0) same ∙ counted (equal header.name n) (get_or seen 0 0), fresh)
  sensitive_loop-Counts (n ∷ ns) seen seen' (suc k) name e at_k =
      let (rest, went, same, fresh) = sensitive_loop-cons n ns seen seen' e in
      let (grows, fresh') = sensitive_loop-Counts ns (drop 1 seen) rest k name went at_k in
      (
        ap (λ l. get_or l (suc k) 0) same
            ∙ grows
            ∙ ap (λ n. n + bit (equal header.name name)) (get_or-drop seen k),
        elim fresh' [
          | inl other ↦ inl other
          | inr zero_before ↦ inr (sym (get_or-drop seen k) ∙ zero_before)
        ],
      )

-- A loop over the headers that goes on after the first.
pub header_loop-cons :
    (host : Host) (h2 : Bool) (h : Header) (hs : List Header) (seen seen' : List ℕ)
    → header_loop host h2 (h ∷ hs) seen ≡ pass seen'
    → (mid : List ℕ) × (sensitive_loop h sensitive seen ≡ some mid)
      × (field_status host h2 h ≡ 0)
      × (header_loop host h2 hs mid ≡ pass seen')
unfolding header_loop
header_loop-cons host h2 h hs seen seen' = elim (Option-cases (sensitive_loop h sensitive seen)) [
  | inl stopped ↦ rw stopped (λ e. cc)
  | inr (mid, went) ↦ elim (Bool-cases (field_status host h2 h == 0)) [
    | inl good ↦
        rw (went, header_loop)
          (rw good (λ e. (mid, refl, (==_iff (field_status host h2 h) 0).0 good, e)))
    | inr bad ↦ rw (went, header_loop) (rw bad (λ e. cc))
  ]
]

pass-injective : (a b : List ℕ) → pass a ≡ pass b → a ≡ b
pass-injective a b e = cc

Counts-le :
    (h : Header) (name : Bytes) (before after : ℕ)
    → Counts h name before after
    → before ≤ 1
    → after ≤ 1
Counts-le h name before after (grows, inl other) le = ground (arith, grows, other)
Counts-le h name before after (grows, inr fresh) le = ground (arith, grows, fresh)

-- The counts of a loop over headers that goes on.
pub header_loop-counts :
    (host : Host) (h2 : Bool) (headers : List Header) (seen seen' : List ℕ) (k : ℕ) (name : Bytes)
    → header_loop host h2 headers seen ≡ pass seen'
    → get_elem? sensitive k ≡ some name
    → get_or seen k 0 ≤ 1
    → (get_or seen' k 0 ≡ get_or seen k 0 + count_named name headers) × (get_or seen' k 0 ≤ 1)
header_loop-counts host h2 [] seen seen' k name e at_k le =
    subst (λ l. (get_or l k 0 ≡ get_or seen k 0 + 0) × (get_or l k 0 ≤ 1))
      (pass-injective seen seen' (unfold header_loop in e)) (omega arith, le)
header_loop-counts host h2 (h ∷ hs) seen seen' k name e at_k le =
    let (mid, went, good, e') = header_loop-cons host h2 h hs seen seen' e in
    let c = sensitive_loop-Counts h sensitive seen mid k name went at_k in
    let (grows, small) =
      header_loop-counts host h2 hs mid seen' k name e' at_k
        (Counts-le h name (get_or seen k 0) (get_or mid k 0) c le) in
    (omega (arith, c.0), small)
