-- ===== src/Slots/Keyed.antt =====
-- A table of slots as a map from addresses: a slot with an empty address is free.
use mathlib.Core.Path.{subst}
use mathlib.Core.Bool.{false≢true}
use mathlib.Core.Option
use mathlib.Core.Option.{some-injective}
use ankah.Prelude.{
  ℕ, zero, suc, ◌≡◌, refl, sym, ap, ◌∙◌, ◌≢◌, ◌⊎◌, inl, inr, true, false, List, [], ◌∷◌, Option,
  none, some, arith, if◌then◌else◌, Bool-cases, get_elem?, set, All, All-get_elem?, All-set, Bytes,
  str_eq, str_eq_iff, str_eq_refl, str_eq_ne,
}

module _ {ℓ} {A : Type ℓ} (key : A → Bytes) where
  -- The entry of an address.
  unfoldable pub lookup : List A → Bytes → Option A
  lookup [] k = none
  lookup (c ∷ cs) k = if str_eq (key c) k then some c else lookup cs k

  -- What holds of every entry and of a fresh one holds of the entry that is worked on.
  pub lookup_or_fresh {κ} :
      (P : A → Type κ) (t : List A) (k : Bytes) (fresh : A)
      → All P t
      → P fresh
      → P (Option.get_or (lookup t k) fresh)
  unfolding lookup
  lookup_or_fresh P [] k fresh h f = f
  lookup_or_fresh P (c ∷ cs) k fresh h f = elim (Bool-cases (str_eq (key c) k)) [
    | inl hit ↦ rw hit h.0
    | inr miss ↦ rw miss (lookup_or_fresh P cs k fresh h.1 f)
  ]

  pub key-lookup :
      (t : List A) (k : Bytes) (fresh : A)
      → key fresh ≡ k
      → key (Option.get_or (lookup t k) fresh) ≡ k
  unfolding lookup
  key-lookup [] k fresh f = f
  key-lookup (c ∷ cs) k fresh f = elim (Bool-cases (str_eq (key c) k)) [
    | inl hit ↦ rw hit ((str_eq_iff (key c) k).0 hit)
    | inr miss ↦ rw miss (key-lookup cs k fresh f)
  ]

  abbrev pub Absent : Bytes → List A → Type 0
  Absent k = All (λ c. str_eq (key c) k ≡ false)

  -- No two slots hold one address, save the free ones.
  abbrev pub Distinct : List A → Type 0
  Distinct [] = Unit {0}
  Distinct (c ∷ cs) = ((key c ≡ []) ⊎ Absent (key c) cs) × Distinct cs

  -- No slot but the i-th holds `k`.
  abbrev pub FreeBut : ℕ → Bytes → List A → Type 0
  FreeBut i k [] = Unit {0}
  FreeBut zero k (c ∷ cs) = Absent k cs
  FreeBut (suc i) k (c ∷ cs) = (str_eq (key c) k ≡ false) × FreeBut i k cs

  pub FreeBut-of_Absent : (i : ℕ) (k : Bytes) (t : List A) → Absent k t → FreeBut i k t
  FreeBut-of_Absent i k [] h = tt
  FreeBut-of_Absent zero k (c ∷ cs) h = h.1
  FreeBut-of_Absent (suc i) k (c ∷ cs) h = (h.0, FreeBut-of_Absent i k cs h.1)

  Absent-get_elem? :
      (k : Bytes) (t : List A) (i : ℕ) {a : A}
      → Absent k t
      → get_elem? t i ≡ some a
      → str_eq (key a) k ≡ false
  Absent-get_elem? k t i h e = All-get_elem? (λ c. str_eq (key c) k ≡ false) t i h e

  pub FreeBut-of_Distinct :
      (i : ℕ) (k : Bytes) (t : List A) {a : A}
      → k ≢ []
      → Distinct t
      → get_elem? t i ≡ some a
      → key a ≡ k
      → FreeBut i k t
  FreeBut-of_Distinct i k [] ne d e h = tt
  FreeBut-of_Distinct zero k (c ∷ cs) {a} ne d e h = elim d.0 [
    | inl free ↦ absurd (ne (sym h ∙ sym (ap key (some-injective c a e)) ∙ free))
    | inr gone ↦ subst (λ x. Absent x cs) (ap key (some-injective c a e) ∙ h) gone
  ]
  FreeBut-of_Distinct (suc i) k (c ∷ cs) {a} ne d e h = (
    elim d.0 [
      | inl free ↦ str_eq_ne (key c) k (λ p. ne (sym p ∙ free))
      | inr gone ↦
          str_eq_ne (key c) k
            λ p. false≢true (sym (Absent-get_elem? (key c) cs i gone e) ∙ rw (h, p) (str_eq_refl k))
    ],
    FreeBut-of_Distinct i k cs ne d.1 e h,
  )

  pub lookup_of_Absent : (k : Bytes) (t : List A) → Absent k t → lookup t k ≡ none
  unfolding lookup
  lookup_of_Absent k [] h = refl
  lookup_of_Absent k (c ∷ cs) h = ground (arith, lookup_of_Absent k cs h.1)

  lookup_of_Distinct :
      (c : A) (cs : List A) (k : Bytes)
      → k ≢ []
      → Distinct (c ∷ cs)
      → str_eq (key c) k ≡ true
      → lookup cs k ≡ none
  lookup_of_Distinct c cs k ne d h =
      let same = (str_eq_iff (key c) k).0 h in
      elim d.0 [
        | inl free ↦ absurd (ne (sym same ∙ free))
        | inr gone ↦ lookup_of_Absent k cs (subst (λ x. Absent x cs) same gone)
      ]

  -- In a table of distinct addresses the head's address stands at no later slot.
  head_ne :
      (c : A) (cs : List A) (i : ℕ) (k : Bytes) {a : A}
      → k ≢ []
      → Distinct (c ∷ cs)
      → get_elem? cs i ≡ some a
      → str_eq (key c) k ≡ true
      → str_eq (key a) k ≡ false
  head_ne c cs i k ne d e h =
      let same = (str_eq_iff (key c) k).0 h in
      elim d.0 [
        | inl free ↦ absurd (ne (sym same ∙ free))
        | inr gone ↦ Absent-get_elem? k cs i (subst (λ x. Absent x cs) same gone) e
      ]

  pub lookup_of_get_elem? :
      (t : List A) (i : ℕ) (k : Bytes) {a : A}
      → k ≢ []
      → Distinct t
      → get_elem? t i ≡ some a
      → key a ≡ k
      → lookup t k ≡ some a
  unfolding lookup
  lookup_of_get_elem? [] i k ne d e h = cc
  lookup_of_get_elem? (c ∷ cs) zero k {a} ne d e h =
      ground (arith, some-injective c a e, str_eq_iff (key c) k)
  lookup_of_get_elem? (c ∷ cs) (suc i) k {a} ne d e h =
      ground (
        arith,
        lookup_of_get_elem? cs i k ne d.1 e h,
        head_ne c cs i k ne d e,
        str_eq_iff (key a) k,
      )

  -- Writing `b` to slot `i`, which held `a`: no other slot holds the address of `b`.
  module _ (b : A) where
    pub lookup-set :
        (i : ℕ) (t : List A) (k : Bytes) {a : A}
        → k ≢ []
        → Distinct t
        → FreeBut i (key b) t
        → get_elem? t i ≡ some a
        → lookup (set t i b) k
          ≡ (if str_eq (key b) k then some b else if str_eq (key a) k then none else lookup t k)
    unfolding lookup
    lookup-set i [] k ne d f e = cc
    lookup-set zero (c ∷ cs) k {a} ne d f e = ground (
      arith,
      some-injective c a e,
      str_eq_iff (key a) k,
      str_eq_iff (key c) k,
      lookup_of_Distinct c cs k ne d,
    )
    lookup-set (suc i) (c ∷ cs) k {a} ne d f e = ground (
      arith,
      lookup-set i cs k ne d.1 f.1 e,
      head_ne c cs i k ne d e,
      str_eq_iff (key c) k,
      str_eq_iff (key b) k,
      str_eq_iff (key c) (key b),
    )

    pub Distinct-set :
        (i : ℕ) (t : List A) → Distinct t → FreeBut i (key b) t → Distinct (set t i b)
    Distinct-set i [] d f = tt
    Distinct-set zero (c ∷ cs) d f = (inr f, d.1)
    Distinct-set (suc i) (c ∷ cs) d f = (
      elim d.0 [
        | inl free ↦ inl free
        | inr gone ↦ inr (
            All-set (λ x. str_eq (key x) (key c) ≡ false) cs i b gone
              (str_eq_ne (key b) (key c)
                λ p. false≢true (sym f.0 ∙ rw (← p) (str_eq_refl (key b)))))
      ],
      Distinct-set i cs d.1 f.1,
    )
