-- ===== src/Language/Matching.antt =====
-- The longest tag of the table that a range begins with.
use ankah.Prelude.{
  ℕ, zero, suc, ◌-◌, ◌≤◌, ◌<◌, ◌≡◌, ◌≢◌, ◌⊎◌, refl, ap, ◌∙◌, inl, inr, Option, none, some, arith,
  ltb, ◌==◌, length, take, get_or, Bytes, Bool-cases, Option-cases,
}
use ankah.Language.{back, match_loop, match_range}

-- Where a subtag ends.
abbrev pub IsCut : Bytes → ℕ → Type 0
IsCut range m = (m ≡ length range) ⊎ (get_or range m 0 ≡ b'-')

back-le : (range : Bytes) (n : ℕ) → back range n ≤ n
unfolding back
back-le range zero = omega arith
back-le range (suc n) = ground (arith, back-le range n)

back-dash : (range : Bytes) (n : ℕ) → 0 < back range n → get_or range (back range n - 1) 0 ≡ b'-'
unfolding back
back-dash range zero = λ lt. absurd (omega (arith, lt))
back-dash range (suc n) = elim (Bool-cases (get_or range n 0 == b'-')) [
  | inl dash ↦ rw dash (λ lt. ground arith)
  | inr other ↦ rw other (back-dash range n)
]

-- No subtag ends between.
back-between : (range : Bytes) (n m : ℕ) → back range n ≤ m → m < n → get_or range m 0 ≢ b'-'
unfolding back
back-between range zero m = λ le lt. absurd (omega (arith, lt))
back-between range (suc n) m = elim (Bool-cases (get_or range n 0 == b'-')) [
  | inl dash ↦ rw dash (λ le lt. absurd (omega (arith, le, lt)))
  | inr other ↦ rw other (λ le lt. elim (Bool-cases (m == n)) [
    | inl last ↦
        let same : m ≡ n = ground arith in
        let here : get_or range m 0 ≡ get_or range n 0 = ap (λ i. get_or range i 0) same in
        ground arith
    | inr before ↦ back-between range n m le (ground arith)
  ])
]

module _ (lookup : Bytes → Option ℕ) where
  abbrev pub Misses : Bytes → ℕ → ℕ → Type 0
  Misses range low high =
      (m : ℕ) → low < m → m ≤ high → IsCut range m → lookup (take m range) ≡ none

  -- The longest beginning that ends with a subtag and is in the table, up to `current` bytes.
  abbrev pub Longest : Bytes → ℕ → Option ℕ → Type 0
  Longest range current none = Misses range 0 current
  Longest range current (some language) =
      (n : ℕ) × ((0 < n)
        × ((n ≤ current)
            × (IsCut range n × ((lookup (take n range) ≡ some language) × Misses range n current))))

  Misses-step :
      (range : Bytes) (low current : ℕ)
      → suc current ≤ length range
      → lookup (take (suc current) range) ≡ none
      → Misses range low (back range (suc current) - 1)
      → Misses range low (suc current)
  Misses-step range low current size here below m lt le cut = elim (Bool-cases (m == suc current)) [
    | inl last ↦
        let same : m ≡ suc current = ground arith in ap (λ i. lookup (take i range)) same ∙ here
    | inr before ↦
        let inside : m < suc current = ground arith in
        elim (Bool-cases (ltb m (back range (suc current)))) [
          | inl early ↦ below m lt (ground arith) cut
          | inr late ↦ elim cut [
            | inl end ↦ absurd (omega (arith, end, inside, size))
            | inr dash ↦ absurd (back-between range (suc current) m (ground arith) inside dash)
          ]
        ]
  ]

  Longest-step :
      (range : Bytes) (current : ℕ) (result : Option ℕ)
      → suc current ≤ length range
      → lookup (take (suc current) range) ≡ none
      → Longest range (back range (suc current) - 1) result
      → Longest range (suc current) result
  Longest-step range current none size here below = Misses-step range 0 current size here below
  Longest-step range current (some language) size here
        (n, (positive, (le, (cut, (found, misses))))) =
      (
        n,
        (
          positive,
          (
            omega (arith, le, back-le range (suc current)),
            (cut, (found, Misses-step range n current size here misses)),
          ),
        ),
      )

  match_loop-Longest :
      (fuel : ℕ) (range : Bytes) (current : ℕ)
      → current ≤ fuel
      → current ≤ length range
      → (0 < current → IsCut range current)
      → Longest range current (match_loop lookup fuel range current)
  unfolding match_loop
  match_loop-Longest fuel range zero le size cut = λ m lt le c. absurd (omega (arith, lt, le))
  match_loop-Longest zero range (suc current) le size cut = absurd (omega (arith, le))
  match_loop-Longest (suc fuel) range (suc current) le size cut =
      elim (Option-cases (lookup (take (suc current) range))) [
        | inl missing ↦
            rw (missing, match_loop, Longest)
              (Longest-step range current
                (match_loop lookup fuel range (back range (suc current) - 1)) size missing
                (match_loop-Longest fuel range (back range (suc current) - 1)
                  (omega (arith, le, back-le range (suc current)))
                  (omega (arith, size, back-le range (suc current)))
                  (λ lt. inr (back-dash range (suc current) (omega (arith, lt))))))
        | inr (language, found) ↦
            rw (found, match_loop, Longest)
              (
                suc current,
                (
                  omega arith,
                  (
                    omega arith,
                    (cut (omega arith), (found, λ m lt le c. absurd (omega (arith, lt, le)))),
                  ),
                ),
              )
      ]

  -- A range is matched to the language of the longest tag in the table that it is, or that it begins
  -- with up to a hyphen, and to none where there is no such tag; the search ends.
  pub match_range-Longest :
      (range : Bytes) → Longest range (length range) (match_range lookup range)
  unfolding match_range
  match_range-Longest range =
      match_loop-Longest (length range) range (length range) (omega arith) (omega arith)
        (λ lt. inl refl)
