-- ===== src/Slots/Victim.antt =====
-- What the loop chooses.
use mathlib.Core.List.{append_assoc, append-nil}
use native.Mathlib.Nat.{le_trans}
use ankah.Prelude.{
  ℕ, suc, ◌≤◌, ◌<◌, ◌≡◌, refl, sym, ◌∙◌, inl, inr, Bool, true, false, List, [], ◌∷◌, ◌++◌, some,
  arith, get_elem?, length, length-append, All, All-append, Bool-cases,
}
use ankah.Slots.{Choice, found, evict, index, scan, choose}

-- `replaces c o` means that `c` goes before `o` in the order of ranks, and its failure that `o` does.
pub record Ranked {ℓ} {A : Type ℓ} (replaces : A → A → Bool) (rank : A → ℕ) : Type ℓ where
  pub wins : (c o : A) → replaces c o ≡ true → rank c ≤ rank o
  pub loses : (c o : A) → replaces c o ≡ false → rank o ≤ rank c

-- The slot holds a matching entry, or nothing matches and the slot has the least rank.
abbrev pub Chosen {ℓ} : {A : Type ℓ} → (A → Bool) → (A → ℕ) → List A → Choice → Type ℓ
Chosen {A} is_match rank t (found i) = (a : A) × (get_elem? t i ≡ some a) × (is_match a ≡ true)
Chosen {A} is_match rank t (evict i) =
    (a : A) × (get_elem? t i ≡ some a)
    × All (λ c. is_match c ≡ false) t
    × All (λ c. rank a ≤ rank c) t

get_elem?-append_middle {ℓ} :
    {A : Type ℓ} (xs ys : List A) (y : A) → get_elem? (xs ++ y ∷ ys) (length xs) ≡ some y
get_elem?-append_middle [] ys y = refl
get_elem?-append_middle (x ∷ xs) ys y = get_elem?-append_middle xs ys y

All-rank {ℓ} :
    {A : Type ℓ} (rank : A → ℕ) (m n : ℕ) (xs : List A)
    → m ≤ n
    → All (λ c. n ≤ rank c) xs
    → All (λ c. m ≤ rank c) xs
All-rank rank m n [] h p = tt
All-rank rank m n (x ∷ xs) h p = (le_trans h p.0, All-rank rank m n xs h p.1)

module _ {ℓ} {A : Type ℓ} (is_match : A → Bool) (replaces : A → A → Bool) (rank : A → ℕ)
    (ranked : Ranked replaces rank) where
  scan-Chosen :
      (t done rest : List A) (i at : ℕ) (o : A)
      → t ≡ done ++ rest
      → i ≡ length done
      → get_elem? t at ≡ some o
      → All (λ c. is_match c ≡ false) done
      → All (λ c. rank o ≤ rank c) done
      → Chosen is_match rank t (scan is_match replaces rest i at o)
  unfolding scan
  scan-Chosen t done [] i at o e n g miss least =
      let whole = e ∙ append-nil done in (o, g, rw whole miss, rw whole least)
  scan-Chosen t done (c ∷ cs) i at o e n g miss least = elim (Bool-cases (is_match c)) [
    | inl hit ↦ rw hit (c, rw (e, n) (get_elem?-append_middle done cs c), hit)
    | inr no_hit ↦ rw no_hit (elim (Bool-cases (replaces c o)) [
      | inl better ↦ rw better (
          scan-Chosen t (done ++ c ∷ []) cs (suc i) i c (e ∙ sym (append_assoc done (c ∷ []) cs))
            (omega (arith, length-append done (c ∷ [])))
            (rw (e, n) (get_elem?-append_middle done cs c))
            (All-append _ done (c ∷ []) miss (no_hit, tt))
            (All-append (λ x. rank c ≤ rank x) done (c ∷ [])
              (All-rank rank (rank c) (rank o) done (ranked.wins c o better) least)
              (omega arith, tt)))
      | inr worse ↦ rw worse (
          scan-Chosen t (done ++ c ∷ []) cs (suc i) at o (e ∙ sym (append_assoc done (c ∷ []) cs))
            (omega (arith, length-append done (c ∷ []))) g
            (All-append _ done (c ∷ []) miss (no_hit, tt))
            (All-append (λ x. rank o ≤ rank x) done (c ∷ []) least (ranked.loses c o worse, tt)))
    ])
  ]

  -- In a table that is not empty the loop ends at a slot as promised.
  pub choose-Chosen :
      (t : List A) → 0 < length t → Chosen is_match rank t (choose is_match replaces t)
  unfolding choose
  choose-Chosen [] h = absurd (omega arith)
  choose-Chosen (c ∷ cs) h = scan-Chosen (c ∷ cs) [] (c ∷ cs) 0 0 c refl refl refl tt tt

-- The slot lies in the table.
pub Chosen-slot {ℓ} :
    {A : Type ℓ} (is_match : A → Bool) (rank : A → ℕ) (t : List A) (c : Choice)
    → Chosen is_match rank t c
    → (a : A) × (get_elem? t (index c) ≡ some a)
Chosen-slot is_match rank t (found i) h = (h.0, h.1)
Chosen-slot is_match rank t (evict i) h = (h.0, h.1)
