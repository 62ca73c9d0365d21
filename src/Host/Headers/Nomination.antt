-- ===== src/Host/Headers/Nomination.antt =====
-- The search of a Connection header ends.
use ankah.Prelude.{
  ℕ, zero, suc, ◌≤◌, ◌<◌, ◌≡◌, refl, inl, inr, Bool, true, false, [], ◌∷◌, arith, some, ◌==◌,
  length, Bytes, Bool-cases,
}
use ankah.Host.Headers.{equal, skip_separators, from_comma, token_of, nominated_loop}

length-skip_separators : (v : Bytes) → length (skip_separators v) ≤ length v
unfolding skip_separators
length-skip_separators [] = omega arith
length-skip_separators (c ∷ cs) = ground (arith, length-skip_separators cs)

length-from_comma : (v : Bytes) → length (from_comma v) ≤ length v
unfolding from_comma
length-from_comma [] = omega arith
length-from_comma (c ∷ cs) = ground (arith, length-from_comma cs)

abbrev AtComma : Bytes → Type 0
AtComma [] = Unit {0}
AtComma (c ∷ cs) = (c == b',') ≡ true

from_comma-AtComma : (v : Bytes) → AtComma (from_comma v)
unfolding from_comma
from_comma-AtComma [] = tt
from_comma-AtComma (c ∷ cs) = elim (Bool-cases (c == b',')) [
  | inl comma ↦ rw comma comma
  | inr other ↦ rw other (from_comma-AtComma cs)
]

skip-comma :
    (c : ℕ) (cs : Bytes) → (c == b',') ≡ true → length (skip_separators (c ∷ cs)) ≤ length cs
unfolding skip_separators
skip-comma c cs h = ground (arith, h, length-skip_separators cs)

nominated_loop-AtComma :
    (fuel : ℕ) (value name : Bytes)
    → AtComma value
    → length value < fuel
    → (found : Bool) × (nominated_loop fuel value name ≡ some found)
unfolding nominated_loop
nominated_loop-AtComma zero value name h lt = elim lt [ ]
nominated_loop-AtComma (suc fuel) [] name h lt = (false, refl)
nominated_loop-AtComma (suc fuel) (c ∷ cs) name h lt =
    let at_token = skip_separators (c ∷ cs) in
    elim (Bool-cases (equal (token_of at_token) name)) [
      | inl same ↦ (true, rw same refl)
      | inr other ↦ rw other (
          nominated_loop-AtComma fuel (from_comma at_token) name (from_comma-AtComma at_token)
            (omega (arith, skip-comma c cs h, length-from_comma at_token)))
    ]

-- The search of a Connection header for a name ends within the fuel that is given.
pub nominated_loop-total :
    (value name : Bytes)
    → (found : Bool) × (nominated_loop (suc (suc (length value))) value name ≡ some found)
unfolding nominated_loop
nominated_loop-total [] name = (false, refl)
nominated_loop-total (c ∷ cs) name =
    let at_token = skip_separators (c ∷ cs) in
    elim (Bool-cases (equal (token_of at_token) name)) [
      | inl same ↦ (true, rw same refl)
      | inr other ↦ rw other (
          nominated_loop-AtComma (suc (length (c ∷ cs))) (from_comma at_token) name
            (from_comma-AtComma at_token)
            (omega (arith, length-skip_separators (c ∷ cs), length-from_comma at_token)))
    ]
