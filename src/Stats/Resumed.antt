-- ===== src/Stats/Resumed.antt =====
-- The rings after a restore.
use mathlib.Core.Option
use native.Mathlib.Nat.{mod-eq_of_lt, mod_self}
use ankah.Prelude.{
  ap, ap₂, ℕ, zero, suc, ◌+◌, ◌-◌, ◌%◌, ◌≤◌, ◌<◌, ◌≡◌, refl, sym, ◌∙◌, inl, inr, false, List, [],
  ◌∷◌, ◌++◌, arith, leb, ◌==◌, length, drop, get_elem?, replicate, Bool-cases,
}
use ankah.Stats.{Row, empty, ring_age, aged, contents, stat_hours, stat_days}
use ankah.Stats.Rings.{place_lem}
use ankah.Stats.Snapshot.{Saved, saved_of}
use ankah.Stats.Files.{restored_ring, restored}

get_elem?-append {ℓ} :
    {A : Type ℓ} (xs ys : List A) (i : ℕ) → i < length xs → get_elem? (xs ++ ys) i ≡ get_elem? xs i
get_elem?-append [] ys i lt = absurd (omega (arith, lt))
get_elem?-append (x ∷ xs) ys zero lt = refl
get_elem?-append (x ∷ xs) ys (suc i) lt = get_elem?-append xs ys i (omega (arith, lt))

drop_all {ℓ} : {A : Type ℓ} (xs : List A) → drop (length xs) xs ≡ []
drop_all [] = refl
drop_all (x ∷ xs) = drop_all xs

drop_step :
    (rows : List Row) (i : ℕ)
    → i < length rows
    → Option.get_or (get_elem? rows i) empty ∷ drop (suc i) rows ≡ drop i rows
drop_step [] i lt = absurd (omega (arith, lt))
drop_step (row ∷ rows) zero lt = refl
drop_step (row ∷ rows) (suc i) lt = drop_step rows i (omega (arith, lt))

-- The place of an age in a ring that is full or has its rows from the front.
front_place :
    (count capacity age : ℕ)
    → count ≤ capacity
    → age < count
    → (count % capacity + capacity - 1 - age) % capacity ≡ count - 1 - age
front_place count capacity age le lt = elim (Bool-cases (count == capacity)) [
  | inl full ↦
      let same : count ≡ capacity = ground arith in
      let head : count % capacity ≡ 0 = ap (λ n. n % capacity) same ∙ mod_self capacity in
      rw head (mod-eq_of_lt (omega arith) ∙ omega arith)
  | inr room ↦
      let below : count < capacity = ground arith in
      let head : count % capacity ≡ count = mod-eq_of_lt below in
      rw head (place_lem count capacity age below (omega arith) ∙ ground arith)
]

module _ (capacity : ℕ) (rows : List Row) (le : length rows ≤ capacity) where
  restored_ring-age :
      (age : ℕ)
      → age < length rows
      → ring_age (restored_ring capacity rows) age ≡ get_elem? rows (length rows - 1 - age)
  unfolding ring_age
  restored_ring-age age lt =
      let kept : leb (length rows) age ≡ false = ground arith in
      rw (kept, front_place (length rows) capacity age le lt)
        (get_elem?-append rows (replicate (capacity - length rows) empty) (length rows - 1 - age)
          (omega arith))

  restored_ring-aged :
      (n : ℕ) → n ≤ length rows → aged (restored_ring capacity rows) n ≡ drop (length rows - n) rows
  unfolding aged
  restored_ring-aged zero h =
      let all : length rows - 0 ≡ length rows = omega arith in rw all (sym (drop_all rows))
  restored_ring-aged (suc n) h =
      let here : length rows - 1 - n ≡ length rows - suc n = omega arith in
      let next : suc (length rows - suc n) ≡ length rows - n = omega arith in
      ap₂ (λ row rest. Option.get_or row empty ∷ rest)
        (restored_ring-age n h ∙ ap (get_elem? rows) here)
        (restored_ring-aged n (omega arith) ∙ ap (λ m. drop m rows) (sym next))
      ∙ drop_step rows (length rows - suc n) (omega arith)

  pub restored_ring-contents : contents (restored_ring capacity rows) ≡ rows
  restored_ring-contents =
      let none_left : length rows - length rows ≡ 0 = omega arith in
      restored_ring-aged (length rows) (omega arith) ∙ ap (λ m. drop m rows) none_left

-- The counters that are resumed from a snapshot with no more rows than the rings hold are those of the
-- snapshot: saving them at once saves its times, its totals and its rows in their order.
pub saved_of-restored :
    (saved : Saved)
    → length saved.hour_rows ≤ stat_hours
    → length saved.day_rows ≤ stat_days
    → saved_of (restored saved) ≡ saved
unfolding saved_of restored
saved_of-restored saved hours days =
    ap₂ (λ hour_rows day_rows. record saved { hour_rows = hour_rows; day_rows = day_rows })
      (restored_ring-contents stat_hours saved.hour_rows hours)
      (restored_ring-contents stat_days saved.day_rows days)
