-- ===== src/Stats/Validity.antt =====
-- The state that every call keeps.
use ankah.Prelude.{
  ℕ, ◌+◌, ◌-◌, ◌/◌, ◌≤◌, ◌<◌, ◌≡◌, refl, sym, ap, ◌∙◌, subst, inl, inr, Bool, true, false, not,
  ◌||◌, arith, ltb, leb, ◌==◌, if◌then◌else◌, Bool-cases, length-replicate,
}
use ankah.Prelude.Words.{add64}
use ankah.Stats.{
  empty, stat_count, stat_hours, stat_days, is_max, combine, Stats, empty_ring, stats_init,
  stats_disable, change_all, stats_add, stats_max, at_most, aged,
}
use ankah.Stats.Rings.{IsRing}
use ankah.Stats.Totals.{past}

-- The totals of the fields are those of the days, and the rings have the hours and days that passed.
pub record IsValid (stats : Stats) : Type 0 where
  pub hours_ring : IsRing stats.hours
  pub hours_size : stats.hours.capacity ≡ stat_hours
  pub days_ring : IsRing stats.days
  pub days_size : stats.days.capacity ≡ stat_days
  pub hours_begun : stats.epoch / 3600 ≤ stats.hour_index
  pub hours_passed : stats.hours.count ≡ at_most stat_hours (stats.hour_index - stats.epoch / 3600)
  pub days_begun : stats.epoch / 86400 ≤ stats.day_index
  pub days_passed : stats.days.count + stats.evicted_days ≡ stats.day_index - stats.epoch / 86400
  pub totals :
      (field : ℕ)
      → field < stat_count
      → stats.cumulative field ≡ combine (is_max field) (past stats field) (stats.day field)
  pub normal :
      (field : ℕ)
      → field < stat_count
      → combine (is_max field) (past stats field) 0 ≡ past stats field

combine_zeros : (m : Bool) → combine m 0 0 ≡ 0
unfolding combine
combine_zeros true = refl
combine_zeros false = refl

empty_ring-IsRing : (capacity : ℕ) → 0 < capacity → IsRing (empty_ring capacity)
empty_ring-IsRing capacity lt = record {
  room = lt;
  full_size = length-replicate capacity empty;
  placed = lt;
  counted = omega arith;
}

pub stats_init-IsValid : (wall : ℕ) → IsValid (stats_init wall)
unfolding stats_init aged
stats_init-IsValid wall = record {
  hours_ring = empty_ring-IsRing stat_hours (omega arith);
  hours_size = refl;
  days_ring = empty_ring-IsRing stat_days (omega arith);
  days_size = refl;
  hours_begun = omega arith;
  hours_passed = ground arith;
  days_begun = omega arith;
  days_passed = omega arith;
  totals = λ field lt. sym (combine_zeros (is_max field));
  normal = λ field lt. combine_zeros (is_max field);
}

abbrev Through : ℕ → (ℕ → ℕ) → Type 0
Through field f = (a b : ℕ) → f (combine (is_max field) a b) ≡ combine (is_max field) a (f b)

-- A change of one field that is the same everywhere, and goes through the total.
change_all-IsValid :
    (field : ℕ) (f : ℕ → ℕ) (stats : Stats)
    → IsValid stats
    → Through field f
    → IsValid (change_all field f stats)
change_all-IsValid field f stats v through = record {
  hours_ring = v.hours_ring;
  hours_size = v.hours_size;
  days_ring = v.days_ring;
  days_size = v.days_size;
  hours_begun = v.hours_begun;
  hours_passed = v.hours_passed;
  days_begun = v.days_begun;
  days_passed = v.days_passed;
  totals = λ i lt. elim (Bool-cases (i == field)) [
    | inl same ↦
        let at : field ≡ i = ground arith in
        rw same
          (ap f (v.totals i lt) ∙ subst (λ k. Through k f) at through (past stats i) (stats.day i))
    | inr other ↦ rw other (v.totals i lt)
  ];
  normal = v.normal;
}

add-Through : (field amount : ℕ) → is_max field ≡ false → Through field (λ v. add64 v amount)
unfolding combine
add-Through field amount sum a b = rw sum (omega arith)

max-Through :
    (field value : ℕ) → is_max field ≡ true → Through field (λ v. if ltb v value then value else v)
unfolding combine
max-Through field value max a b = rw max (ground arith)

pub stats_add-IsValid :
    (field amount : ℕ) (stats : Stats)
    → is_max field ≡ false
    → IsValid stats
    → IsValid (stats_add field amount stats)
unfolding stats_add
stats_add-IsValid field amount stats sum v =
    elim (Bool-cases (not stats.enabled || leb stat_count field)) [
      | inl ignored ↦ rw ignored v
      | inr counted ↦
          rw counted
            (change_all-IsValid field (λ v. add64 v amount) stats v (add-Through field amount sum))
    ]

pub stats_max-IsValid :
    (field value : ℕ) (stats : Stats)
    → is_max field ≡ true
    → IsValid stats
    → IsValid (stats_max field value stats)
unfolding stats_max
stats_max-IsValid field value stats max v =
    elim (Bool-cases (not stats.enabled || leb stat_count field)) [
      | inl ignored ↦ rw ignored v
      | inr counted ↦ rw counted (
          change_all-IsValid field (λ v. if ltb v value then value else v) stats v
            (max-Through field value max))
    ]

pub stats_disable-IsValid : (stats : Stats) → IsValid stats → IsValid (stats_disable stats)
unfolding stats_disable
stats_disable-IsValid stats v = record {
  hours_ring = v.hours_ring;
  hours_size = v.hours_size;
  days_ring = v.days_ring;
  days_size = v.days_size;
  hours_begun = v.hours_begun;
  hours_passed = v.hours_passed;
  days_begun = v.days_begun;
  days_passed = v.days_passed;
  totals = v.totals;
  normal = v.normal;
}
