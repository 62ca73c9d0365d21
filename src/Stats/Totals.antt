-- ===== src/Stats/Totals.antt =====
-- The totals through the displacement of old days.
use ankah.Prelude.{
  ℕ, zero, suc, ◌+◌, ◌<◌, ◌≡◌, refl, sym, ap, ◌∙◌, inl, inr, Bool, true, false, List, [], ◌∷◌, ◌++◌,
  arith, ◌==◌, Bool-cases,
}
use ankah.Stats.{
  Row, empty, stat_count, is_max, combine, merge, Ring, ring_push, Stats, push_day, push_days,
  push_hours, at_most, contents,
}
use ankah.Stats.Snapshot.{rows_total}
use ankah.Stats.Rings.{
  IsRing, ring_push-IsRing, ring_push-capacity, contents-push_room, contents-push_full,
}

pub combine_assoc :
    (m : Bool) (a b c : ℕ) → combine m (combine m a b) c ≡ combine m a (combine m b c)
unfolding combine
combine_assoc true a b c = ground arith
combine_assoc false a b c = omega arith

pub combine_comm : (m : Bool) (a b : ℕ) → combine m a b ≡ combine m b a
unfolding combine
combine_comm true a b = ground arith
combine_comm false a b = omega arith

-- A combined value is a word, and stays as it is when combined with zero.
pub combine-zero : (m : Bool) (a b : ℕ) → combine m (combine m a b) 0 ≡ combine m a b
unfolding combine
combine-zero true a b = ground arith
combine-zero false a b = omega arith

combine_swap : (m : Bool) (a b c : ℕ) → combine m (combine m a b) c ≡ combine m (combine m a c) b
combine_swap m a b c =
    combine_assoc m a b c ∙ ap (combine m a) (combine_comm m b c) ∙ sym (combine_assoc m a c b)

pub rows_total-combine :
    (field a b : ℕ) (rows : List Row)
    → rows_total field (combine (is_max field) a b) rows
      ≡ combine (is_max field) (rows_total field a rows) b
rows_total-combine field a b [] = refl
rows_total-combine field a b (row ∷ rows) =
    ap (λ t. rows_total field t rows) (combine_swap (is_max field) a b (row field))
    ∙ rows_total-combine field (combine (is_max field) a (row field)) b rows

rows_total-append :
    (field a : ℕ) (rows : List Row) (row : Row)
    → rows_total field a (rows ++ row ∷ [])
      ≡ combine (is_max field) (rows_total field a rows) (row field)
rows_total-append field a [] row = refl
rows_total-append field a (r ∷ rows) row =
    rows_total-append field (combine (is_max field) a (r field)) rows row

-- What the completed days hold, those in the ring and those displaced from it.
abbrev pub past : Stats → ℕ → ℕ
past stats field = rows_total field (stats.evicted field) (contents stats.days)

merge-field :
    (into from : Row) (field : ℕ)
    → field < stat_count
    → merge into from field ≡ combine (is_max field) (into field) (from field)
unfolding merge
merge-field into from field lt = ground arith

-- What a completed day changes, and what it leaves.
pub record Completed (row : Row) (before after : Stats) : Type 0 where
  pub ring : IsRing after.days
  pub size : after.days.capacity ≡ before.days.capacity
  pub total :
      (field : ℕ)
      → field < stat_count
      → past after field ≡ combine (is_max field) (past before field) (row field)
  pub days : after.days.count + after.evicted_days ≡ suc (before.days.count + before.evicted_days)
  pub same_cumulative : after.cumulative ≡ before.cumulative
  pub same_hours : after.hours ≡ before.hours
  pub same_epoch : after.epoch ≡ before.epoch
  pub same_hour_index : after.hour_index ≡ before.hour_index

module _ (row : Row) (stats : Stats) (v : IsRing stats.days) where
  room_total :
      (rows : List Row)
      → rows ≡ contents stats.days ++ row ∷ []
      → (field : ℕ)
      → rows_total field (stats.evicted field) rows
        ≡ combine (is_max field) (past stats field) (row field)
  room_total rows e field =
      ap (rows_total field (stats.evicted field)) e
      ∙ rows_total-append field (stats.evicted field) (contents stats.days) row

  full_total :
      (old : Row) (rest rows : List Row)
      → contents stats.days ≡ old ∷ rest
      → rows ≡ rest ++ row ∷ []
      → (field : ℕ) → field < stat_count
      → rows_total field (merge stats.evicted old field) rows
        ≡ combine (is_max field) (past stats field) (row field)
  full_total old rest rows held e field lt =
      ap (rows_total field (merge stats.evicted old field)) e
      ∙ rows_total-append field (merge stats.evicted old field) rest row
      ∙ ap (λ t. combine (is_max field) (rows_total field t rest) (row field))
          (merge-field stats.evicted old field lt)
      ∙ ap (λ rs. combine (is_max field) (rows_total field (stats.evicted field) rs) (row field))
          (sym held)

  pub push_day-Completed : Completed row stats (push_day row stats)
  unfolding push_day
  push_day-Completed = elim (Bool-cases (stats.days.count == stats.days.capacity)) [
    | inl is_full ↦
        let (old, rest, held, holds, size, displaced) =
          contents-push_full stats.days row v (ground arith) in
        rw (displaced, push_day)
          (record {
            ring = ring_push-IsRing stats.days row v;
            size = ring_push-capacity stats.days row v;
            total = λ field lt.
                full_total old rest (contents (ring_push stats.days row).0) held holds field lt;
            days = omega (arith, size);
            same_cumulative = refl;
            same_hours = refl;
            same_epoch = refl;
            same_hour_index = refl;
          })
    | inr has_room ↦
        let (holds, size, nothing) =
          contents-push_room stats.days row v (ground (arith, v.counted)) in
        rw (nothing, push_day)
          (record {
            ring = ring_push-IsRing stats.days row v;
            size = ring_push-capacity stats.days row v;
            total = λ field lt. room_total (contents (ring_push stats.days row).0) holds field;
            days = omega (arith, size);
            same_cumulative = refl;
            same_hours = refl;
            same_epoch = refl;
            same_hour_index = refl;
          })
  ]

pub record Gap (n : ℕ) (before after : Stats) : Type 0 where
  pub ring : IsRing after.days
  pub size : after.days.capacity ≡ before.days.capacity
  pub total :
      (field : ℕ)
      → field < stat_count
      → combine (is_max field) (past before field) 0 ≡ past before field
      → past after field ≡ past before field
  pub days : after.days.count + after.evicted_days ≡ n + (before.days.count + before.evicted_days)
  pub same_cumulative : after.cumulative ≡ before.cumulative
  pub same_hours : after.hours ≡ before.hours
  pub same_epoch : after.epoch ≡ before.epoch
  pub same_hour_index : after.hour_index ≡ before.hour_index

pub push_days-Gap : (n : ℕ) (stats : Stats) → IsRing stats.days → Gap n stats (push_days n stats)
unfolding push_days
push_days-Gap zero stats v = record {
  ring = v;
  size = refl;
  total = λ field lt e. refl;
  days = omega arith;
  same_cumulative = refl;
  same_hours = refl;
  same_epoch = refl;
  same_hour_index = refl;
}
push_days-Gap (suc n) stats v =
    let one = push_day-Completed empty stats v in
    let more = push_days-Gap n (push_day empty stats) one.ring in
    record {
      ring = more.ring;
      size = more.size ∙ one.size;
      total = λ field lt e.
          let kept : past (push_day empty stats) field ≡ past stats field =
            one.total field lt ∙ e in
          more.total field lt (rw kept e) ∙ kept;
      days = omega (arith, more.days, one.days);
      same_cumulative = more.same_cumulative ∙ one.same_cumulative;
      same_hours = more.same_hours ∙ one.same_hours;
      same_epoch = more.same_epoch ∙ one.same_epoch;
      same_hour_index = more.same_hour_index ∙ one.same_hour_index;
    }

pub ring_push-count :
    (ring : Ring) (row : Row)
    → IsRing ring
    → (ring_push ring row).0.count ≡ at_most ring.capacity (suc ring.count)
ring_push-count ring row v = elim (Bool-cases (ring.count == ring.capacity)) [
  | inl is_full ↦ ground (arith, contents-push_full ring row v (ground arith))
  | inr has_room ↦
      ground (arith, contents-push_room ring row v (ground (arith, v.counted)), v.counted)
]

ring_push-count_gap :
    (ring : Ring) (n : ℕ)
    → IsRing ring
    → at_most ring.capacity ((ring_push ring empty).0.count + n)
      ≡ at_most ring.capacity (ring.count + suc n)
ring_push-count_gap ring n v = ground (arith, ring_push-count ring empty v)

pub push_hours-IsRing :
    (n : ℕ) (ring : Ring)
    → IsRing ring
    → IsRing (push_hours n ring)
      × ((push_hours n ring).capacity ≡ ring.capacity)
      × ((push_hours n ring).count ≡ at_most ring.capacity (ring.count + n))
unfolding push_hours
push_hours-IsRing zero ring v = (v, refl, ground (arith, v.counted))
push_hours-IsRing (suc n) ring v =
    let next = (ring_push ring empty).0 in
    let (is, size, count) = push_hours-IsRing n next (ring_push-IsRing ring empty v) in
    let capacity = ring_push-capacity ring empty v in
    (is, size ∙ capacity, count ∙ rw capacity (ring_push-count_gap ring n v))
