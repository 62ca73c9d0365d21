-- ===== src/Stats/Rolling.antt =====
-- A roll keeps the state valid.
use ankah.Prelude.{
  ℕ, suc, ◌+◌, ◌-◌, ◌/◌, ◌≤◌, ◌<◌, ◌≡◌, sym, ap, ◌∙◌, inl, inr, not, arith, leb, Bool-cases,
}
use ankah.Stats.{
  stat_count, stat_hours, stat_days, is_max, combine, ring_push, Stats, push_day, push_days,
  at_most, roll_hours, roll_days, stats_roll,
}
use ankah.Stats.Rings.{ring_push-IsRing, ring_push-capacity}
use ankah.Stats.Totals.{
  combine-zero, past, push_day-Completed, push_days-Gap, ring_push-count, push_hours-IsRing,
}
use ankah.Stats.Validity.{IsValid}

hours_count :
    (count limit begun index hour : ℕ)
    → count ≡ at_most limit (index - begun)
    → begun ≤ index
    → index < hour
    → at_most limit (at_most limit (suc count) + at_most limit (hour - index - 1))
      ≡ at_most limit (hour - begun)
hours_count count limit begun index hour e le lt = ground arith

roll_hours-IsValid : (hour : ℕ) (stats : Stats) → IsValid stats → IsValid (roll_hours hour stats)
unfolding roll_hours
roll_hours-IsValid hour stats v = elim (Bool-cases (leb hour stats.hour_index)) [
  | inl early ↦ rw early v
  | inr later ↦
      let after : stats.hour_index < hour = ground arith in
      let first = (ring_push stats.hours stats.hour).0 in
      let size : first.capacity ≡ stat_hours =
        ring_push-capacity stats.hours stats.hour v.hours_ring ∙ v.hours_size in
      let count : first.count ≡ at_most stat_hours (suc stats.hours.count) =
        ring_push-count stats.hours stats.hour v.hours_ring
        ∙ ap (λ c. at_most c (suc stats.hours.count)) v.hours_size in
      let (is, size', count') =
        push_hours-IsRing (at_most stat_hours (hour - stats.hour_index - 1)) first
          (ring_push-IsRing stats.hours stats.hour v.hours_ring) in
      rw later (record {
        hours_ring = is;
        hours_size = size' ∙ size;
        days_ring = v.days_ring;
        days_size = v.days_size;
        hours_begun = omega (arith, v.hours_begun, after);
        hours_passed =
            count'
            ∙ rw (size, count)
                (hours_count stats.hours.count stat_hours (stats.epoch / 3600) stats.hour_index hour
                  v.hours_passed v.hours_begun after);
        days_begun = v.days_begun;
        days_passed = v.days_passed;
        totals = v.totals;
        normal = v.normal;
      })
]

days_count :
    (count' evicted' count evicted begun index day : ℕ)
    → count + evicted ≡ index - begun
    → begun ≤ index
    → index < day
    → count' + evicted' ≡ at_most stat_days (day - index - 1) + suc (count + evicted)
    → count' + (evicted' + (day - index - 1 - at_most stat_days (day - index - 1))) ≡ day - begun
days_count count' evicted' count evicted begun index day e le lt e' = ground arith

roll_days-IsValid : (day : ℕ) (stats : Stats) → IsValid stats → IsValid (roll_days day stats)
unfolding roll_days
roll_days-IsValid day stats v = elim (Bool-cases (leb day stats.day_index)) [
  | inl early ↦ rw early v
  | inr later ↦
      let after : stats.day_index < day = ground arith in
      let gap : ℕ = day - stats.day_index - 1 in
      let first = push_day-Completed stats.day stats v.days_ring in
      let empties = push_days-Gap (at_most stat_days gap) (push_day stats.day stats) first.ring in
      let pushed = push_days (at_most stat_days gap) (push_day stats.day stats) in
      let is_normal : (field : ℕ)
          → field < stat_count
          → combine (is_max field) (past (push_day stats.day stats) field) 0
            ≡ past (push_day stats.day stats) field =
        λ field lt.
          rw (first.total field lt)
            (combine-zero (is_max field) (past stats field) (stats.day field)) in
      let held : (field : ℕ)
          → field < stat_count
          → past pushed field ≡ past (push_day stats.day stats) field =
        λ field lt. empties.total field lt (is_normal field lt) in
      let epoch : pushed.epoch ≡ stats.epoch = empties.same_epoch ∙ first.same_epoch in
      let hours : pushed.hours ≡ stats.hours = empties.same_hours ∙ first.same_hours in
      let hour_index : pushed.hour_index ≡ stats.hour_index =
        empties.same_hour_index ∙ first.same_hour_index in
      rw later (record {
        hours_ring = rw hours v.hours_ring;
        hours_size = rw hours v.hours_size;
        days_ring = empties.ring;
        days_size = empties.size ∙ first.size ∙ v.days_size;
        hours_begun = rw (epoch, hour_index) v.hours_begun;
        hours_passed = rw (epoch, hours, hour_index) v.hours_passed;
        days_begun = rw epoch (omega (arith, v.days_begun, after));
        days_passed = rw epoch (
            days_count pushed.days.count pushed.evicted_days stats.days.count stats.evicted_days
              (stats.epoch / 86400) stats.day_index day v.days_passed v.days_begun after
              (empties.days ∙ omega (arith, first.days)));
        totals = λ field lt.
            ap (λ row. row field) (empties.same_cumulative ∙ first.same_cumulative)
            ∙ v.totals field lt
            ∙ sym (first.total field lt)
            ∙ sym (held field lt)
            ∙ sym (rw (held field lt) (is_normal field lt));
        normal = λ field lt. rw (held field lt) (is_normal field lt);
      })
]

pub stats_roll-IsValid :
    (wall : ℕ) (stats : Stats) → IsValid stats → IsValid (stats_roll wall stats)
unfolding stats_roll
stats_roll-IsValid wall stats v = elim (Bool-cases (not stats.enabled)) [
  | inl disabled ↦ rw disabled v
  | inr enabled ↦ rw enabled (
      roll_days-IsValid (wall / 86400) (roll_hours (wall / 3600) stats)
        (roll_hours-IsValid (wall / 3600) stats v))
]
