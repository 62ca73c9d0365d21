-- ===== src/Stats/Snapshot.antt =====
-- src/stats.c: the check of the totals of a saved snapshot.
use ankah.Prelude.{
  ℕ, zero, suc, ◌-◌, ◌/◌, Bool, true, not, ◌&&◌, ◌||◌, List, [], ◌∷◌, ltb, ◌==◌, length,
}
use ankah.Stats.{Row, Stats, stat_count, stat_hours, is_max, combine, at_most, contents}

-- `decoded_snapshot`, less its generation: the rows are the oldest first.
pub record Saved : Type 0 where
  pub epoch : ℕ
  pub hour_index : ℕ
  pub day_index : ℕ
  pub evicted_days : ℕ
  pub cumulative : Row
  pub hour : Row
  pub day : Row
  pub evicted : Row
  pub hour_rows : List Row
  pub day_rows : List Row

-- The loop over the rows, for one field.
abbrev pub rows_total : ℕ → ℕ → List Row → ℕ
rows_total field total [] = total
rows_total field total (row ∷ rows) =
    rows_total field (combine (is_max field) total (row field)) rows

unfoldable pub field_total : ℕ → Saved → ℕ
field_total field saved =
    rows_total field (combine (is_max field) (saved.evicted field) (saved.day field)) saved.day_rows

-- The loop over the fields, which are numbered from the end.
unfoldable pub fields_valid : ℕ → Saved → Bool
fields_valid zero saved = true
fields_valid (suc n) saved = fields_valid n saved && field_total n saved == saved.cumulative n

unfoldable pub totals_valid : Saved → Bool
totals_valid saved =
    let elapsed = saved.day_index - saved.epoch / 86400 in
    not (ltb saved.hour_index (saved.epoch / 3600) || ltb saved.day_index (saved.epoch / 86400))
    && length saved.hour_rows == at_most stat_hours (saved.hour_index - saved.epoch / 3600)
    && not (
        ltb elapsed saved.evicted_days
        || not (length saved.day_rows == elapsed - saved.evicted_days))
    && fields_valid stat_count saved

-- What is written of the state.
unfoldable pub saved_of : Stats → Saved
saved_of stats = record {
  epoch = stats.epoch;
  hour_index = stats.hour_index;
  day_index = stats.day_index;
  evicted_days = stats.evicted_days;
  cumulative = stats.cumulative;
  hour = stats.hour;
  day = stats.day;
  evicted = stats.evicted;
  hour_rows = contents stats.hours;
  day_rows = contents stats.days;
}
