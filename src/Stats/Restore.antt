-- ===== src/Stats/Restore.antt =====
-- A snapshot that is written passes the checks of and is read back.
use mathlib.Core.List.{append_assoc}
use ankah.Prelude.{
  ℕ, zero, suc, ◌+◌, ◌*◌, ◌≤◌, ◌<◌, ◌≡◌, refl, ap, ap₂, ◌∙◌, true, ◌&&◌, List, [], ◌∷◌, ◌++◌, arith,
  ◌==◌, length, length-append, take, drop, map, All, Bytes, str_eq, str_eq_refl,
}
use ankah.Stats.{Row, stat_count, stat_hours, stat_days, is_max, combine}
use ankah.Stats.Snapshot.{Saved, rows_total, field_total, fields_valid, totals_valid}
use ankah.Stats.Codec.{
  magic, put_words, read_words, header_sizes, put_record, put_records, header_values, snapshot_rows,
  snapshot_body, saved_rows, is_header,
}
use ankah.Stats.Stored.{
  FitWords, read_words-put_words, IsRow, stored_row, stored_row_lem, get_record-put_record,
  get_records-put_records, total_size, length-put_words, length-put_record, length-put_records,
}

unfoldable pub stored : Saved → Saved
stored saved = record saved {
  cumulative = stored_row saved.cumulative;
  hour = stored_row saved.hour;
  day = stored_row saved.day;
  evicted = stored_row saved.evicted;
  hour_rows = map stored_row saved.hour_rows;
  day_rows = map stored_row saved.day_rows;
}

-- The numbers are within the types of the fields that they are written to.
pub record Fits (generation wall : ℕ) (saved : Saved) : Type 0 where
  pub header : FitWords header_sizes (header_values generation wall saved)
  pub cumulative : IsRow saved.cumulative
  pub hour : IsRow saved.hour
  pub day : IsRow saved.day
  pub evicted : IsRow saved.evicted
  pub hour_rows : All IsRow saved.hour_rows
  pub day_rows : All IsRow saved.day_rows

length-map_stored : (rows : List Row) → length (map stored_row rows) ≡ length rows
length-map_stored [] = refl
length-map_stored (row ∷ rows) = ap suc (length-map_stored rows)

rows_total-stored :
    (field total : ℕ) (rows : List Row)
    → field < stat_count
    → rows_total field total (map stored_row rows) ≡ rows_total field total rows
rows_total-stored field total [] lt = refl
rows_total-stored field total (row ∷ rows) lt =
    ap (λ value. rows_total field (combine (is_max field) total value) (map stored_row rows))
      (stored_row_lem row field lt)
    ∙ rows_total-stored field (combine (is_max field) total (row field)) rows lt

field_total-stored :
    (field : ℕ) (saved : Saved)
    → field < stat_count
    → field_total field (stored saved) ≡ field_total field saved
unfolding field_total stored
field_total-stored field saved lt =
    rw (stored_row_lem saved.evicted field lt, stored_row_lem saved.day field lt)
      (rows_total-stored field (combine (is_max field) (saved.evicted field) (saved.day field))
        saved.day_rows lt)

cumulative-stored :
    (field : ℕ) (saved : Saved)
    → field < stat_count
    → (stored saved).cumulative field ≡ saved.cumulative field
unfolding stored
cumulative-stored field saved lt = stored_row_lem saved.cumulative field lt

fields_valid-stored :
    (n : ℕ) (saved : Saved) → n ≤ stat_count → fields_valid n (stored saved) ≡ fields_valid n saved
unfolding fields_valid
fields_valid-stored zero saved le = refl
fields_valid-stored (suc n) saved le =
    ap₂ ◌&&◌ (fields_valid-stored n saved (omega arith))
      (ap₂ ◌==◌ (field_total-stored n saved le) (cumulative-stored n saved le))

pub totals_valid-stored : (saved : Saved) → totals_valid (stored saved) ≡ totals_valid saved
unfolding totals_valid stored
totals_valid-stored saved =
    rw
      (
        length-map_stored saved.hour_rows,
        length-map_stored saved.day_rows,
        fields_valid-stored stat_count saved (omega arith),
      )
      refl

pub saved_rows-snapshot_rows :
    (generation wall : ℕ) (saved : Saved) (rest : Bytes)
    → Fits generation wall saved
    → saved_rows (header_values generation wall saved) (snapshot_rows saved ++ rest) ≡ stored saved
unfolding saved_rows snapshot_rows stored
saved_rows-snapshot_rows generation wall saved rest fits =
    let days : Bytes = put_records saved.day_rows in
    let hours : Bytes = put_records saved.hour_rows ++ days in
    let evicted : Bytes = put_record saved.evicted ++ hours in
    let day : Bytes = put_record saved.day ++ evicted in
    let hour : Bytes = put_record saved.hour ++ day in
    rw
      (
        append_assoc (put_record saved.cumulative) hour rest,
        get_record-put_record saved.cumulative (hour ++ rest) fits.cumulative,
        append_assoc (put_record saved.hour) day rest,
        get_record-put_record saved.hour (day ++ rest) fits.hour,
        append_assoc (put_record saved.day) evicted rest,
        get_record-put_record saved.day (evicted ++ rest) fits.day,
        append_assoc (put_record saved.evicted) hours rest,
        get_record-put_record saved.evicted (hours ++ rest) fits.evicted,
        append_assoc (put_records saved.hour_rows) days rest,
        get_records-put_records saved.hour_rows (days ++ rest) fits.hour_rows,
        get_records-put_records saved.day_rows rest fits.day_rows,
      )
      refl

length-snapshot_rows :
    (generation wall : ℕ) (saved : Saved)
    → Fits generation wall saved
    → length (snapshot_rows saved) ≡ 360 * (4 + length saved.hour_rows + length saved.day_rows)
unfolding snapshot_rows
length-snapshot_rows generation wall saved fits =
    let days : Bytes = put_records saved.day_rows in
    let hours : Bytes = put_records saved.hour_rows ++ days in
    let evicted : Bytes = put_record saved.evicted ++ hours in
    let day : Bytes = put_record saved.day ++ evicted in
    let hour : Bytes = put_record saved.hour ++ day in
    omega (
      arith,
      length-append (put_record saved.cumulative) hour,
      length-append (put_record saved.hour) day,
      length-append (put_record saved.day) evicted,
      length-append (put_record saved.evicted) hours,
      length-append (put_records saved.hour_rows) days,
      length-put_record saved.cumulative fits.cumulative,
      length-put_record saved.hour fits.hour,
      length-put_record saved.day fits.day,
      length-put_record saved.evicted fits.evicted,
      length-put_records saved.hour_rows fits.hour_rows,
      length-put_records saved.day_rows fits.day_rows,
    )

pub length-snapshot_body :
    (generation wall : ℕ) (saved : Saved)
    → Fits generation wall saved
    → length (snapshot_body generation wall saved)
      ≡ 80 + 360 * (4 + length saved.hour_rows + length saved.day_rows)
unfolding snapshot_body total_size
length-snapshot_body generation wall saved fits =
    let words : Bytes = put_words header_sizes (header_values generation wall saved) in
    omega (
      arith,
      length-append magic (words ++ snapshot_rows saved),
      length-append words (snapshot_rows saved),
      length-put_words header_sizes (header_values generation wall saved) fits.header,
      length-snapshot_rows generation wall saved fits,
    )

-- What the cursor reads behind the magic.
pub header-snapshot_body :
    (generation wall : ℕ) (saved : Saved) (rest : Bytes)
    → Fits generation wall saved
    → read_words header_sizes (drop 8 (snapshot_body generation wall saved ++ rest))
      ≡ (header_values generation wall saved, snapshot_rows saved ++ rest)
unfolding snapshot_body
header-snapshot_body generation wall saved rest fits =
    let words : Bytes = put_words header_sizes (header_values generation wall saved) in
    ap (read_words header_sizes) (append_assoc words (snapshot_rows saved) rest)
    ∙ read_words-put_words header_sizes (header_values generation wall saved)
        (snapshot_rows saved ++ rest) fits.header

pub magic-snapshot_body :
    (generation wall : ℕ) (saved : Saved) (rest : Bytes)
    → str_eq (take 8 (snapshot_body generation wall saved ++ rest)) magic ≡ true
unfolding snapshot_body
magic-snapshot_body generation wall saved rest = str_eq_refl magic

pub is_header-header_values :
    (generation wall : ℕ) (saved : Saved)
    → 0 < generation
    → length saved.hour_rows ≤ stat_hours
    → length saved.day_rows ≤ stat_days
    → is_header (header_values generation wall saved) ≡ true
is_header-header_values generation wall saved numbered hours days = ground arith
