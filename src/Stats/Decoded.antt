-- ===== src/Stats/Decoded.antt =====
-- The counters that are resumed from a snapshot that was decoded.
use mathlib.Core.Path.{subst}
use native.Mathlib.Nat.{pow-suc, mod-lt}
use ankah.Prelude.{
  ℕ, zero, suc, ◌+◌, ◌-◌, ◌/◌, ◌^◌, ◌≤◌, ◌<◌, ◌≡◌, refl, sym, ap, ◌∙◌, inl, inr, Bool, true, false,
  not, ◌&&◌, ◌||◌, List, [], ◌∷◌, Option, none, some, ◌>>=◌, arith, ltb, ◌==◌, if◌then◌else◌,
  length, length-append, length-replicate, take, drop, get_or, replicate, All, Bytes, str_eq,
  Bool-cases,
}
use ankah.Stats.{Row, empty, stat_count, stat_hours, stat_days, is_max, combine, at_most}
use ankah.Stats.Rings.{IsRing}
use ankah.Stats.Totals.{past, rows_total-combine, combine-zero}
use ankah.Stats.Validity.{IsValid}
use ankah.Stats.Snapshot.{Saved, rows_total, field_total, fields_valid, totals_valid}
use ankah.Stats.Codec.{
  digest_size, header_size, magic, get_word, read_words, row_sizes, row_of, get_record, get_records,
  header_sizes, is_header, expected_size, saved_rows, decode_snapshot,
}
use ankah.Stats.Files.{restored_ring, restored}
use ankah.Stats.Resumed.{restored_ring-contents}
use ankah.Stats.Stored.{IsRow}

abbrev pub AreBytes : Bytes → Type 0
AreBytes = All (λ b. b < 256)

drop-AreBytes : (n : ℕ) (bs : Bytes) → AreBytes bs → AreBytes (drop n bs)
drop-AreBytes zero bs h = h
drop-AreBytes (suc n) [] h = tt
drop-AreBytes (suc n) (b ∷ bs) h = drop-AreBytes n bs h.1

get_word-lt : (n : ℕ) (cursor : Bytes) → AreBytes cursor → get_word n cursor < 256 ^ n
unfolding get_word
get_word-lt zero cursor h = omega arith
get_word-lt (suc n) [] h = omega (arith, get_word-lt n [] tt, pow-suc 256 n)
get_word-lt (suc n) (c ∷ cursor) h = omega (arith, h.0, get_word-lt n cursor h.1, pow-suc 256 n)

read_words-row :
    (n : ℕ) (cursor : Bytes)
    → AreBytes cursor
    → All (λ v. v < 2 ^ 64) (read_words (row_sizes n) cursor).0
      × AreBytes (read_words (row_sizes n) cursor).1
unfolding read_words
read_words-row zero cursor h = (tt, h)
read_words-row (suc n) cursor h =
    let (values, rest) = read_words-row n (drop 8 cursor) (drop-AreBytes 8 cursor h) in
    ((get_word-lt 8 cursor h, values), rest)

row_of-IsRow : (values : List ℕ) → All (λ v. v < 2 ^ 64) values → IsRow (row_of values)
row_of-IsRow [] h field = omega arith
row_of-IsRow (v ∷ values) h zero = h.0
row_of-IsRow (v ∷ values) h (suc field) = row_of-IsRow values h.1 field

get_record-IsRow :
    (n : ℕ) (cursor : Bytes)
    → AreBytes cursor
    → IsRow (get_record n cursor).0 × AreBytes (get_record n cursor).1
unfolding get_record
get_record-IsRow n cursor h =
    let (values, rest) = read_words-row n cursor h in (row_of-IsRow _ values, rest)

length-get_records : (n count : ℕ) (cursor : Bytes) → length (get_records n count cursor).0 ≡ count
unfolding get_records
length-get_records n zero cursor = refl
length-get_records n (suc count) cursor =
    ap suc (length-get_records n count (get_record n cursor).1)

saved_rows-evicted :
    (header : List ℕ) (cursor : Bytes) → AreBytes cursor → IsRow (saved_rows header cursor).evicted
unfolding saved_rows
saved_rows-evicted header cursor h =
    let n = get_or header 1 0 in
    let first = get_record-IsRow n cursor h in
    let second = get_record-IsRow n _ first.1 in
    let third = get_record-IsRow n _ second.1 in (get_record-IsRow n _ third.1).0

saved_rows-days :
    (header : List ℕ) (cursor : Bytes)
    → length (saved_rows header cursor).day_rows ≡ get_or header 11 0
unfolding saved_rows
saved_rows-days header cursor = length-get_records (get_or header 1 0) (get_or header 11 0) _

fields_valid-total :
    (n : ℕ) (saved : Saved) (field : ℕ)
    → fields_valid n saved ≡ true
    → field < n
    → field_total field saved ≡ saved.cumulative field
unfolding fields_valid
fields_valid-total zero saved field valid lt = absurd (omega (arith, lt))
fields_valid-total (suc n) saved field valid lt = elim (Bool-cases (field == n)) [
  | inl last ↦ let same : field ≡ n = ground arith in rw same (ground (arith, valid))
  | inr earlier ↦ fields_valid-total n saved field (ground (arith, valid)) (ground arith)
]

combine-rows_total :
    (field a : ℕ) (rows : List Row)
    → combine (is_max field) a 0 ≡ a
    → combine (is_max field) (rows_total field a rows) 0 ≡ rows_total field a rows
combine-rows_total field a [] h = h
combine-rows_total field a (row ∷ rows) h =
    combine-rows_total field (combine (is_max field) a (row field)) rows
      (combine-zero (is_max field) a (row field))

combine-word : (m : Bool) (a : ℕ) → a < 2 ^ 64 → combine m a 0 ≡ a
unfolding combine
combine-word true a lt = ground arith
combine-word false a lt = omega (arith, lt)

restored_ring-IsRing :
    (capacity : ℕ) (rows : List Row)
    → 0 < capacity
    → length rows ≤ capacity
    → IsRing (restored_ring capacity rows)
restored_ring-IsRing capacity rows some_room le = record {
  room = some_room;
  full_size = omega (
    arith,
    length-append rows (replicate (capacity - length rows) empty),
    length-replicate (capacity - length rows) empty,
    le,
  );
  placed = mod-lt _ some_room;
  counted = le;
}

-- What a snapshot passes before it is restored.
decoded_checks :
    (short unknown valid : Bool) (hashed : Option Bytes) (tail : Bytes)
    (snapshot decoded : ℕ × Saved)
    → (if short
        then none
        else if not unknown
        then none
        else (hashed >>= λ digest. if str_eq digest tail && valid then some snapshot else none))
      ≡ some decoded
    → (unknown ≡ true) × ((valid ≡ true) × (snapshot ≡ decoded))
decoded_checks true known valid hashed tail snapshot decoded e = cc
decoded_checks false false valid hashed tail snapshot decoded e = cc
decoded_checks false true valid none tail snapshot decoded e = cc
decoded_checks false true valid (some digest) tail snapshot decoded e = ground (arith, e)

module _ (saved : Saved) (valid : totals_valid saved ≡ true)
    (days_room : length saved.day_rows ≤ stat_days) (word : IsRow saved.evicted) where
  totals_valid-rows :
      (saved.epoch / 3600 ≤ saved.hour_index)
      × ((length saved.hour_rows ≡ at_most stat_hours (saved.hour_index - saved.epoch / 3600))
          × ((saved.epoch / 86400 ≤ saved.day_index)
              × ((length saved.day_rows + saved.evicted_days
                    ≡ saved.day_index - saved.epoch / 86400)
                  × (fields_valid stat_count saved ≡ true))))
  unfolding totals_valid
  totals_valid-rows = (
    ground (arith, valid),
    (
      ground (arith, valid),
      (ground (arith, valid), (ground (arith, valid), ground (arith, valid))),
    ),
  )

  past-restored :
      (field : ℕ)
      → past (restored saved) field ≡ rows_total field (saved.evicted field) saved.day_rows
  unfolding restored
  past-restored field =
      ap (rows_total field (saved.evicted field))
        (restored_ring-contents stat_days saved.day_rows days_room)

  past-total :
      (field : ℕ)
      → field_total field saved ≡ saved.cumulative field
      → combine (is_max field) (past (restored saved) field) (saved.day field)
        ≡ saved.cumulative field
  unfolding field_total
  past-total field e =
      ap (λ t. combine (is_max field) t (saved.day field)) (past-restored field)
      ∙ sym (rows_total-combine field (saved.evicted field) (saved.day field) saved.day_rows)
      ∙ e

  restored-IsValid : IsValid (restored saved)
  unfolding restored
  restored-IsValid =
      let (hours_begun, (hours_passed, (days_begun, (days_passed, fields)))) = totals_valid-rows in
      record {
        hours_ring =
            restored_ring-IsRing stat_hours saved.hour_rows (omega arith)
              (ground (arith, hours_passed));
        hours_size = refl;
        days_ring = restored_ring-IsRing stat_days saved.day_rows (omega arith) days_room;
        days_size = refl;
        hours_begun = hours_begun;
        hours_passed = hours_passed;
        days_begun = days_begun;
        days_passed = days_passed;
        totals = λ field lt.
            sym (past-total field (fields_valid-total stat_count saved field fields lt));
        normal = λ field lt. rw (past-restored field) (
            combine-rows_total field (saved.evicted field) saved.day_rows
              (combine-word (is_max field) (saved.evicted field) (word field)));
      }

read_words-AreBytes :
    (sizes : List ℕ) (cursor : Bytes) → AreBytes cursor → AreBytes (read_words sizes cursor).1
unfolding read_words
read_words-AreBytes [] cursor h = h
read_words-AreBytes (n ∷ sizes) cursor h =
    read_words-AreBytes sizes (drop n cursor) (drop-AreBytes n cursor h)

header_days :
    (header : List ℕ) (size : ℕ)
    → (is_header header && size == expected_size header) ≡ true
    → get_or header 11 0 ≤ stat_days
header_days header size known = ground (arith, known)

pub decode_snapshot-IsValid :
    (sha256 : Bytes → Option Bytes) (image : Bytes) (generation : ℕ) (saved : Saved)
    → AreBytes image
    → decode_snapshot sha256 image ≡ some (generation, saved)
    → IsValid (restored saved)
unfolding decode_snapshot
decode_snapshot-IsValid sha256 image generation saved bytes e =
    let header = (read_words header_sizes (drop 8 image)).0 in
    let rows = (read_words header_sizes (drop 8 image)).1 in
    let size = length image - digest_size in
    let (known, (valid, same)) =
      decoded_checks
        (ltb (length image) (header_size + digest_size) || not (str_eq (take 8 image) magic))
        (is_header header && length image == expected_size header)
        (totals_valid (saved_rows header rows)) (sha256 (take size image)) (drop size image)
        (get_or header 4 0, saved_rows header rows) (generation, saved) e in
    let is : saved_rows header rows ≡ saved = ap (λ p. p.1) same in
    subst (λ s. IsValid (restored s)) is
      (restored-IsValid (saved_rows header rows) valid
        (omega (arith, saved_rows-days header rows, header_days header (length image) known))
        (saved_rows-evicted header rows
          (read_words-AreBytes header_sizes (drop 8 image) (drop-AreBytes 8 image bytes))))
