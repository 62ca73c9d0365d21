-- ===== src/Stats/Examples.antt =====
-- Runs of the counters.
use ankah.Prelude.{
  ℕ, zero, suc, ◌/◌, ◌<◌, List, [], ◌∷◌, All-append, ◌≡◌, refl, sym, ap, true, ◌++◌, Option, some,
  some-injective, arith, ◌==◌, if◌then◌else◌, length, replicate, Bytes,
}
use ankah.Stats.Decoded.{AreBytes}
use ankah.Stats.Files.{resumed}
use ankah.Stats.{Stats, stat_count, Row, empty, is_max, stats_init, stats_add, stats_roll, aged}
use ankah.Stats.History.{Reach, Step, Reach-totals_valid}
use ankah.Stats.Snapshot.{Saved, saved_of, totals_valid}
use ankah.Stats.Codec.{
  row_sizes, row_values, magic, put_word, put_words, put_record, put_records, snapshot_rows,
  digest_size, header_sizes, header_values, snapshot_body, encode_snapshot, decode_snapshot,
}
use ankah.Stats.Stored.{FitWords, IsRow}
use ankah.Stats.Restore.{stored, Fits}
use ankah.Stats.RoundTrip.{decode_snapshot-encode_snapshot}

abbrev pub five : Stats
five = stats_add 0 5 (stats_init 7200)

pub five-Reach : Reach five
unfolding is_max
five-Reach = Reach.next (Reach.start 7200) (Step.add 0 5 (stats_init 7200) refl)

abbrev pub zero_digest : Bytes → Option Bytes
zero_digest text = some (replicate digest_size 0)

abbrev pub five_row : ℕ → ℕ
five_row field = if field == 0 then 5 else 0

five_row-IsRow : IsRow five_row
five_row-IsRow field = ground arith

empty-IsRow : IsRow empty
empty-IsRow field = omega arith

pub five-Fits : Fits 1 7300 (saved_of five)
unfolding stats_init stats_add saved_of aged
five-Fits =
    let fields : FitWords header_sizes (header_values 1 7300 (saved_of five)) = (
      omega arith,
      (
        omega arith,
        (
          omega arith,
          (
            omega arith,
            (
              omega arith,
              (
                omega arith,
                (
                  omega arith,
                  (omega arith, (omega arith, (omega arith, (omega arith, (omega arith, tt))))),
                ),
              ),
            ),
          ),
        ),
      ),
    ) in
    record {
      header = fields;
      cumulative = five_row-IsRow;
      hour = five_row-IsRow;
      day = five_row-IsRow;
      evicted = λ field. empty-IsRow field;
      hour_rows = tt;
      day_rows = tt;
    }

pub length-zero_digest :
    (text digest : Bytes) → zero_digest text ≡ some digest → length digest ≡ digest_size
length-zero_digest text digest e =
    sym (ap length (some-injective (replicate digest_size 0) digest e))

decode_snapshot-encode_snapshot_example :
    decode_snapshot zero_digest (snapshot_body 1 7300 (saved_of five) ++ replicate digest_size 0)
    ≡ some (1, stored (saved_of five))
unfolding encode_snapshot
decode_snapshot-encode_snapshot_example =
    decode_snapshot-encode_snapshot zero_digest length-zero_digest 1 7300
      (snapshot_body 1 7300 (saved_of five) ++ replicate digest_size 0) five-Reach (omega arith)
      five-Fits refl

put_word-AreBytes : (n value : ℕ) → AreBytes (put_word n value)
unfolding put_word
put_word-AreBytes zero value = tt
put_word-AreBytes (suc n) value = (omega arith, put_word-AreBytes n (value / 256))

put_words-AreBytes : (sizes values : List ℕ) → AreBytes (put_words sizes values)
unfolding put_words
put_words-AreBytes [] values = tt
put_words-AreBytes (n ∷ sizes) [] = tt
put_words-AreBytes (n ∷ sizes) (value ∷ values) =
    All-append (λ b. b < 256) _ _ (put_word-AreBytes n value) (put_words-AreBytes sizes values)

put_record-AreBytes : (row : Row) → AreBytes (put_record row)
put_record-AreBytes row = put_words-AreBytes (row_sizes stat_count) (row_values 0 stat_count row)

put_records-AreBytes : (rows : List Row) → AreBytes (put_records rows)
unfolding put_records
put_records-AreBytes [] = tt
put_records-AreBytes (row ∷ rows) =
    All-append (λ b. b < 256) (put_record row) (put_records rows) (put_record-AreBytes row)
      (put_records-AreBytes rows)

record_then-AreBytes :
    (row : Row) (rest : Bytes) → AreBytes rest → AreBytes (put_record row ++ rest)
record_then-AreBytes row rest h =
    All-append (λ b. b < 256) (put_record row) rest (put_record-AreBytes row) h

snapshot_rows-AreBytes : (saved : Saved) → AreBytes (snapshot_rows saved)
unfolding snapshot_rows
snapshot_rows-AreBytes saved = record_then-AreBytes saved.cumulative _ (
    record_then-AreBytes saved.hour _ (
      record_then-AreBytes saved.day _ (
        record_then-AreBytes saved.evicted _ (
          All-append (λ b. b < 256) (put_records saved.hour_rows) (put_records saved.day_rows)
            (put_records-AreBytes saved.hour_rows) (put_records-AreBytes saved.day_rows)))))

snapshot_body-AreBytes :
    (generation wall : ℕ) (saved : Saved) → AreBytes (snapshot_body generation wall saved)
unfolding snapshot_body
snapshot_body-AreBytes generation wall saved =
    let header = put_words header_sizes (header_values generation wall saved) in
    All-append (λ b. b < 256) magic (header ++ snapshot_rows saved) (omega arith)
      (All-append (λ b. b < 256) header (snapshot_rows saved)
        (put_words-AreBytes header_sizes (header_values generation wall saved))
        (snapshot_rows-AreBytes saved))

five_image-AreBytes : AreBytes (snapshot_body 1 7300 (saved_of five) ++ replicate digest_size 0)
five_image-AreBytes =
    All-append (λ b. b < 256) (snapshot_body 1 7300 (saved_of five)) (replicate digest_size 0)
      (snapshot_body-AreBytes 1 7300 (saved_of five)) (omega arith)

-- The next process starts with what was saved.
resumed_Reach : Reach (resumed 7400 (some (1, stored (saved_of five)))).0
unfolding encode_snapshot
resumed_Reach =
    Reach.resume zero_digest (snapshot_body 1 7300 (saved_of five) ++ replicate digest_size 0) 1
      (stored (saved_of five)) 7400 five_image-AreBytes
      (decode_snapshot-encode_snapshot zero_digest length-zero_digest 1 7300
        (snapshot_body 1 7300 (saved_of five) ++ replicate digest_size 0) five-Reach (omega arith)
        five-Fits refl)

Reach-totals_valid_example :
    totals_valid (saved_of (stats_roll 100000 (resumed 7400 (some (1, stored (saved_of five)))).0))
    ≡ true
Reach-totals_valid_example = Reach-totals_valid (
    Reach.next resumed_Reach (Step.roll 100000 (resumed 7400 (some (1, stored (saved_of five)))).0))
