-- ===== src/Stats/Disks.antt =====
-- A disk whose calls do not fail, and a save to it.
use ankah.Prelude.{
  ap, ℕ, ◌≡◌, ◌⊎◌, refl, sym, ◌∙◌, true, false, [], ◌∷◌, ◌++◌, Option, none, some, arith, ltb,
  if◌then◌else◌, length, replicate, Bytes, codes, str_eq, str_eq_refl, str_eq_ne,
}
use ankah.Stats.{empty, stats_init, stats_add}
use ankah.Stats.Snapshot.{Saved, saved_of}
use ankah.Stats.Codec.{digest_size, encode_snapshot, snapshot_body}
use ankah.Stats.Restore.{stored}
use ankah.Stats.Files.{
  ReadResult, Disk, IsDisk, snapshot_path, resumed, restored, stats_restore, stats_save,
  replace_with, read_slot, read_candidate, decoded_slot,
}
use ankah.Stats.Latest.{Among}
use ankah.Stats.Saves.{Saves, stats_restore-Saves}
use ankah.Stats.Resumed.{saved_of-restored}
use ankah.Stats.Examples.{five, five_row, five-Reach, five-Fits, zero_digest, length-zero_digest}

abbrev Memory : Type 0
Memory = Bytes → Option Bytes

abbrev result_of : Option Bytes → ℕ → ReadResult
result_of none maximum = ReadResult.missing
result_of (some image) maximum =
    if ltb maximum (length image) then ReadResult.failed else ReadResult.found image

abbrev put : Memory → Bytes → Bytes → Memory
put files target image path = if str_eq path target then some image else files path

abbrev memory : Disk Memory
memory = record {
  read_optional = λ files path maximum. result_of (files path) maximum;
  replace = λ files temp target image. (true, put files target image);
}

memory-IsDisk : IsDisk memory
memory-IsDisk = record {
  written = λ files after temp target image maximum e le.
      let shorter : ltb maximum (length image) ≡ false = ground arith in
      ap (λ all. result_of (all target) maximum) (sym (ap (λ r. r.1) e))
      ∙ rw (str_eq_refl target, shorter) refl;
  unfinished = λ files after temp target image maximum e le.
      let impossible : true ≡ false = ap (λ r. r.0) e in absurd (ground arith);
  others = λ files after ok temp target image path maximum e a b.
      ap (λ all. result_of (all path) maximum) (sym (ap (λ r. r.1) e))
      ∙ rw (str_eq_ne path target b) refl;
}

abbrev no_files : Memory
no_files path = none

abbrev image : Bytes
image = snapshot_body 1 7300 (saved_of five) ++ replicate digest_size 0

abbrev files : Memory
files = put no_files (codes "stats.1") image

one_save :
    Saves zero_digest length-zero_digest memory memory-IsDisk
      (codes "stats")
      files
      1
      (some (1, stored (saved_of five)))
      []
unfolding snapshot_path read_slot read_candidate decoded_slot stats_init stats_add stats_save
    replace_with encode_snapshot
one_save = Saves.done 7300 five (Saves.fresh no_files refl refl) five-Reach five-Fits refl

stats_restore-Saves_example :
    let state = (stats_restore zero_digest memory files (codes "stats") 8000).1 in
    (state ≡ resumed 8000 (some (1, stored (saved_of five))))
    ⊎ ((saved : Saved) × (Among saved [] × (state ≡ resumed 8000 (some (2, saved)))))
stats_restore-Saves_example =
    stats_restore-Saves zero_digest length-zero_digest memory memory-IsDisk (codes "stats") 8000
      one_save

abbrev two_hours : Saved
two_hours = record {
  epoch = 3600;
  hour_index = 3;
  day_index = 0;
  evicted_days = 0;
  cumulative = five_row;
  hour = empty;
  day = five_row;
  evicted = empty;
  hour_rows = five_row ∷ empty ∷ [];
  day_rows = [];
}

saved_of-restored_example : saved_of (restored two_hours) ≡ two_hours
saved_of-restored_example = saved_of-restored two_hours (omega arith) (omega arith)
