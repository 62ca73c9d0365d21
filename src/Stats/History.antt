-- ===== src/Stats/History.antt =====
-- What holds in every history of the counters.
use ankah.Prelude.{
  ℕ, zero, suc, ◌≤◌, ◌<◌, ◌≡◌, refl, sym, ◌∙◌, true, false, arith, Option, some, Bytes,
}
use ankah.Stats.{
  stat_count, is_max, Stats, stats_init, stats_disable, stats_add, stats_max, stats_roll, contents,
}
use ankah.Stats.Snapshot.{field_total, Saved, fields_valid, totals_valid, saved_of}
use ankah.Stats.Codec.{decode_snapshot}
use ankah.Stats.Files.{restored, resumed}
use ankah.Stats.Decoded.{AreBytes, decode_snapshot-IsValid}
use ankah.Stats.Rings.{length-aged}
use ankah.Stats.Totals.{rows_total-combine}
use ankah.Stats.Rolling.{stats_roll-IsValid}
use ankah.Stats.Validity.{
  IsValid, stats_init-IsValid, stats_add-IsValid, stats_max-IsValid, stats_disable-IsValid,
}

-- The calls that change the counters. A field that merges by a sum is only added to, and one that
-- merges by a maximum is only raised.
pub data Step : Stats → Stats → Type 0 where
  add :
      (field amount : ℕ) (stats : Stats)
      → is_max field ≡ false
      → Step stats (stats_add field amount stats)
  raise :
      (field value : ℕ) (stats : Stats)
      → is_max field ≡ true
      → Step stats (stats_max field value stats)
  roll : (wall : ℕ) (stats : Stats) → Step stats (stats_roll wall stats)
  disable : (stats : Stats) → Step stats (stats_disable stats)

-- A process starts with empty counters, or with those of a snapshot that it decodes from a file.
pub data Reach : Stats → Type 0 where
  start : (wall : ℕ) → Reach (stats_init wall)
  resume :
      (sha256 : Bytes → Option Bytes) (image : Bytes) (generation : ℕ) (saved : Saved) (wall : ℕ)
      → AreBytes image
      → decode_snapshot sha256 image ≡ some (generation, saved)
      → Reach (resumed wall (some (generation, saved))).0
  next : {before after : Stats} → Reach before → Step before after → Reach after

Step-IsValid : {before after : Stats} → Step before after → IsValid before → IsValid after
Step-IsValid (add field amount stats sum) v = stats_add-IsValid field amount stats sum v
Step-IsValid (raise field value stats max) v = stats_max-IsValid field value stats max v
Step-IsValid (roll wall stats) v = stats_roll-IsValid wall stats v
Step-IsValid (disable stats) v = stats_disable-IsValid stats v

pub Reach-IsValid : {stats : Stats} → Reach stats → IsValid stats
Reach-IsValid (start wall) = stats_init-IsValid wall
Reach-IsValid (resume sha256 image generation saved wall bytes decoded) =
    stats_roll-IsValid wall (restored saved)
      (decode_snapshot-IsValid sha256 image generation saved bytes decoded)
Reach-IsValid (next reach step) = Step-IsValid step (Reach-IsValid reach)

field_total-eq :
    (stats : Stats) (field : ℕ)
    → IsValid stats
    → field < stat_count
    → field_total field (saved_of stats) ≡ stats.cumulative field
unfolding field_total saved_of
field_total-eq stats field v lt =
    rows_total-combine field (stats.evicted field) (stats.day field) (contents stats.days)
    ∙ sym (v.totals field lt)

fields_valid-true :
    (n : ℕ) (stats : Stats)
    → IsValid stats
    → n ≤ stat_count
    → fields_valid n (saved_of stats) ≡ true
unfolding fields_valid saved_of
fields_valid-true zero stats v le = refl
fields_valid-true (suc n) stats v le =
    let same : field_total n (saved_of stats) ≡ stats.cumulative n = field_total-eq stats n v le in
    rw (fields_valid-true n stats v (omega arith), same) (ground arith)

-- In every history of calls, from empty counters or from those of a snapshot that was decoded, what is
-- saved passes the check that a restore makes: the total of every
-- field is that of the displaced days, the current day and the days in the ring, there are as many
-- hours as have passed, up to 720, and the days in the ring and those displaced are those that have
-- passed.
pub Reach-totals_valid : {stats : Stats} → Reach stats → totals_valid (saved_of stats) ≡ true
unfolding totals_valid saved_of
Reach-totals_valid {stats} reach =
    let v = Reach-IsValid reach in
    ground (
      arith,
      length-aged stats.hours stats.hours.count,
      length-aged stats.days stats.days.count,
      fields_valid-true stat_count stats v (omega arith),
      v.hours_begun,
      v.hours_passed,
      v.days_begun,
      v.days_passed,
    )
