-- ===== src/Stats/Files.antt =====
-- src/stats.c: the two files of snapshots. They are written in turn, and the later is restored. src/files.c
-- is an argument: a `Disk` has its ankah_file_read_optional and ankah_file_replace.
use ankah.Prelude.{
  ℕ, suc, ◌+◌, ◌-◌, ◌*◌, ◌%◌, ◌^◌, ◌≤◌, ◌≡◌, ◌≢◌, ◌⊎◌, Bool, true, false, not, ◌&&◌, ◌||◌, List,
  ◌++◌, Option, none, some, ltb, ◌==◌, if◌then◌else◌, length, replicate, Bytes, codes,
}
use ankah.Stats.{Row, Ring, Stats, empty, stat_hours, stat_days, stats_init, stats_roll}
use ankah.Stats.Snapshot.{Saved}
use ankah.Stats.Codec.{header_size, digest_size, encode_snapshot, decode_snapshot}

abbrev pub path_max : ℕ
path_max = 512

abbrev pub snapshot_max_size : ℕ
snapshot_max_size = header_size + (4 + stat_hours + stat_days) * 360 + digest_size

-- The results 0, 1 and -1 of ankah_file_read_optional.
pub data ReadResult : Type 0 where
  found : Bytes → ReadResult
  missing : ReadResult
  failed : ReadResult

-- `replace files temp_path target_path image` is true for the result 0.
pub record Disk (Files : Type 0) : Type 0 where
  pub read_optional : Files → Bytes → ℕ → ReadResult
  pub replace : Files → Bytes → Bytes → Bytes → Bool × Files

-- What the code relies on. A target is replaced at once: the call fails before that, or after it where
-- the directory cannot be flushed. Other files than the target and the temporary one stay.
pub record IsDisk {Files : Type 0} (disk : Disk Files) : Type 0 where
  pub written :
      (files after : Files) (temp target image : Bytes) (maximum : ℕ)
      → disk.replace files temp target image ≡ (true, after)
      → length image ≤ maximum
      → disk.read_optional after target maximum ≡ found image
  pub unfinished :
      (files after : Files) (temp target image : Bytes) (maximum : ℕ)
      → disk.replace files temp target image ≡ (false, after)
      → length image ≤ maximum
      → (disk.read_optional after target maximum ≡ disk.read_optional files target maximum)
        ⊎ (disk.read_optional after target maximum ≡ found image)
  pub others :
      (files after : Files) (ok : Bool) (temp target image path : Bytes) (maximum : ℕ)
      → disk.replace files temp target image ≡ (ok, after)
      → path ≢ temp
      → path ≢ target
      → disk.read_optional after path maximum ≡ disk.read_optional files path maximum

unfoldable pub snapshot_path : Bytes → Bytes → Option Bytes
snapshot_path base suffix =
    let out = base ++ suffix in
    if ltb 0 (length out) && ltb (length out) path_max then some out else none

-- `generation & 1 ? ".1" : ".0"`
abbrev pub slot_suffix : ℕ → Bytes
slot_suffix generation = if generation % 2 == 1 then codes ".1" else codes ".0"

-- The rows of a ring that is restored; the array behind them is zero.
abbrev pub restored_ring : ℕ → List Row → Ring
restored_ring capacity rows = record {
  rows = rows ++ replicate (capacity - length rows) empty;
  capacity = capacity;
  head = length rows % capacity;
  count = length rows;
}

unfoldable pub restored : Saved → Stats
restored saved = record {
  enabled = true;
  epoch = saved.epoch;
  hour_index = saved.hour_index;
  day_index = saved.day_index;
  evicted_days = saved.evicted_days;
  cumulative = saved.cumulative;
  hour = saved.hour;
  day = saved.day;
  evicted = saved.evicted;
  hours = restored_ring stat_hours saved.hour_rows;
  days = restored_ring stat_days saved.day_rows;
}

-- ANKAH_STATS_DEGRADED and ANKAH_STATS_RESTORED in the result.
pub record Flags : Type 0 where
  pub is_degraded : Bool
  pub is_restored : Bool

-- The snapshot of the higher generation.
unfoldable pub later_snapshot : Option (ℕ × Saved) → Option (ℕ × Saved) → Option (ℕ × Saved)
later_snapshot none second = second
later_snapshot (some first) none = some first
later_snapshot (some (a, first)) (some (b, second)) =
    if ltb a b then some (b, second) else some (a, first)

-- The counters and the generation.
abbrev pub resumed : ℕ → Option (ℕ × Saved) → Stats × ℕ
resumed wall none = (stats_init wall, 0)
resumed wall (some (generation, saved)) = (stats_roll wall (restored saved), generation)

abbrev pub is_chosen : Option (ℕ × Saved) → Bool
is_chosen none = false
is_chosen (some chosen) = true

module _ {Files : Type 0} (sha256 : Bytes → Option Bytes) (disk : Disk Files) where
  -- Whether the slot is degraded, and its snapshot.
  unfoldable pub decoded_slot : ReadResult → Bool × Option (ℕ × Saved)
  decoded_slot (found image) =
      let snapshot = decode_snapshot sha256 image in (not (is_chosen snapshot), snapshot)
  decoded_slot missing = (false, none)
  decoded_slot failed = (true, none)

  unfoldable pub read_candidate : Files → Option Bytes → Bool × Option (ℕ × Saved)
  read_candidate files none = (true, none)
  read_candidate files (some path) = decoded_slot (disk.read_optional files path snapshot_max_size)

  unfoldable pub read_slot : Files → Bytes → Bytes → Bool × Option (ℕ × Saved)
  read_slot files path suffix = read_candidate files (snapshot_path path suffix)

  unfoldable pub stats_restore : Files → Bytes → ℕ → Flags × (Stats × ℕ)
  stats_restore files path wall =
      let (first_degraded, first) = read_slot files path (codes ".0") in
      let (second_degraded, second) = read_slot files path (codes ".1") in
      let chosen = later_snapshot first second in
      (
        record { is_degraded = first_degraded || second_degraded; is_restored = is_chosen chosen },
        resumed wall chosen,
      )

  -- The end of a save, with the paths and the image where there are such.
  unfoldable pub replace_with :
      Files → ℕ → Option Bytes → Option Bytes → Option Bytes → Bool × (Files × ℕ)
  replace_with files generation none target image = (false, (files, generation))
  replace_with files generation (some temp) none image = (false, (files, generation))
  replace_with files generation (some temp) (some target) none = (false, (files, generation))
  replace_with files generation (some temp) (some target) (some image) =
      let (ok, after) = disk.replace files temp target image in
      (ok, (after, if ok then suc generation else generation))

  -- The result, the files and the generation.
  unfoldable pub stats_save : Files → Bytes → ℕ → Stats → ℕ → Bool × (Files × ℕ)
  stats_save files path wall stats generation =
      if not stats.enabled || generation == 2 ^ 64 - 1
      then (false, (files, generation))
      else replace_with files generation (snapshot_path path (codes ".tmp"))
          (snapshot_path path (slot_suffix (suc generation)))
          (encode_snapshot sha256 (suc generation) wall stats)
