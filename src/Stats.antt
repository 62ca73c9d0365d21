-- ===== src/Stats.antt =====
-- src/stats.c: counters by the hour and by the day, and their totals.
pub mod Rings
pub mod Snapshot
pub mod Totals
pub mod Validity
pub mod Rolling
pub mod History
pub mod Codec
pub mod Stored
pub mod Restore
pub mod RoundTrip
pub mod Files
pub mod Slots
pub mod Kept
pub mod Latest
pub mod Saves
pub mod Resumed
pub mod Decoded
pub mod Examples
mod Disks
use mathlib.Core.Option
use ankah.Prelude.{
  ℕ, zero, suc, ◌+◌, ◌-◌, ◌*◌, ◌/◌, ◌%◌, Bool, true, false, not, ◌&&◌, ◌||◌, List, [], ◌∷◌, Option,
  none, some, ltb, leb, ◌==◌, if◌then◌else◌, get_or, get_elem?, set, replicate,
}
use ankah.Prelude.Words.{add64}

abbrev pub stat_count : ℕ
stat_count = 45

abbrev pub stat_hours : ℕ
stat_hours = 720

abbrev pub stat_days : ℕ
stat_days = 4096

-- The value of each field. A row is zero beyond the fields.
abbrev pub Row : Type 0
Row = ℕ → ℕ

abbrev pub empty : Row
empty field = 0

-- The fields that merge by maximum: peak_connections, upstream_latency_peak_ms, peak_sessions,
-- peak_pending_bytes, throttle_wait_ms_peak, peak_throttle_connections and peak_throttle_queue.
unfoldable pub is_max : ℕ → Bool
is_max field =
    field == 7
    || field == 29
    || field == 30
    || field == 31
    || field == 37
    || field == 38
    || field == 39

-- One field of a merge.
unfoldable pub combine : Bool → ℕ → ℕ → ℕ
combine true into from = if ltb into from then from else into
combine false into from = add64 into from

unfoldable pub merge : Row → Row → Row
merge into from field =
    if ltb field stat_count then combine (is_max field) (into field) (from field) else into field

-- `rows` has `capacity` elements.
pub record Ring : Type 0 where
  pub rows : List Row
  pub capacity : ℕ
  pub head : ℕ
  pub count : ℕ

-- The ring, and the row that is displaced from a full one.
unfoldable pub ring_push : Ring → Row → Ring × Option Row
ring_push ring row =
    let written = record ring {
      rows = set ring.rows ring.head row;
      head = (ring.head + 1) % ring.capacity;
    } in
    if ring.count == ring.capacity
    then (written, some (get_or ring.rows ring.head empty))
    else (record written { count = suc ring.count }, none)

unfoldable pub ring_age : Ring → ℕ → Option Row
ring_age ring age =
    if leb ring.count age
    then none
    else get_elem? ring.rows ((ring.head + ring.capacity - 1 - age) % ring.capacity)

pub record Stats : Type 0 where
  pub enabled : Bool
  pub epoch : ℕ
  pub hour_index : ℕ
  pub day_index : ℕ
  pub evicted_days : ℕ
  pub cumulative : Row
  pub hour : Row
  pub day : Row
  pub evicted : Row
  pub hours : Ring
  pub days : Ring

abbrev pub empty_ring : ℕ → Ring
empty_ring capacity = record {
  rows = replicate capacity empty;
  capacity = capacity;
  head = 0;
  count = 0;
}

unfoldable pub stats_init : ℕ → Stats
stats_init wall = record {
  enabled = true;
  epoch = wall;
  hour_index = wall / 3600;
  day_index = wall / 86400;
  evicted_days = 0;
  cumulative = empty;
  hour = empty;
  day = empty;
  evicted = empty;
  hours = empty_ring stat_hours;
  days = empty_ring stat_days;
}

pub stats_disable : Stats → Stats
stats_disable stats = record stats { enabled = false }

-- `row.v[field] = f(row.v[field])`
abbrev pub change : ℕ → (ℕ → ℕ) → Row → Row
change field f row i = if i == field then f (row i) else row i

abbrev pub change_all : ℕ → (ℕ → ℕ) → Stats → Stats
change_all field f stats = record stats {
  cumulative = change field f stats.cumulative;
  hour = change field f stats.hour;
  day = change field f stats.day;
}

unfoldable pub stats_add : ℕ → ℕ → Stats → Stats
stats_add field amount stats =
    if not stats.enabled || leb stat_count field
    then stats
    else change_all field (λ v. add64 v amount) stats

pub stats_max : ℕ → ℕ → Stats → Stats
stats_max field value stats =
    if not stats.enabled || leb stat_count field
    then stats
    else change_all field (λ v. if ltb v value then value else v) stats

unfoldable pub push_day : Row → Stats → Stats
push_day row stats =
    let (days, displaced) = ring_push stats.days row in
    elim displaced [
      | none ↦ record stats { days = days }
      | some old ↦ record stats {
        days = days;
        evicted = merge stats.evicted old;
        evicted_days = stats.evicted_days + 1;
      }
    ]

-- The empty rows of a gap, at most as many as the ring holds.
unfoldable pub push_hours : ℕ → Ring → Ring
push_hours zero ring = ring
push_hours (suc n) ring = push_hours n (ring_push ring empty).0

unfoldable pub push_days : ℕ → Stats → Stats
push_days zero stats = stats
push_days (suc n) stats = push_days n (push_day empty stats)

abbrev pub at_most : ℕ → ℕ → ℕ
at_most limit n = if ltb n limit then n else limit

unfoldable pub roll_hours : ℕ → Stats → Stats
roll_hours hour stats = if leb hour stats.hour_index then stats else record stats {
  hours =
      push_hours (at_most stat_hours (hour - stats.hour_index - 1))
        (ring_push stats.hours stats.hour).0;
  hour = empty;
  hour_index = hour;
}

unfoldable pub roll_days : ℕ → Stats → Stats
roll_days day stats =
    let gap = day - stats.day_index - 1 in
    let pushed = push_days (at_most stat_days gap) (push_day stats.day stats) in
    if leb day stats.day_index then stats else record pushed {
      evicted_days = pushed.evicted_days + (gap - at_most stat_days gap);
      day = empty;
      day_index = day;
    }

unfoldable pub stats_roll : ℕ → Stats → Stats
stats_roll wall stats =
    if not stats.enabled then stats else roll_days (wall / 86400) (roll_hours (wall / 3600) stats)

-- The rows of a ring from the oldest to the latest, as they are written out.
unfoldable pub aged : Ring → ℕ → List Row
aged ring zero = []
aged ring (suc age) = Option.get_or (ring_age ring age) empty ∷ aged ring age

abbrev pub contents : Ring → List Row
contents ring = aged ring ring.count
