-- ===== src/Dots/Tracker.antt =====
-- src/dots_policy.c, `ankah_dots_tracker_hit`: counts the challenged requests of each address.
pub mod History
mod Examples
use ankah.Prelude.{
  ℕ, ◌+◌, ◌-◌, ◌<◌, Bool, true, false, not, ◌&&◌, ◌||◌, List, [], ◌∷◌, ◌++◌, ltb, leb, ◌==◌,
  if◌then◌else◌, length, drop, keep_if, set, Bytes, str_eq, is_empty,
}
use ankah.Slots.{choose, index, entry_at}

abbrev pub max_threshold : ℕ
max_threshold = 64

abbrev pub tracked : ℕ
tracked = 1024

-- `times` holds the first `count` elements of the array of times.
pub record Tracked : Type 0 where
  pub ip : Bytes
  pub seen_ns : ℕ
  pub times : List ℕ

abbrev pub blank : Bytes → Tracked
blank ip = record { ip = ip; seen_ns = 0; times = [] }

-- `if (!candidate->ip[0]) { if (oldest->ip[0]) … } else if (oldest->ip[0] && …)`
pub replaces : Tracked → Tracked → Bool
replaces candidate oldest =
    if is_empty candidate.ip
    then not (is_empty oldest.ip)
    else not (is_empty oldest.ip) && ltb candidate.seen_ns oldest.seen_ns

abbrev pub is_fresh : ℕ → ℕ → ℕ → Bool
is_fresh now window time = leb time now && ltb (now - time) window

-- The times that are kept, after the shift that makes room for one more.
pub make_room : List ℕ → List ℕ
make_room kept = if length kept == max_threshold then drop 1 kept else kept

-- `entry->times[kept++] = now_ns;` and what follows.
pub note : ℕ → ℕ → ℕ → Tracked → Tracked × Bool
note now threshold window entry =
    let times = make_room (keep_if (is_fresh now window) entry.times) ++ now ∷ [] in
    let seen = record entry { seen_ns = now } in
    if ltb (length times) threshold
    then (record seen { times = times }, false)
    else (record seen { times = [] }, true)

-- The condition of the first return.
pub is_ignored : Bytes → ℕ → Bool
is_ignored ip threshold =
    is_empty ip || leb 64 (length ip) || threshold == 0 || ltb max_threshold threshold

-- The Boolean is true where the function returns 1.
pub tracker_hit : List Tracked → Bytes → ℕ → ℕ → ℕ → List Tracked × Bool
tracker_hit tracker ip now threshold window =
    let choice = choose (λ c. str_eq c.ip ip) replaces tracker in
    let (entry, signal) = note now threshold window (entry_at choice tracker (blank ip)) in
    if is_ignored ip threshold then (tracker, false) else (set tracker (index choice) entry, signal)
