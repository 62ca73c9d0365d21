-- ===== src/Dots/Tracker/History.antt =====
-- The tracker as a map from addresses to the times of their latest hits.
use mathlib.Core.Option
use mathlib.Core.Path.{subst}
use ankah.Prelude.{
  leb, ltb, ◌&&◌, ◌+◌, ℕ, suc, ◌≤◌, ◌<◌, ◌≡◌, refl, ap, ◌∙◌, ◌≢◌, ◌↔◌, inl, inr, Bool-cases, Bool,
  true, false, List, [], ◌∷◌, ◌++◌, arith, ◌==◌, if◌then◌else◌, length, length-append, length-drop,
  length-keep_if-le, drop, keep_if, set, length-set, All, All-set, Bytes, is_empty, str_eq,
}
use ankah.Slots.{choose, index, entry_at}
use ankah.Slots.Victim.{Ranked}
use ankah.Slots.Keyed.{lookup, Distinct, lookup_or_fresh, key-lookup}
use ankah.Slots.Touch.{Fate, entry_at-lookup, touch-Distinct, touch-lookup_self, touch-Fate}
use ankah.Dots.Tracker.{
  Tracked, blank, replaces, is_fresh, make_room, note, is_ignored, tracker_hit, max_threshold,
}

abbrev pub key : Tracked → Bytes
key c = c.ip

-- A free slot goes first, then the address seen longest ago.
abbrev pub rank : Tracked → ℕ
rank c = if is_empty c.ip then 0 else suc c.seen_ns

replaces-Ranked : Ranked replaces rank
unfolding replaces
replaces-Ranked = record { wins = λ c o h. ground arith; loses = λ c o h. ground arith }

-- The times of the hits of an address that count towards its next signal.
abbrev pub history : List Tracked → Bytes → List ℕ
history t ip = (Option.get_or (lookup key t ip) (blank ip)).times

-- At least one slot, no address in two slots, and no more times than the array holds.
pub record IsValid (t : List Tracked) : Type 0 where
  pub slots : 0 < length t
  pub distinct : Distinct key t
  pub bounded : All (λ c. length c.times ≤ max_threshold) t

-- The hits in `times` that lie within the window that ends now: not after now, and less than the
-- window before it.
abbrev pub recent : ℕ → ℕ → List ℕ → List ℕ
recent now window = keep_if (λ time. leb time now && ltb now (time + window))

abbrev kept : ℕ → ℕ → List ℕ → List ℕ
kept now window = keep_if (is_fresh now window)

kept-recent : (now window : ℕ) (times : List ℕ) → kept now window times ≡ recent now window times
kept-recent now window [] = refl
kept-recent now window (time ∷ times) = ground (arith, kept-recent now window times)

note-ip : (now threshold window : ℕ) (e : Tracked) → (note now threshold window e).0.ip ≡ e.ip
unfolding note
note-ip now threshold window e = ground arith

module _ (now threshold window : ℕ) (e : Tracked) (h : threshold ≤ max_threshold)
    (k : length e.times ≤ max_threshold) where
  within_bound : length (kept now window e.times) ≤ max_threshold
  within_bound = omega (arith, length-keep_if-le (is_fresh now window) e.times)

  length-make_room : length (make_room (kept now window e.times) ++ now ∷ []) ≡ (
      if length (kept now window e.times) == max_threshold
      then max_threshold
      else suc (length (kept now window e.times)))
  unfolding make_room
  length-make_room = ground (
    arith,
    within_bound,
    length-append (kept now window e.times) (now ∷ []),
    length-append (drop 1 (kept now window e.times)) (now ∷ []),
    length-drop 1 (kept now window e.times),
  )

  note-signal :
      ((note now threshold window e).1 ≡ true)
      ↔ (threshold ≤ suc (length (kept now window e.times)))
  unfolding note
  note-signal = ground (arith, within_bound, length-make_room)

  make_room_id :
      length (kept now window e.times) ≢ max_threshold
      → make_room (kept now window e.times) ≡ kept now window e.times
  unfolding make_room
  make_room_id ne = ground arith

  note-times :
      (note now threshold window e).0.times
      ≡ (if (note now threshold window e).1 then [] else kept now window e.times ++ now ∷ [])
  unfolding note
  note-times = ground (arith, within_bound, length-make_room, make_room_id)

  note-bounded : length (note now threshold window e).0.times ≤ max_threshold
  unfolding note
  note-bounded = ground (arith, within_bound, length-make_room)

module _ (t : List Tracked) (ip : Bytes) (now threshold window : ℕ) (v : IsValid t)
    (ok : is_ignored ip threshold ≡ false) where
  -- The entry that the hit works on.
  current : Tracked
  current = entry_at (choose (λ c. str_eq c.ip ip) replaces t) t (blank ip)

  ip_ne : ip ≢ []
  unfolding is_ignored
  ip_ne e = ground arith

  threshold-le : threshold ≤ max_threshold
  unfolding is_ignored
  threshold-le = ground arith

  current-lookup : current ≡ Option.get_or (lookup key t ip) (blank ip)
  unfolding current
  current-lookup =
      entry_at-lookup key replaces rank replaces-Ranked t ip ip_ne v.distinct v.slots (blank ip)

  written : Tracked × Bool
  written = note now threshold window current

  tracker_hit_lem :
      tracker_hit t ip now threshold window
      ≡ (set t (index (choose (λ c. str_eq c.ip ip) replaces t)) written.0, written.1)
  unfolding tracker_hit written current
  tracker_hit_lem = rw ok

  current-history : current.times ≡ history t ip
  current-history = ap (λ e. e.times) current-lookup

  current-bounded : length current.times ≤ max_threshold
  current-bounded = rw current-lookup (
      lookup_or_fresh key (λ c. length c.times ≤ max_threshold) t ip (blank ip) v.bounded
        (omega arith))

  named : written.0.ip ≡ ip
  unfolding written
  named =
      note-ip now threshold window current ∙ rw current-lookup (key-lookup key t ip (blank ip) refl)

  -- The hit is reported exactly when it is at least the threshold-th of the hits within the window:
  -- those that the table holds for the address, which are some since its last report.
  pub tracker_hit-signal :
      ((tracker_hit t ip now threshold window).1 ≡ true)
      ↔ (threshold ≤ suc (length (recent now window (history t ip))))
  unfolding written
  tracker_hit-signal =
      rw (tracker_hit_lem, ← current-history, ← kept-recent now window current.times)
        (note-signal now threshold window current threshold-le current-bounded)

  -- A hit that is reported clears the address's history; any other adds its time to the recent ones.
  pub history-tracker_hit : history (tracker_hit t ip now threshold window).0 ip ≡ (
      if (tracker_hit t ip now threshold window).1
      then []
      else recent now window (history t ip) ++ now ∷ [])
  unfolding written
  history-tracker_hit =
      let found_again =
        touch-lookup_self key replaces rank replaces-Ranked t ip ip_ne v.distinct v.slots written.0
          named in
      let noted = note-times now threshold window current threshold-le current-bounded in
      rw tracker_hit_lem (
        ap (λ o. (Option.get_or o (blank ip)).times) found_again
        ∙ subst (λ l. written.0.times ≡ (if written.1 then [] else recent now window l ++ now ∷ []))
            current-history (rw (← kept-recent now window current.times) noted))

  -- A hit leaves the history of any other address as it is, or evicts that address for one that had
  -- no entry, when no slot is free and no address was seen longer ago.
  pub tracker_hit-Fate :
      (k : Bytes) → k ≢ [] → k ≢ ip → Fate key rank t (tracker_hit t ip now threshold window).0 ip k
  tracker_hit-Fate k nk other = rw tracker_hit_lem (
      touch-Fate key replaces rank replaces-Ranked t ip ip_ne v.distinct v.slots written.0 named k
        nk other)

  counted-IsValid : IsValid (tracker_hit t ip now threshold window).0
  unfolding written
  counted-IsValid = rw tracker_hit_lem (record {
    slots = omega (
      arith,
      length-set {0} t (index (choose (λ c. str_eq c.ip ip) replaces t)) written.0,
      v.slots,
    );
    distinct =
        touch-Distinct key replaces rank replaces-Ranked t ip ip_ne v.distinct v.slots written.0
          named;
    bounded =
        All-set (λ c. length c.times ≤ max_threshold) t _ written.0 v.bounded
          (note-bounded now threshold window current threshold-le current-bounded);
  })

tracker_hit_ignored :
    (t : List Tracked) (ip : Bytes) (now threshold window : ℕ)
    → is_ignored ip threshold ≡ true
    → tracker_hit t ip now threshold window ≡ (t, false)
unfolding tracker_hit
tracker_hit_ignored t ip now threshold window e = rw e

-- Every hit leaves the table valid: no address gets two slots, and no array of times overflows.
pub tracker_hit-IsValid :
    (t : List Tracked) (ip : Bytes) (now threshold window : ℕ)
    → IsValid t
    → IsValid (tracker_hit t ip now threshold window).0
tracker_hit-IsValid t ip now threshold window v = elim (Bool-cases (is_ignored ip threshold)) [
  | inl ignored ↦ rw (tracker_hit_ignored t ip now threshold window ignored) v
  | inr counted ↦ counted-IsValid t ip now threshold window v counted
]
