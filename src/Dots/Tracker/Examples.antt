-- ===== src/Dots/Tracker/Examples.antt =====
-- Runs of the tracker on two slots.
use ankah.Prelude.{
  ℕ, suc, ◌≤◌, ◌≡◌, refl, inr, true, false, List, [], ◌∷◌, arith, length, codes, Bytes,
  ne_of_str_eq,
}
use ankah.Slots.{choose, scan}
use ankah.Slots.Keyed.{lookup}
use ankah.Slots.Touch.{Fate}
use ankah.Dots.Tracker.{Tracked, tracker_hit, is_ignored, note, make_room, replaces}
use ankah.Dots.Tracker.History.{
  key, rank, IsValid, recent, history, tracker_hit-signal, history-tracker_hit, tracker_hit-Fate,
}

abbrev first_ip : Bytes
first_ip = codes "192.0.2.1"

abbrev second_ip : Bytes
second_ip = codes "192.0.2.2"

abbrev third_ip : Bytes
third_ip = codes "192.0.2.3"

abbrev entry : Bytes → ℕ → List ℕ → Tracked
entry ip seen times = record { ip = ip; seen_ns = seen; times = times }

abbrev full : List Tracked
full = entry first_ip 50 (10 ∷ 50 ∷ []) ∷ entry second_ip 20 (20 ∷ []) ∷ []

full-IsValid : IsValid full
full-IsValid = record {
  slots = omega arith;
  distinct = (inr (refl, tt), (inr tt, tt));
  bounded = omega arith;
}

third_hit_signals :
    tracker_hit full first_ip 60 3 100
    ≡ (entry first_ip 60 [] ∷ entry second_ip 20 (20 ∷ []) ∷ [], true)
unfolding tracker_hit is_ignored note make_room replaces choose scan
third_hit_signals = refl

full_not_ignored : is_ignored first_ip 3 ≡ false
unfolding is_ignored
full_not_ignored = refl

third_not_ignored : is_ignored third_ip 3 ≡ false
unfolding is_ignored
third_not_ignored = refl

tracker_hit-signal_example :
    ((tracker_hit full first_ip 60 3 100).1 ≡ true
      → 3 ≤ suc (length (recent 60 100 (history full first_ip))))
    × (3 ≤ suc (length (recent 60 100 (history full first_ip)))
        → (tracker_hit full first_ip 60 3 100).1 ≡ true)
tracker_hit-signal_example = tracker_hit-signal full first_ip 60 3 100 full-IsValid full_not_ignored

history-tracker_hit_example : history (tracker_hit full first_ip 60 3 100).0 first_ip ≡ []
unfolding tracker_hit is_ignored note make_room replaces choose scan lookup
history-tracker_hit_example =
    history-tracker_hit full first_ip 60 3 100 full-IsValid full_not_ignored

tracker_hit-Fate_example :
    Fate key rank full (tracker_hit full third_ip 60 3 100).0 third_ip second_ip
tracker_hit-Fate_example =
    tracker_hit-Fate full third_ip 60 3 100 full-IsValid third_not_ignored second_ip
      (ne_of_str_eq _ _ refl) (ne_of_str_eq _ _ refl)
