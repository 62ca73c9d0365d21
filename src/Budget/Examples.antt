-- ===== src/Budget/Examples.antt =====
-- Reserves and releases on small budgets.
use ankah.Prelude.{◌≡◌, refl, true, false, List, [], ◌∷◌, arith}
use ankah.Budget.{Queues, queue_reserve, queue_release, queue_peak}
use ankah.Budget.Ledger.{Held, reserve, release, here, next, Balanced, Reach-Balanced}

abbrev empty_queues : Queues
empty_queues = record {
  request = record { limit = 100; used = 0; high = 0 };
  response = record { limit = 0; used = 0; high = 0 };
}

empty-Balanced : Balanced (empty_queues, [])
empty-Balanced = omega arith

reserve_past_limit : queue_reserve false 101 empty_queues ≡ (empty_queues, false)
unfolding queue_reserve
reserve_past_limit = refl

peak_stays : queue_peak true (queue_release true 9 (queue_reserve true 9 empty_queues).0) ≡ 9
unfolding queue_peak queue_release queue_reserve
peak_stays = refl

reserve_60 : (queue_reserve false 60 empty_queues).1 ≡ true
unfolding queue_reserve
reserve_60 = refl

abbrev held_60 : List Held
held_60 = record { response = false; bytes = 60 } ∷ []

Reach-Balanced_example :
    Balanced (queue_release false 60 (queue_reserve false 60 empty_queues).0, [])
Reach-Balanced_example = Reach-Balanced empty-Balanced (
    next (next here (reserve empty_queues [] false 60 reserve_60))
      (release _ held_60 0 (record { response = false; bytes = 60 }) refl))
