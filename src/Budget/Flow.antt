-- ===== src/Budget/Flow.antt =====
-- The HTTP/2 queue: room is made and given back without loss.
use ankah.Prelude.{ℕ, ◌+◌, ◌≤◌, ◌≡◌, ◌↔◌, true, false, arith}
use ankah.Budget.{stream_window, request_queue_total, h2_queue_reserve, h2_queue_release}

-- Bytes are taken exactly when neither the stream's window nor the total budget would be passed,
-- and releasing them restores the total.
h2_queue_reserve_lem :
    (total stream incoming : ℕ)
    → (((h2_queue_reserve total stream incoming).1 ≡ true)
        ↔ ((stream + incoming ≤ stream_window) × (total + incoming ≤ request_queue_total)))
      × ((h2_queue_reserve total stream incoming).1 ≡ true
          → h2_queue_release (h2_queue_reserve total stream incoming).0 incoming ≡ total)
      × ((h2_queue_reserve total stream incoming).1 ≡ false
          → (h2_queue_reserve total stream incoming).0 ≡ total)
unfolding h2_queue_reserve h2_queue_release
h2_queue_reserve_lem total stream incoming = ground arith
