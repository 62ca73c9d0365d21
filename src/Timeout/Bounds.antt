-- ===== src/Timeout/Bounds.antt =====
-- The delays against the deadlines that they are computed from.
use ankah.Prelude.{ℕ, ◌+◌, ◌-◌, ◌*◌, ◌^◌, ◌≤◌, ◌<◌, ◌≡◌, ◌≢◌, ◌↔◌, ◌⊎◌, Bool, arith}
use ankah.Timeout.{absolute_timeout_ms, core_timeout_ms}

-- `d` is the earliest of the deadlines that are set: one of them, and not after any of them.
pub record IsEarliest (d first second third : ℕ) : Type 0 where
  pub is_set : d ≢ 0
  pub is_one : (d ≡ first) ⊎ (d ≡ second) ⊎ (d ≡ third)
  pub first_le : first ≢ 0 → d ≤ first
  pub second_le : second ≢ 0 → d ≤ second
  pub third_le : third ≢ 0 → d ≤ third

-- The delay is 0 exactly when no deadline is set or one that is set has come.
absolute_timeout_ms-eq-zero :
    (now first second third : ℕ)
    → (absolute_timeout_ms now first second third ≡ 0)
      ↔ ((first ≡ 0) × (second ≡ 0) × (third ≡ 0))
        ⊎ ((first ≢ 0) × (first ≤ now))
        ⊎ ((second ≢ 0) × (second ≤ now))
        ⊎ ((third ≢ 0) × (third ≤ now))
unfolding absolute_timeout_ms
absolute_timeout_ms-eq-zero now first second third = ground arith

-- The delay ends at or after the earliest deadline, and less than a millisecond after it.
pub absolute_timeout_ms_tight :
    (now first second third d : ℕ)
    → IsEarliest d first second third
    → now < d
    → (d ≤ now + absolute_timeout_ms now first second third * 1_000_000)
      × (now + absolute_timeout_ms now first second third * 1_000_000 < d + 1_000_000)
unfolding absolute_timeout_ms
absolute_timeout_ms_tight now first second third d e h = ground arith

-- For deadlines far enough below 2 ^ 64 that no sum wraps, the core timeout is at most 300 seconds,
-- and it is 0 exactly when one of the deadlines is set and has come.
core_timeout_ms_tight :
    (now request reply : ℕ) (websocket : Bool)
    → request < 2 ^ 64 - 999_999
    → reply < 2 ^ 64 - 999_999
    → (core_timeout_ms now request reply websocket ≤ 300_000)
      × ((core_timeout_ms now request reply websocket ≡ 0)
          ↔ (((request ≢ 0) × (request ≤ now)) ⊎ ((reply ≢ 0) × (reply ≤ now))))
unfolding core_timeout_ms
core_timeout_ms_tight now request reply websocket h k = ground arith
