-- ===== src/Timeout/Examples.antt =====
-- Deadlines at concrete times.
use ankah.Prelude.{◌+◌, ◌*◌, ◌≤◌, ◌<◌, ◌≡◌, refl, inl, inr, true, false, arith}
use ankah.Timeout.{absolute_timeout_ms, front_timeout_ms, reply_deadline_ns}
use ankah.Timeout.Bounds.{IsEarliest, absolute_timeout_ms_tight}

second-IsEarliest : IsEarliest 5_000_001 0 5_000_001 9_000_000
second-IsEarliest = record {
  is_set = omega arith;
  is_one = inr (inl refl);
  first_le = λ h. absurd (h refl);
  second_le = λ h. omega arith;
  third_le = λ h. omega arith;
}

absolute_timeout_ms_rounds_up : absolute_timeout_ms 1_000_000 0 5_000_001 9_000_000 ≡ 5
unfolding absolute_timeout_ms
absolute_timeout_ms_rounds_up = refl

front_streams : front_timeout_ms true true 2 false false ≡ 0
unfolding front_timeout_ms
front_streams = refl

reply_deadline_large : reply_deadline_ns 7 true true false ≡ 300_000_000_007
unfolding reply_deadline_ns
reply_deadline_large = refl

absolute_timeout_ms_tight_example :
    (5_000_001 ≤ 1_000_000 + absolute_timeout_ms 1_000_000 0 5_000_001 9_000_000 * 1_000_000)
    × (1_000_000 + absolute_timeout_ms 1_000_000 0 5_000_001 9_000_000 * 1_000_000
        < 5_000_001 + 1_000_000)
absolute_timeout_ms_tight_example =
    absolute_timeout_ms_tight 1_000_000 0 5_000_001 9_000_000 5_000_001 second-IsEarliest
      (omega arith)
