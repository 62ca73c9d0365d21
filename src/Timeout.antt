-- ===== src/Timeout.antt =====
-- include: src/timeout_policy.h, and `ankah_absolute_timeout_ms` of src/host.c. A deadline is a
-- time in nanoseconds, where 0 stands for none; the results are delays in milliseconds.
pub mod Bounds
mod Examples
use ankah.Prelude.{
  ℕ, ◌+◌, ◌-◌, ◌/◌, ◌%◌, ◌^◌, ◌<◌, Bool, true, not, ◌&&◌, ◌||◌, ltb, leb, ◌==◌, if◌then◌else◌,
}
use ankah.Prelude.Words.{add64}

-- The early one of two deadlines, where 0 is no deadline.
-- `if (next && (!deadline || next < deadline)) deadline = next;`
pub earlier : ℕ → ℕ → ℕ
earlier deadline next =
    if not (next == 0) && (deadline == 0 || ltb next deadline) then next else deadline

unfoldable pub absolute_timeout_ms : ℕ → ℕ → ℕ → ℕ → ℕ
unfolding earlier
absolute_timeout_ms now first second third =
    let deadline = earlier (earlier first second) third in
    if deadline == 0 || leb deadline now
    then 0
    else (deadline - now) / 1_000_000 + (if (deadline - now) % 1_000_000 == 0 then 0 else 1)

abbrev pub upload_reply_ns : ℕ
upload_reply_ns = 300_000_000_000

unfoldable pub reply_deadline_ns : ℕ → Bool → Bool → Bool → ℕ
reply_deadline_ns now large_body body_complete final_started =
    if large_body && body_complete && not final_started then add64 now upload_reply_ns else 0

-- `remaining = (deadline - now + 999999) / 1000000`, where the sum may wrap.
pub remaining_ms : ℕ → ℕ → ℕ
remaining_ms deadline now = add64 (deadline - now) 999_999 / 1_000_000

-- `return timeout ? timeout : 1`
pub at_least_one : ℕ → ℕ
at_least_one timeout = if timeout == 0 then 1 else timeout

unfoldable pub core_timeout_ms : ℕ → ℕ → ℕ → Bool → ℕ
unfolding earlier remaining_ms at_least_one
core_timeout_ms now request_deadline_ns reply_deadline_ns websocket =
    let timeout : ℕ = if websocket || not (reply_deadline_ns == 0) then 300_000 else 30_000 in
    let deadline = earlier request_deadline_ns reply_deadline_ns in
    if deadline == 0
    then at_least_one timeout
    else if leb deadline now
    then 0
    else at_least_one
        (if ltb (remaining_ms deadline now) timeout then remaining_ms deadline now else timeout)

unfoldable pub front_timeout_ms : Bool → Bool → ℕ → Bool → Bool → ℕ
front_timeout_ms handshake_complete protocol_h2 long_streams bridge_connected close_notify_started =
    if not handshake_complete
    then 10_000
    else if protocol_h2
    then if long_streams == 0 then 120_000 else 0
    else if bridge_connected && not close_notify_started
    then 300_000
    else 30_000
