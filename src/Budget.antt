-- ===== src/Budget.antt =====
-- src/host.c, `ankah_queue_*`: the shared byte budgets of queued requests and responses; and
-- include: src/h2_flow_policy.h, the flow-control queue of HTTP/2 request bodies.
pub mod Ledger
pub mod Flow
mod Examples
use ankah.Prelude.{
  ℕ, ◌+◌, ◌-◌, ◌*◌, Bool, true, false, not, ◌&&◌, ◌||◌, ltb, leb, ◌==◌, if◌then◌else◌,
}
use ankah.Prelude.Words.{size_max, sub64}

-- One element of the arrays `queue_limit`, `queue_used` and `queue_high`.
pub record Queue : Type 0 where
  pub limit : ℕ
  pub used : ℕ
  pub high : ℕ

-- Index 0 is the request queue, index 1 the response queue.
pub record Queues : Type 0 where
  pub request : Queue
  pub response : Queue

abbrev pub select : Bool → Queues → Queue
select response q = if response then q.response else q.request

abbrev update : Bool → Queues → Queue → Queues
update response q v = if response then record q { response = v } else record q { request = v }

unfoldable pub queue_limits : ℕ → ℕ → Queues → Queues
queue_limits request_limit response_limit q = record {
  request = record q.request { limit = request_limit };
  response = record q.response { limit = response_limit };
}

-- The condition on which `ankah_queue_reserve` returns -1.
pub is_refused : Queue → ℕ → Bool
is_refused q bytes =
    ltb (size_max - q.used) bytes
    || (not (q.limit == 0) && (ltb q.limit q.used || ltb (q.limit - q.used) bytes))

-- `queue_used[i] += bytes;` and the high-water mark
pub charge : Queue → ℕ → Queue
charge q bytes =
    let used = q.used + bytes in
    record q { used = used; high = if ltb q.high used then used else q.high }

-- The Boolean is true where the function returns 0.
unfoldable pub queue_reserve : Bool → ℕ → Queues → Queues × Bool
unfolding is_refused charge
queue_reserve response bytes q =
    if is_refused (select response q) bytes
    then (q, false)
    else (update response q (charge (select response q) bytes), true)

unfoldable pub queue_release : Bool → ℕ → Queues → Queues
queue_release response bytes q =
    let v = select response q in update response q (record v { used = sub64 v.used bytes })

unfoldable pub queue_current : Bool → Queues → ℕ
queue_current response q = (select response q).used

unfoldable pub queue_peak : Bool → Queues → ℕ
queue_peak response q = (select response q).high

abbrev pub stream_window : ℕ
stream_window = 512 * 1024

abbrev pub request_queue_total : ℕ
request_queue_total = 128 * 1024 * 1024

unfoldable pub end_stream_length_error : Bool → Bool → ℕ → ℕ → Bool
end_stream_length_error has_content_length request_stopped received declared =
    has_content_length && not request_stopped && not (received == declared)

unfoldable pub queue_has_room : ℕ → ℕ → ℕ → Bool
queue_has_room stream_queued total_queued incoming =
    leb stream_queued stream_window
    && leb incoming (stream_window - stream_queued)
    && leb total_queued request_queue_total
    && leb incoming (request_queue_total - total_queued)

-- The new total, and whether the bytes were taken.
unfoldable pub h2_queue_reserve : ℕ → ℕ → ℕ → ℕ × Bool
unfolding queue_has_room
h2_queue_reserve total_queued stream_queued incoming =
    if not (queue_has_room stream_queued total_queued incoming)
    then (total_queued, false)
    else (total_queued + incoming, true)

unfoldable pub h2_queue_release : ℕ → ℕ → ℕ
h2_queue_release total_queued released =
    total_queued - (if leb released total_queued then released else total_queued)
