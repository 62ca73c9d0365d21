-- ===== src/Session/Replay.antt =====
-- src/session.c: reading the body of a saved request, solving the challenge, and handing the saved
-- request on; the totals of the table.
use ankah.Prelude.{
  ℕ, ◌+◌, Bool, true, false, not, ◌&&◌, ◌||◌, [], ◌++◌, Option, none, some, ltb, ◌==◌,
  if◌then◌else◌, length, Bytes, str_eq, zero, suc,
}
use ankah.Prelude.Words.{add64, sub64}
use ankah.Http.{Request}
use ankah.Session.Store.{Session, Store, at, put, touch, max_sessions, max_pending_bytes}
use ankah.Session.Lifecycle.{has_saved, session_solved, expire, uncharge}

-- The results 1 and 0 of `ankah_session_append`, and -1.
pub data Appended : Type 0 where
  whole partial refused : Appended

-- `size > body_size - received` is a comparison of `size_t`.
unfoldable pub is_append_refused : Session → Bytes → Bool
is_append_refused s bytes =
    not s.active || not (has_saved s) || ltb (sub64 s.body_size s.received) (length bytes)

abbrev pub appended : Session → Bytes → Session
appended s bytes = record s { body = s.body ++ bytes; received = s.received + length bytes }

unfoldable pub session_append : ℕ → Bytes → Store → Store × Appended
session_append i bytes st =
    let s = appended (at st i) bytes in
    if is_append_refused (at st i) bytes then (st, refused) else (
      if length bytes == 0 then put i s st else touch (put i s st),
      if s.received == s.body_size then whole else partial,
    )

abbrev pub solved : ℕ → Session → Session
solved now s = record s { solved_until = add64 now 1800; body_until = add64 now 300 }

-- True where the function returns 0.
unfoldable pub session_solve : ℕ → ℕ → Store → Store × Bool
session_solve i now st =
    if not (at st i).active || ltb (add64 (at st i).issued 300) now
    then (st, false)
    else (touch (put i (solved now (at st i)) st), true)

-- The part of the conditions that `take_post` and `reserve_post` share.
unfoldable pub is_ready : Session → Bytes → ℕ → Bool
is_ready s token now =
    session_solved s now
    && has_saved s
    && not (ltb s.body_until now)
    && s.received == s.body_size
    && str_eq s.token token

unfoldable pub session_reserve_post : ℕ → Bytes → ℕ → Store → Store × Bool
session_reserve_post i token now st =
    if not (is_ready (at st i) token now) || (at st i).consumption_pending
    then (st, false)
    else (put i (record (at st i) { consumption_pending = true }) st, true)

unfoldable pub session_unreserve_post : ℕ → Store → Store
session_unreserve_post i st = put i (record (at st i) { consumption_pending = false }) st

-- What `take_post` hands over.
pub record Taken : Type 0 where
  pub request : Option Request
  pub body : Bytes
  pub size : ℕ

abbrev pub taken_from : Session → Taken
taken_from s = record { request = s.saved_request; body = s.body; size = s.body_size }

-- `received` keeps its value.
abbrev pub emptied : Session → Session
emptied s = record s {
  saved_request = none;
  body = [];
  body_size = 0;
  token = [];
  consumption_pending = false;
}

unfoldable pub session_take_post : ℕ → Bytes → ℕ → Store → Store × Option Taken
session_take_post i token now st =
    let s = at st i in
    if not (is_ready s token now)
    then (st, none)
    else (touch (put i (emptied s) (uncharge s st)), some (taken_from s))

unfoldable pub session_changed : Store → Bool
session_changed st = not (st.mutation == st.queued_mutation)

unfoldable pub session_snapshot_retry : Store → Store
session_snapshot_retry = touch

pub record Totals : Type 0 where
  pub active : ℕ
  pub solved : ℕ
  pub saved_posts : ℕ
  pub pending_bytes : ℕ
  pub capacity : ℕ
  pub pending_capacity : ℕ

abbrev bit : Bool → ℕ
bit b = if b then 1 else 0

-- One session that is active adds to the totals.
abbrev pub tally : Session → ℕ → Totals → Totals
tally s now t = if not s.active then t else record t {
  active = t.active + 1;
  solved = t.solved + bit (session_solved s now);
  saved_posts = t.saved_posts + bit (has_saved s);
}

unfoldable pub count_loop : ℕ → ℕ → ℕ → Totals → Store → Store × Totals
count_loop zero i now t st = (st, t)
count_loop (suc n) i now t st =
    let st' = expire now i st in count_loop n (suc i) now (tally (at st' i) now t) st'

abbrev pub no_totals : Totals
no_totals = record {
  active = 0;
  solved = 0;
  saved_posts = 0;
  pending_bytes = 0;
  capacity = max_sessions;
  pending_capacity = max_pending_bytes;
}

unfoldable pub session_count : ℕ → Store → Store × Totals
session_count now st =
    let (st', t) = count_loop (length st.sessions) 0 now no_totals st in
    (st', record t { pending_bytes = st'.pending_bytes })

module _ {ℓ} {A : Type ℓ} (visit : Session → A → A) where
  unfoldable pub each_loop : ℕ → ℕ → ℕ → A → Store → Store × A
  each_loop zero i now owner st = (st, owner)
  each_loop (suc n) i now owner st =
      let st' = expire now i st in
      let owner' = if session_solved (at st' i) now then visit (at st' i) owner else owner in
      each_loop n (suc i) now owner' st'

  -- `owner` is what `visit` may change.
  unfoldable pub session_each_solved : ℕ → A → Store → Store × A
  session_each_solved now owner st = each_loop (length st.sessions) 0 now owner st
