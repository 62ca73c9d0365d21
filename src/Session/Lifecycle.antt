-- ===== src/Session/Lifecycle.antt =====
-- src/session.c: how a saved request and a session end.
use ankah.Prelude.{
  ℕ, zero, suc, length, ◌+◌, Bool, true, false, not, ◌&&◌, ◌||◌, [], none, some, ltb, ◌==◌,
  if◌then◌else◌,
}
use ankah.Prelude.Words.{add64, sub64}
use ankah.Http.{request_size}
use ankah.Session.Store.{Session, zeroed, Store, at, put, touch}

-- `session->saved_request`, as a test
abbrev pub has_saved : Session → Bool
has_saved s = elim s.saved_request [ none ↦ false | some r ↦ true ]

abbrev pub released : Session → Session
released s = record s {
  saved_request = none;
  body = [];
  body_size = 0;
  received = 0;
  token = [];
  consumption_pending = false;
}

-- Takes the bytes of a saved request off the account.
abbrev pub uncharge : Session → Store → Store
uncharge s st = record st { pending_bytes = sub64 st.pending_bytes (s.body_size + request_size) }

unfoldable pub release_post : ℕ → Store → Store
release_post i st =
    if not (has_saved (at st i))
    then st
    else touch (put i (released (at st i)) (uncharge (at st i) st))

unfoldable pub session_cancel_post : ℕ → Store → Store
session_cancel_post = release_post

-- The loop from index `i`, with `n` sessions left.
unfoldable pub discard_saved_loop : ℕ → ℕ → Store → Store
discard_saved_loop zero i st = st
discard_saved_loop (suc n) i st = discard_saved_loop n (suc i) (release_post i st)

unfoldable pub session_discard_saved_posts : Store → Store
session_discard_saved_posts st = discard_saved_loop (length st.sessions) 0 st

unfoldable pub session_discard : ℕ → Store → Store
session_discard i st = touch (put i zeroed (release_post i st))

-- The visitor has not solved the challenge in time, or the solution has run out.
unfoldable pub is_expired : Session → ℕ → Bool
is_expired s now =
    (s.solved_until == 0 && ltb (add64 s.issued 300) now)
    || (not (s.solved_until == 0) && ltb s.solved_until now)

unfoldable pub expire : ℕ → ℕ → Store → Store
expire now i st =
    let s = at st i in
    if not s.active
    then st
    else if is_expired s now
    then session_discard i st
    else if has_saved s && not (s.solved_until == 0) && ltb s.body_until now
    then release_post i st
    else st

unfoldable pub session_solved : Session → ℕ → Bool
session_solved s now = s.active && not (ltb s.solved_until now) && not (s.solved_until == 0)
