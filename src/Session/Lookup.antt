-- ===== src/Session/Lookup.antt =====
-- src/session.c: finding a session by its id. Each search expires the sessions that it passes.
use ankah.Prelude.{
  ℕ, zero, suc, not, ◌&&◌, Option, none, some, ◌==◌, if◌then◌else◌, length, Bytes, str_eq,
}
use ankah.Session.Store.{Store, at}
use ankah.Session.Lifecycle.{expire}

-- The loop from index `i`, with `n` sessions left.
unfoldable pub find_loop : ℕ → ℕ → Bytes → ℕ → Store → Store × Option ℕ
find_loop zero i id now st = (st, none)
find_loop (suc n) i id now st =
    let st' = expire now i st in
    let rest = find_loop n (suc i) id now st' in
    if (at st' i).active && str_eq (at st' i).id id then (st', some i) else rest

-- A null pointer is `none`.
unfoldable pub session_find : Bytes → ℕ → Store → Store × Option ℕ
session_find id now st =
    if not (length id == 32) then (st, none) else find_loop (length st.sessions) 0 id now st

-- `session && host && !strcmp(session->host, host) ? session : NULL`
abbrev pub of_host : Bytes → Store → Option ℕ → Option ℕ
of_host host st none = none
of_host host st (some i) = if str_eq (at st i).host host then some i else none

unfoldable pub session_find_host : Bytes → ℕ → Bytes → Store → Store × Option ℕ
session_find_host id now host st =
    let (st', found) = session_find id now st in (st', of_host host st' found)
