-- ===== src/Session/Create.antt =====
-- src/session.c: `ankah_session_new_with_proof` and `ankah_session_accept_solved`.
use ankah.Prelude.{
  ℕ, zero, suc, ◌+◌, ◌*◌, ◌/◌, ◌%◌, ◌^◌, Bool, true, false, not, ◌&&◌, ◌||◌, List, [], ◌∷◌, ◌++◌,
  Option, none, some, ltb, leb, ◌==◌, if◌then◌else◌, length, drop, Bytes, codes, str_eq, is_empty,
}
use ankah.Prelude.Words.{add64, sub64}
use ankah.Prelude.Hex.{lower_digit, digit_char}
use ankah.Http.{Request, request_size, max_target}
use ankah.Session.Store.{
  Session, zeroed, Store, at, put, touch, max_pending_bytes, post_replay_max,
  max_anonymous_unsolved, max_anonymous_unsolved_per_ip,
}
use ankah.Session.Lifecycle.{expire}
use ankah.Session.Lookup.{session_find}

-- The digits of an id: the first eight are its time of issue.
unfoldable pub id_time : ℕ → ℕ → Bytes → Option ℕ
id_time i issued [] = some issued
id_time i issued (c ∷ cs) = elim (lower_digit c) [
  | none ↦ none
  | some digit ↦ id_time (suc i) (if ltb i 8 then issued * 16 + digit else issued) cs
]

-- The first slot that is free, once the sessions up to it are expired.
unfoldable pub free_loop : ℕ → ℕ → ℕ → Store → Store × Option ℕ
free_loop zero i now st = (st, none)
free_loop (suc n) i now st =
    let st' = expire now i st in
    let rest = free_loop n (suc i) now st' in if not (at st' i).active then (st', some i) else rest

-- A fresh session for a solution made elsewhere.
abbrev pub admitted : Bytes → Bytes → ℕ → Session
admitted host id issued = record zeroed { host = host; id = id; issued = issued; active = true }

-- The times and the target that the solution brings, and the return.
unfoldable pub mark_solved : ℕ → Option Bytes → Bool → Session → Session
mark_solved now target is_post s =
    let timed =
      if s.solved_until == 0
      then record s { solved_until = add64 now 1800; body_until = add64 now 300 }
      else s in
    elim target [
      | none ↦ timed
      | some t ↦
          if is_empty timed.target then record timed { target = t; is_post = is_post } else timed
    ]

unfoldable pub finish_solved : ℕ → Option Bytes → Bool → ℕ → Store → Store × Option ℕ
finish_solved now target is_post i st =
    (touch (put i (mark_solved now target is_post (at st i)) st), some i)

-- The free slot, if there is one, is filled first.
unfoldable pub fill_free :
    Bytes → ℕ → Option Bytes → Bool → Bytes → ℕ → Store × Option ℕ → Store × Option ℕ
fill_free id now target is_post host issued (st, none) = (st, none)
fill_free id now target is_post host issued (st, some i) =
    finish_solved now target is_post i (put i (admitted host id issued) st)

-- With no session of that id.
unfoldable pub admit_new : Bytes → ℕ → Option Bytes → Bool → Bytes → ℕ → Store → Store × Option ℕ
admit_new id now target is_post host issued st =
    fill_free id now target is_post host issued (free_loop (length st.sessions) 0 now st)

abbrev pub too_long_target : Option Bytes → Bool
too_long_target none = false
too_long_target (some t) = leb max_target (length t)

-- `session = ankah_session_find(id, now)` and what depends on it.
unfoldable pub admit_found :
    Bytes → ℕ → Option Bytes → Bool → Bytes → ℕ → Store × Option ℕ → Store × Option ℕ
admit_found id now target is_post host issued (st, none) =
    admit_new id now target is_post host issued st
admit_found id now target is_post host issued (st, some i) =
    if not (str_eq (at st i).host host) then (st, none) else finish_solved now target is_post i st

unfoldable pub session_accept_solved :
    Bytes → ℕ → Option Bytes → Bool → Bytes → Store → Store × Option ℕ
session_accept_solved id now target is_post host st =
    if is_empty host || leb 256 (length host) || not (length id == 32) || too_long_target target
    then (st, none)
    else elim (id_time 0 0 id) [
      | none ↦ (st, none)
      | some issued ↦
          if ltb (add64 now 30) issued || ltb (add64 issued 1800) now
          then (st, none)
          else admit_found id now target is_post host issued (session_find id now st)
    ]

-- The first loop of `new`: expire every session, and remember the first free slot.
unfoldable pub claim_loop : ℕ → ℕ → ℕ → Option ℕ → Store → Store × Option ℕ
claim_loop zero i now slot st = (st, slot)
claim_loop (suc n) i now slot st =
    let st' = expire now i st in
    claim_loop n (suc i) now
      (elim slot [ none ↦ if not (at st' i).active then some i else none | some j ↦ some j ]) st'

-- A session that counts towards the limits on visitors with neither a proof nor a solution.
unfoldable pub is_anonymous : Session → Bool
is_anonymous s = s.active && not s.issued_with_proof && s.solved_until == 0

-- The second loop: all of those, and those of one address.
unfoldable pub count_anonymous : List Session → ℕ
count_anonymous [] = 0
count_anonymous (s ∷ ss) = (if is_anonymous s then 1 else 0) + count_anonymous ss

unfoldable pub count_anonymous_for : Bytes → List Session → ℕ
count_anonymous_for peer_ip [] = 0
count_anonymous_for peer_ip (s ∷ ss) =
    (if is_anonymous s && str_eq s.peer_ip peer_ip then 1 else 0) + count_anonymous_for peer_ip ss

-- snprintf(time_hex, 9, "%08x", (uint32_t)now)
abbrev pub time_digit : ℕ → ℕ → ℕ
time_digit now k = digit_char (now % 2 ^ 32 / 16 ^ k % 16)

unfoldable pub time_hex : ℕ → Bytes
time_hex now =
    time_digit now 7
    ∷ time_digit now 6
    ∷ time_digit now 5
    ∷ time_digit now 4
    ∷ time_digit now 3
    ∷ time_digit now 2
    ∷ time_digit now 1
    ∷ time_digit now 0
    ∷ []

-- What `new` takes from outside this file: two texts of 32 random digits, each empty if there is no
-- randomness, the challenge for an id, and whether memory for a body can be had.
pub record Supply : Type 0 where
  pub id : Bytes
  pub token : Bytes
  pub challenge : Bytes → ℕ → Bytes → Option Bytes
  pub memory : Bool

unfoldable pub timed_id : ℕ → Bytes → Bytes
unfolding time_hex
timed_id now id = if is_empty id then id else time_hex now ++ drop 8 id

abbrev pub is_post_method : Request → Bool
is_post_method r = str_eq r.method (codes "POST")

-- The session as it stands once the challenge is made.
abbrev pub challenged : Bytes → ℕ → Request → Bytes → Bool → Supply → Bytes → Session
challenged host now request peer_ip proved supply text = record zeroed {
  host = host;
  id = timed_id now supply.id;
  token = supply.token;
  challenge = text;
  target = request.target;
  peer_ip = peer_ip;
  issued = now;
  issued_with_proof = proved;
  is_post = is_post_method request;
}

abbrev pub opened : Session → Session
opened s = record s { active = true }

abbrev pub opened_post : Request → Session → Session
opened_post request s = record s {
  saved_request = some request;
  body_size = request.content_length;
  active = true;
}

-- Once the challenge is made: room for the body of a POST, and the return.
unfoldable pub commit : Request → Supply → Session → ℕ → Store → Store × Option ℕ
commit request supply s i st =
    if not (is_post_method request)
    then (touch (put i (opened s) st), some i)
    else if not supply.memory
    then (put i zeroed st, none)
    else let bytes = request.content_length + request_size in
      let st' = put i (opened_post request s) st in
      (touch (record st' { pending_bytes = add64 st.pending_bytes bytes }), some i)

-- With the slot chosen and the limits met.
unfoldable pub fill_slot :
    Bytes → ℕ → Request → Bytes → Bool → Supply → ℕ → Store → Store × Option ℕ
fill_slot host now request peer_ip proved supply i st =
    let id = timed_id now supply.id in
    let named = record zeroed { host = host; id = id; token = supply.token } in
    if is_empty id || is_empty supply.token
    then (put i named st, none)
    else elim (supply.challenge host now id) [
      | none ↦ (put i named st, none)
      | some text ↦
          commit request supply (challenged host now request peer_ip proved supply text) i st
    ]

-- The conditions of the first two returns.
unfoldable pub is_rejected : Bytes → Request → Store → Bool
is_rejected host request st =
    is_empty host
    || leb 256 (length host)
    || (is_post_method request
        && (ltb post_replay_max request.content_length
            || ltb (sub64 max_pending_bytes st.pending_bytes)
                (request.content_length + request_size)))

unfoldable pub is_over_quota : Bool → Bytes → Store → Bool
is_over_quota proved peer_ip st =
    not proved
    && (leb max_anonymous_unsolved (count_anonymous st.sessions)
        || leb max_anonymous_unsolved_per_ip (count_anonymous_for peer_ip st.sessions))

unfoldable pub fill_claimed :
    Bytes → ℕ → Request → Bytes → Bool → Supply → Store × Option ℕ → Store × Option ℕ
fill_claimed host now request peer_ip proved supply (st, none) = (st, none)
fill_claimed host now request peer_ip proved supply (st, some i) =
    if is_over_quota proved peer_ip st
    then (st, none)
    else fill_slot host now request peer_ip proved supply i st

unfoldable pub session_new_with_proof :
    Bytes → ℕ → Request → Bytes → Bool → Supply → Store → Store × Option ℕ
session_new_with_proof host now request peer_ip proved supply st =
    if is_rejected host request st
    then (st, none)
    else fill_claimed host now request peer_ip proved supply
        (claim_loop (length st.sessions) 0 now none st)

unfoldable pub session_new : Bytes → ℕ → Request → Bytes → Supply → Store → Store × Option ℕ
session_new host now request peer_ip = session_new_with_proof host now request peer_ip false
