-- ===== src/Session/Handing.antt =====
-- How the body of a saved request is read, and how the request is handed on.
use mathlib.Core.List.{append_assoc}
use ankah.Prelude.{
  ◌≢◌, ℕ, ◌+◌, ◌≤◌, ◌<◌, ◌≡◌, refl, sym, ap, ◌∙◌, inl, inr, ◌⊎◌, true, false, if◌then◌else◌, none,
  some, some-injective, arith, Bool-cases, length, length-append, get_or-set_self, str_eq_iff,
  Bytes, ◌++◌, ◌==◌, subst,
}
use ankah.Session.Store.{Session, zeroed, Store, at, post_replay_max}
use ankah.Session.Lifecycle.{has_saved, session_solved}
use ankah.Session.Replay.{
  Appended, whole, partial, refused, is_append_refused, appended, session_append, is_ready, Taken,
  taken_from, emptied, session_take_post, session_reserve_post,
}
use ankah.Session.Books.{Books}
use ankah.Session.Books.Posts.{session_append-Books}
use ankah.Session.Books.Ends.{at-SessionOk}

-- The conditions under which the saved request of a session is handed on, as propositions.
pub record Ready (token : Bytes) (now : ℕ) (s : Session) : Type 0 where
  pub solved : session_solved s now ≡ true
  pub saved : has_saved s ≡ true
  pub in_time : now ≤ s.body_until
  pub all_read : s.received ≡ s.body_size
  pub same_token : s.token ≡ token

is_ready-Ready :
    (s : Session) (token : Bytes) (now : ℕ) → is_ready s token now ≡ true → Ready token now s
unfolding is_ready
is_ready-Ready s token now e = record {
  solved = ground arith;
  saved = ground arith;
  in_time = ground arith;
  all_read = ground arith;
  same_token = (str_eq_iff s.token token).0 (ground arith);
}

emptied-unready : (s : Session) (token : Bytes) (now : ℕ) → is_ready (emptied s) token now ≡ false
unfolding is_ready
emptied-unready s token now = ground arith

unready_take :
    (st : Store) (i : ℕ) (token : Bytes) (now : ℕ)
    → is_ready (at st i) token now ≡ false
    → (session_take_post i token now st).1 ≡ none
unfolding session_take_post
unready_take st i token now e = rw e refl

unready_reserve :
    (st : Store) (i : ℕ) (token : Bytes) (now : ℕ)
    → is_ready (at st i) token now ≡ false
    → (session_reserve_post i token now st).1 ≡ false
unfolding session_reserve_post
unready_reserve st i token now e = rw e refl

module _ (st : Store) (i : ℕ) (h : i < length st.sessions) (token : Bytes) (now : ℕ) where
  take_post-at :
      is_ready (at st i) token now ≡ true
      → at (session_take_post i token now st).0 i ≡ emptied (at st i)
  unfolding session_take_post
  take_post-at ready = rw ready (get_or-set_self st.sessions i (emptied (at st i)) zeroed h)

  -- The saved request is handed over.
  take_post-Ready :
      (t : Taken)
      → (session_take_post i token now st).1 ≡ some t
      → (is_ready (at st i) token now ≡ true) × (taken_from (at st i) ≡ t)
  unfolding session_take_post
  take_post-Ready t = elim (Bool-cases (is_ready (at st i) token now)) [
    | inl ready ↦ rw ready (λ e. (refl, some-injective (taken_from (at st i)) t e))
    | inr other ↦ rw other (λ e. cc)
  ]

  take_post-again :
      is_ready (at st i) token now ≡ true
      → (token2 : Bytes) (now2 : ℕ)
      → (session_take_post i token2 now2 (session_take_post i token now st).0).1 ≡ none
  take_post-again ready token2 now2 =
      unready_take (session_take_post i token now st).0 i token2 now2 (
        ap (λ s. is_ready s token2 now2) (take_post-at ready)
        ∙ emptied-unready (at st i) token2 now2)

  take_reserve_again :
      is_ready (at st i) token now ≡ true
      → (token2 : Bytes) (now2 : ℕ)
      → (session_reserve_post i token2 now2 (session_take_post i token now st).0).1 ≡ false
  take_reserve_again ready token2 now2 =
      unready_reserve (session_take_post i token now st).0 i token2 now2 (
        ap (λ s. is_ready s token2 now2) (take_post-at ready)
        ∙ emptied-unready (at st i) token2 now2)

-- A call of `take_post`, on a table in order, that hands a request over: the session was active,
-- its challenge solved and the solution still good, the time for the body not over, the body wholly
-- read and the token right; the request and the body are those of the session and the body has the
-- size that is reported; and no later call of `take_post` or `reserve_post` for that session, right
-- after it, succeeds, for whichever token and time.
pub session_take_post_once :
    {n : ℕ} (st : Store) (i : ℕ) (token : Bytes) (now : ℕ) (t : Taken) (token2 : Bytes) (now2 : ℕ)
    → Books n st
    → i < n
    → (session_take_post i token now st).1 ≡ some t
    → Ready token now (at st i)
      × (t ≡ taken_from (at st i))
      × (length t.body ≡ t.size)
      × ((session_take_post i token2 now2 (session_take_post i token now st).0).1 ≡ none)
      × ((session_reserve_post i token2 now2 (session_take_post i token now st).0).1 ≡ false)
session_take_post_once st i token now t token2 now2 b h e =
    let lt : i < length st.sessions = omega (arith, b.size) in
    let (ready, same) = take_post-Ready st i lt token now t e in
    let r = is_ready-Ready (at st i) token now ready in
    let ok = at-SessionOk i b in
    (
      r,
      sym same,
      subst (λ t. length t.body ≡ t.size) same (omega (arith, ok.stored r.saved, r.all_read)),
      take_post-again st i lt token now ready token2 now2,
      take_reserve_again st i lt token now ready token2 now2,
    )

append-at :
    (st : Store) (i : ℕ) (bytes : Bytes)
    → i < length st.sessions
    → is_append_refused (at st i) bytes ≡ false
    → at (session_append i bytes st).0 i ≡ appended (at st i) bytes
unfolding session_append
append-at st i bytes h e = rw e (elim (Bool-cases (length bytes == 0)) [
  | inl none_read ↦ rw none_read (get_or-set_self st.sessions i (appended (at st i) bytes) zeroed h)
  | inr some_read ↦ rw some_read (get_or-set_self st.sessions i (appended (at st i) bytes) zeroed h)
])

abbrev verdict : ℕ → ℕ → Appended
verdict received size = if received == size then whole else partial

append-saved :
    (s : Session) (bytes : Bytes) → is_append_refused s bytes ≡ false → has_saved s ≡ true
unfolding is_append_refused
append-saved s bytes room = ground arith

append-result :
    (st : Store) (i : ℕ) (bytes : Bytes)
    → is_append_refused (at st i) bytes ≡ false
    → (session_append i bytes st).1
      ≡ verdict ((at st i).received + length bytes) (at st i).body_size
unfolding session_append
append-result st i bytes e = rw e refl

append_refused :
    (st : Store) (i : ℕ) (bytes : Bytes)
    → is_append_refused (at st i) bytes ≡ true
    → (session_append i bytes st).1 ≡ refused
unfolding session_append
append_refused st i bytes e = rw e refl

append-accepted :
    (st : Store) (i : ℕ) (bytes : Bytes)
    → (session_append i bytes st).1 ≢ refused
    → is_append_refused (at st i) bytes ≡ false
append-accepted st i bytes ne = elim (Bool-cases (is_append_refused (at st i) bytes)) [
  | inl no_room ↦ absurd (ne (append_refused st i bytes no_room))
  | inr room ↦ room
]

-- Refusing the second part is refusing both together.
refused-appended :
    (s : Session) (xs ys : Bytes)
    → s.received ≤ s.body_size
    → s.body_size ≤ post_replay_max
    → is_append_refused s xs ≡ false
    → is_append_refused (appended s xs) ys ≡ is_append_refused s (xs ++ ys)
unfolding is_append_refused
refused-appended s xs ys le small room = ground (arith, length-append xs ys)

appended-append :
    (s : Session) (xs ys : Bytes) → appended (appended s xs) ys ≡ appended s (xs ++ ys)
appended-append s xs ys = rw (append_assoc s.body xs ys) (
    ap (λ n. record s { body = s.body ++ (xs ++ ys); received = n })
      (omega (arith, length-append xs ys)))

-- A part of a body that is accepted, and what comes after it: the result is that of both in one
-- call, and unless it is a refusal the session is the same, the body being all parts in order.
pub session_append-append :
    {n : ℕ} (st : Store) (i : ℕ) (xs ys : Bytes)
    → Books n st
    → i < n
    → (session_append i xs st).1 ≢ refused
    → ((session_append i ys (session_append i xs st).0).1 ≡ (session_append i (xs ++ ys) st).1)
      × (((session_append i ys (session_append i xs st).0).1 ≡ refused)
          ⊎ (at (session_append i ys (session_append i xs st).0).0 i
              ≡ at (session_append i (xs ++ ys) st).0 i))
session_append-append st i xs ys b h ne =
    let lt : i < length st.sessions = omega (arith, b.size) in
    let room = append-accepted st i xs ne in
    let st' = (session_append i xs st).0 in
    let after = append-at st i xs lt room in
    let saved = append-saved (at st i) xs room in
    let ok = at-SessionOk i b in
    let lt' : i < length st'.sessions = omega (arith, (session_append-Books st i h b xs).size) in
    let both : is_append_refused (at st' i) ys ≡ is_append_refused (at st i) (xs ++ ys) =
      ap (λ s. is_append_refused s ys) after
      ∙ refused-appended (at st i) xs ys (ok.fits saved) (ok.small saved) room in
    elim (Bool-cases (is_append_refused (at st i) (xs ++ ys))) [
      | inl bad ↦ (
        append_refused st' i ys (both ∙ bad) ∙ sym (append_refused st i (xs ++ ys) bad),
        inl (append_refused st' i ys (both ∙ bad)),
      )
      | inr good ↦ (
        append-result st' i ys (both ∙ good)
            ∙ ap (λ s. verdict (s.received + length ys) s.body_size) after
            ∙ ap (λ k. verdict k (at st i).body_size) (omega (arith, length-append xs ys))
            ∙ sym (append-result st i (xs ++ ys) good),
        inr (
            append-at st' i ys lt' (both ∙ good)
            ∙ ap (λ s. appended s ys) after
            ∙ appended-append (at st i) xs ys
            ∙ sym (append-at st i (xs ++ ys) lt good)),
      )
    ]
