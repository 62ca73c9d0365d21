-- ===== src/Session/Books/New.antt =====
-- `ankah_session_new_with_proof` keeps the accounts.
use native.Mathlib.Nat.{le_trans}
use ankah.Prelude.{
  ℕ, zero, suc, ◌+◌, ◌≤◌, ◌<◌, ◌≡◌, refl, inl, inr, Bool, true, false, ◌||◌, Option, none, some,
  arith, Bool-cases, Option-cases, length, Bytes, is_empty,
}
use ankah.Prelude.Words.{add64}
use ankah.Http.{Request, request_size}
use ankah.Session.Store.{
  Session, zeroed, Store, at, put, touch, max_pending_bytes, post_replay_max,
  max_anonymous_unsolved, max_anonymous_unsolved_per_ip,
}
use ankah.Session.Lifecycle.{has_saved, release_post, session_discard, expire}
use ankah.Session.Create.{
  is_anonymous, claim_loop, count_anonymous, count_anonymous_for, Supply, is_post_method,
  challenged, opened, opened_post, commit, fill_slot, fill_claimed, is_rejected, is_over_quota,
  session_new_with_proof, timed_id,
}
use ankah.Session.Books.{Books, Books-write_new}
use ankah.Session.Books.Ends.{
  expire-Books, at-SessionOk, unsaved-Books, unsaved-SessionOk, uncharge-cost,
}
use ankah.Session.Books.Search.{FreeSlot, claim_loop-FreeSlot}
use ankah.Session.Books.Made.{idle_bare}

release_post-pending-le :
    {n : ℕ} (st : Store) (i : ℕ) → Books n st → (release_post i st).pending_bytes ≤ st.pending_bytes
unfolding release_post
release_post-pending-le st i b = elim (Bool-cases (has_saved (at st i))) [
  | inl saved ↦ rw saved (omega (arith, uncharge-cost i b saved))
  | inr none_saved ↦ rw none_saved (omega arith)
]

expire-pending-le :
    {n : ℕ} (now : ℕ) (st : Store) (i : ℕ)
    → Books n st
    → (expire now i st).pending_bytes ≤ st.pending_bytes
unfolding expire session_discard
expire-pending-le now st i b = ground (arith, release_post-pending-le st i b)

claim_loop-pending-le :
    {N : ℕ} (now n i : ℕ) (slot : Option ℕ) (st : Store)
    → i + n ≤ N
    → Books N st
    → (claim_loop n i now slot st).0.pending_bytes ≤ st.pending_bytes
unfolding claim_loop
claim_loop-pending-le now zero i slot st h b = omega arith
claim_loop-pending-le now (suc n) i slot st h b =
    le_trans
      (claim_loop-pending-le now n (suc i) _ (expire now i st) (omega arith)
        (expire-Books now st i (omega arith) b))
      (expire-pending-le now st i b)

-- The body of a POST may be saved within the limits.
abbrev Affordable : Request → Store → Type 0
Affordable request st =
    is_post_method request ≡ true
    → (request.content_length ≤ post_replay_max)
      × (st.pending_bytes + (request.content_length + request_size) ≤ max_pending_bytes)

is_rejected-Affordable :
    {N : ℕ} (host : Bytes) (request : Request) (st : Store) (later : Store)
    → Books N st
    → later.pending_bytes ≤ st.pending_bytes
    → is_rejected host request st ≡ false
    → Affordable request later
unfolding is_rejected
is_rejected-Affordable host request st later b le good post = ground (arith, b.bounded)

module _ {N : ℕ} (host : Bytes) (now : ℕ) (request : Request) (peer_ip : Bytes) (proved : Bool)
    (supply : Supply) where
  module _ (st : Store) (i : ℕ) (h : i < N) (b : Books N st) (idle : (at st i).active ≡ false) where
    bare : has_saved (at st i) ≡ false
    bare = idle_bare (at st i) (at-SessionOk i b) idle

    -- A slot that stays inactive.
    left_idle-Books : (v : Session) → v.active ≡ false → has_saved v ≡ false → Books N (put i v st)
    unfolding is_anonymous
    left_idle-Books v off none_saved =
        unsaved-Books st (put i v st) i v h b bare none_saved (λ e. ground arith) refl refl

    under_quota :
        (v : Session)
        → v.peer_ip ≡ peer_ip
        → v.issued_with_proof ≡ proved
        → is_over_quota proved peer_ip st ≡ false
        → is_anonymous v ≡ true
        → (count_anonymous st.sessions < max_anonymous_unsolved)
          × (count_anonymous_for v.peer_ip st.sessions < max_anonymous_unsolved_per_ip)
    unfolding is_over_quota is_anonymous
    under_quota v p q r e = rw p (ground (arith, q))

    module _ (quota : is_over_quota proved peer_ip st ≡ false) (paid : Affordable request st)
        (s : Session) (from_peer : s.peer_ip ≡ peer_ip) (with_proof : s.issued_with_proof ≡ proved)
        (no_request : has_saved s ≡ false) (no_body : length s.body ≡ s.received)
        (nothing : s.received ≡ 0) where
      opened-Books : Books N (touch (put i (opened s) st))
      opened-Books =
          Books-write_new i (opened s) _ b h refl (ground (arith, bare)) b.bounded
            (unsaved-SessionOk (opened s) no_request)
            (under_quota (opened s) from_peer with_proof quota)

      opened_post-Books :
          is_post_method request ≡ true
          → Books N (
              touch (record (put i (opened_post request s) st) {
                pending_bytes = add64 st.pending_bytes (request.content_length + request_size);
              }))
      opened_post-Books post =
          let v = opened_post request s in
          Books-write_new i v _ b h refl (ground (arith, bare, (paid post).1))
            (omega (arith, (paid post).1))
            (record {
              saved_active = λ e. refl;
              small = λ e. (paid post).0;
              fits = λ e. omega (arith, nothing);
              stored = λ e. no_body;
            })
            (under_quota v from_peer with_proof quota)

      commit-Books : Books N (commit request supply s i st).0
      unfolding commit
      commit-Books = elim (Bool-cases (is_post_method request)) [
        | inl post ↦ rw post (elim (Bool-cases supply.memory) [
          | inl room ↦ rw room (opened_post-Books post)
          | inr no_room ↦ rw no_room (left_idle-Books zeroed refl refl)
        ])
        | inr get ↦ rw get opened-Books
      ]

    fill_slot-Books :
        is_over_quota proved peer_ip st ≡ false
        → Affordable request st
        → Books N (fill_slot host now request peer_ip proved supply i st).0
    unfolding fill_slot
    fill_slot-Books quota paid =
        elim (Bool-cases (is_empty (timed_id now supply.id) || is_empty supply.token)) [
          | inl no_random ↦ rw no_random (left_idle-Books _ refl refl)
          | inr named ↦
              rw named (elim (Option-cases (supply.challenge host now (timed_id now supply.id))) [
                | inl no_text ↦ rw no_text (left_idle-Books _ refl refl)
                | inr (text, e) ↦ rw e (
                    commit-Books quota paid (challenged host now request peer_ip proved supply text)
                      refl refl refl refl refl)
              ])
        ]

  fill_claimed-Books :
      (r : Store × Option ℕ)
      → FreeSlot N r
      → Affordable request r.0
      → Books N (fill_claimed host now request peer_ip proved supply r).0
  unfolding fill_claimed
  fill_claimed-Books (st, none) b paid = b
  fill_claimed-Books (st, some i) (b, h, idle) paid =
      elim (Bool-cases (is_over_quota proved peer_ip st)) [
        | inl over ↦ rw over b
        | inr under ↦ rw under (fill_slot-Books st i h b idle under paid)
      ]

  pub session_new_with_proof-Books :
      (st : Store)
      → Books N st
      → Books N (session_new_with_proof host now request peer_ip proved supply st).0
  unfolding session_new_with_proof
  session_new_with_proof-Books st b = elim (Bool-cases (is_rejected host request st)) [
    | inl bad ↦ rw bad b
    | inr good ↦ rw good (
        fill_claimed-Books (claim_loop (length st.sessions) 0 now none st)
          (claim_loop-FreeSlot now (length st.sessions) 0 none st (omega (arith, b.size)) b)
          (is_rejected-Affordable host request st (claim_loop (length st.sessions) 0 now none st).0
            b (claim_loop-pending-le now (length st.sessions) 0 none st (omega (arith, b.size)) b)
            good))
  ]
