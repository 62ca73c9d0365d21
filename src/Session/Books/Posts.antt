-- ===== src/Session/Books/Posts.antt =====
-- Reading, solving, reserving and taking keep the accounts.
use ankah.Prelude.{
  ℕ, ◌-◌, ◌^◌, ◌<◌, ◌≡◌, refl, inl, inr, Bool, true, false, not, ◌||◌, arith, Bool-cases, ◌==◌,
  length, length-append, set, Bytes, ltb,
}
use ankah.Prelude.Words.{add64}
use ankah.Session.Store.{Session, Store, at}
use ankah.Session.Lifecycle.{has_saved}
use ankah.Session.Create.{is_anonymous}
use ankah.Session.Replay.{
  session_append, session_solve, is_ready, session_reserve_post, session_unreserve_post,
  session_take_post, emptied, is_append_refused, appended, solved,
}
use ankah.Session.Books.{cost, SessionOk, Books, Books-write, NoMoreAnonymous}
use ankah.Session.Books.Ends.{at-SessionOk, uncharge-Books}

-- Writing a session with the same saved request, at the same charge.
recharged-Books :
    {n : ℕ} (st st' : Store) (i : ℕ) (v : Session)
    → i < n
    → Books n st
    → cost v ≡ cost (at st i)
    → SessionOk v
    → NoMoreAnonymous (at st i) v
    → st'.sessions ≡ set st.sessions i v
    → st'.pending_bytes ≡ st.pending_bytes
    → Books n st'
recharged-Books st st' i v h b same ok quiet w p =
    Books-write i v st' b h w (omega arith) (omega (arith, b.bounded)) ok quiet

module _ {n : ℕ} (st : Store) (i : ℕ) (h : i < n) (b : Books n st) where
  -- `SessionOk` does not look at the times or at the flag.
  solved-SessionOk : (now : ℕ) → SessionOk (solved now (at st i))
  solved-SessionOk now =
      let ok = at-SessionOk i b in
      record {
        saved_active = ok.saved_active;
        small = ok.small;
        fits = ok.fits;
        stored = ok.stored;
      }

  flagged-SessionOk : (f : Bool) → SessionOk (record (at st i) { consumption_pending = f })
  flagged-SessionOk f =
      let ok = at-SessionOk i b in
      record {
        saved_active = ok.saved_active;
        small = ok.small;
        fits = ok.fits;
        stored = ok.stored;
      }

  is_ready-saved :
      (token : Bytes) (now : ℕ) → is_ready (at st i) token now ≡ true → has_saved (at st i) ≡ true
  unfolding is_ready
  is_ready-saved token now e = ground arith

  appended-SessionOk :
      (bytes : Bytes)
      → is_append_refused (at st i) bytes ≡ false
      → SessionOk (appended (at st i) bytes)
  unfolding is_append_refused
  appended-SessionOk bytes room =
      let ok = at-SessionOk i b in
      record {
        saved_active = ok.saved_active;
        small = ok.small;
        fits = λ e. ground (arith, ok.fits, ok.small);
        stored = λ e. omega (arith, length-append (at st i).body bytes, ok.stored e);
      }

  pub session_append-Books : (bytes : Bytes) → Books n (session_append i bytes st).0
  unfolding session_append is_anonymous
  session_append-Books bytes = elim (Bool-cases (is_append_refused (at st i) bytes)) [
    | inl no_room ↦ rw no_room b
    | inr room ↦
        let v = appended (at st i) bytes in
        let ok = appended-SessionOk bytes room in
        rw room (elim (Bool-cases (length bytes == 0)) [
          | inl none_new ↦
              rw none_new (recharged-Books st _ i v h b refl ok (λ e. (e, refl)) refl refl)
          | inr some_new ↦
              rw some_new (recharged-Books st _ i v h b refl ok (λ e. (e, refl)) refl refl)
        ])
  ]

  pub session_solve-Books : (now : ℕ) → now < 2 ^ 64 - 1800 → Books n (session_solve i now st).0
  unfolding session_solve is_anonymous
  session_solve-Books now k =
      elim (Bool-cases (not (at st i).active || ltb (add64 (at st i).issued 300) now)) [
        | inl late ↦ rw late b
        | inr open_ ↦ rw open_ (
            recharged-Books st _ i (solved now (at st i)) h b refl (solved-SessionOk now)
              (λ e. ground arith) refl refl)
      ]

  pub session_reserve_post-Books :
      (token : Bytes) (now : ℕ) → Books n (session_reserve_post i token now st).0
  unfolding session_reserve_post is_anonymous
  session_reserve_post-Books token now =
      elim (Bool-cases (not (is_ready (at st i) token now) || (at st i).consumption_pending)) [
        | inl refused ↦ rw refused b
        | inr ready ↦ rw ready (
            recharged-Books st _ i (record (at st i) { consumption_pending = true }) h b refl
              (flagged-SessionOk true) (λ e. (e, refl)) refl refl)
      ]

  pub session_unreserve_post-Books : Books n (session_unreserve_post i st)
  unfolding session_unreserve_post is_anonymous
  session_unreserve_post-Books =
      recharged-Books st _ i (record (at st i) { consumption_pending = false }) h b refl
        (flagged-SessionOk false) (λ e. (e, refl)) refl refl

  pub session_take_post-Books :
      (token : Bytes) (now : ℕ) → Books n (session_take_post i token now st).0
  unfolding session_take_post is_anonymous
  session_take_post-Books token now = elim (Bool-cases (is_ready (at st i) token now)) [
    | inl ready ↦ rw ready (
        uncharge-Books st _ i (emptied (at st i)) h b (is_ready-saved token now ready) refl
          (λ e. (e, refl)) refl refl)
    | inr refused ↦ rw refused b
  ]
