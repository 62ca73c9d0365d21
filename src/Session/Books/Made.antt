-- ===== src/Session/Books/Made.antt =====
-- Making sessions keeps the accounts.
use mathlib.Core.Bool.{false≢true}
use ankah.Prelude.{
  ℕ, ◌-◌, ◌^◌, ◌<◌, ◌≡◌, refl, sym, ◌∙◌, inl, inr, Bool, false, not, ◌||◌, Option, none, some,
  arith, Bool-cases, Option-cases, ◌==◌, length, set-set, get_or-set_self, Bytes, str_eq, ltb, leb,
  is_empty,
}
use ankah.Prelude.Words.{add64}
use ankah.Session.Store.{Session, zeroed, Store, at, put}
use ankah.Session.Lifecycle.{has_saved}
use ankah.Session.Create.{
  is_anonymous, id_time, admitted, mark_solved, finish_solved, fill_free, too_long_target,
  admit_new, admit_found, session_accept_solved,
}
use ankah.Session.Books.{cost, SessionOk, Books, Books-write}
use ankah.Session.Books.Ends.{at-SessionOk, unsaved-Books}
use ankah.Session.Books.Search.{FoundSlot, session_find-FoundSlot, FreeSlot, free_loop-FreeSlot}

-- The fields that the accounts look at.
record SamePost (s v : Session) : Type 0 where
  saved : has_saved v ≡ has_saved s
  size : v.body_size ≡ s.body_size
  got : v.received ≡ s.received
  bytes : length v.body ≡ length s.body
  on : v.active ≡ s.active

mark_solved-SamePost :
    (now : ℕ) (target : Option Bytes) (is_post : Bool) (s : Session)
    → SamePost s (mark_solved now target is_post s)
unfolding mark_solved
mark_solved-SamePost now target is_post s = record {
  saved = ground arith;
  size = ground arith;
  got = ground arith;
  bytes = ground arith;
  on = ground arith;
}

SamePost-cost : {s v : Session} → SamePost s v → cost v ≡ cost s
SamePost-cost p = rw (p.saved, p.size)

SamePost-SessionOk : {s v : Session} → SamePost s v → SessionOk s → SessionOk v
SamePost-SessionOk p ok = record {
  saved_active = λ e. p.on ∙ ok.saved_active (sym p.saved ∙ e);
  small = λ e. rw p.size (ok.small (sym p.saved ∙ e));
  fits = λ e. rw (p.size, p.got) (ok.fits (sym p.saved ∙ e));
  stored = λ e. rw (p.bytes, p.got) (ok.stored (sym p.saved ∙ e));
}

mark_solved_quiet :
    (now : ℕ) (target : Option Bytes) (is_post : Bool) (s : Session)
    → now < 2 ^ 64 - 1800
    → is_anonymous (mark_solved now target is_post s) ≡ false
unfolding mark_solved is_anonymous
mark_solved_quiet now target is_post s h = ground arith

-- An inactive session that is in order has nothing saved.
pub idle_bare : (s : Session) → SessionOk s → s.active ≡ false → has_saved s ≡ false
idle_bare s ok e = ground (arith, ok.saved_active)

module _ {N : ℕ} (now : ℕ) (in_time : now < 2 ^ 64 - 1800) (target : Option Bytes)
    (is_post : Bool) where
  finish_solved-Books :
      (st : Store) (i : ℕ) → i < N → Books N st → Books N (finish_solved now target is_post i st).0
  unfolding finish_solved
  finish_solved-Books st i h b =
      let same = mark_solved-SamePost now target is_post (at st i) in
      Books-write i (mark_solved now target is_post (at st i)) _ b h refl
        (omega (arith, SamePost-cost same)) b.bounded (SamePost-SessionOk same (at-SessionOk i b))
        (λ e.
          absurd (false≢true (sym (mark_solved_quiet now target is_post (at st i) in_time) ∙ e)))

  -- The free slot is filled and then marked: together, one write over an inactive session.
  fill_solved-Books :
      (host id : Bytes) (issued : ℕ) (st : Store) (i : ℕ)
      → i < N
      → (at st i).active ≡ false
      → Books N st
      → Books N (finish_solved now target is_post i (put i (admitted host id issued) st)).0
  unfolding finish_solved
  fill_solved-Books host id issued st i h idle b =
      let filled =
        get_or-set_self st.sessions i (admitted host id issued) zeroed (omega (arith, b.size)) in
      let v = mark_solved now target is_post (admitted host id issued) in
      let same = mark_solved-SamePost now target is_post (admitted host id issued) in
      rw filled (
        unsaved-Books st _ i v h b (idle_bare (at st i) (at-SessionOk i b) idle) same.saved
          (λ e. absurd (
            false≢true
              (sym (mark_solved_quiet now target is_post (admitted host id issued) in_time) ∙ e)))
          (set-set st.sessions i (admitted host id issued) v) refl)

  fill_free-Books :
      (id host : Bytes) (issued : ℕ) (r : Store × Option ℕ)
      → FreeSlot N r
      → Books N (fill_free id now target is_post host issued r).0
  unfolding fill_free
  fill_free-Books id host issued (st, none) b = b
  fill_free-Books id host issued (st, some i) (b, h, idle) =
      fill_solved-Books host id issued st i h idle b

  admit_found-Books :
      (id host : Bytes) (issued : ℕ) (r : Store × Option ℕ)
      → FoundSlot N r
      → Books N (admit_found id now target is_post host issued r).0
  unfolding admit_found admit_new
  admit_found-Books id host issued (st, none) b =
      fill_free-Books id host issued _
        (free_loop-FreeSlot now (length st.sessions) 0 st (omega (arith, b.size)) b)
  admit_found-Books id host issued (st, some i) (b, h) =
      elim (Bool-cases (not (str_eq (at st i).host host))) [
        | inl other ↦ rw other b
        | inr same ↦ rw same (finish_solved-Books st i h b)
      ]

  pub session_accept_solved-Books :
      (id host : Bytes) (st : Store)
      → Books N st
      → Books N (session_accept_solved id now target is_post host st).0
  unfolding session_accept_solved
  session_accept_solved-Books id host st b =
      elim (Bool-cases (
        is_empty host
        || leb 256 (length host)
        || not (length id == 32)
        || too_long_target target)) [
          | inl bad ↦ rw bad b
          | inr good ↦ rw good (elim (Option-cases (id_time 0 0 id)) [
            | inl no_time ↦ rw no_time b
            | inr (issued, e) ↦
                rw e (elim (Bool-cases (ltb (add64 now 30) issued || ltb (add64 issued 1800) now)) [
                  | inl stale ↦ rw stale b
                  | inr in_window ↦
                      rw in_window
                        (admit_found-Books id host issued _ (session_find-FoundSlot now id st b))
                ])
          ])
        ]
