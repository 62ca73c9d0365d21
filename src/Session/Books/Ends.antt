-- ===== src/Session/Books/Ends.antt =====
-- Ending a saved request or a session keeps the accounts.
use mathlib.Core.Bool.{false≢true}
use ankah.Prelude.{
  ℕ, ◌+◌, ◌<◌, ◌≡◌, refl, sym, ◌∙◌, inl, inr, true, false, arith, Bool-cases, length, set,
  get_or-set_self,
}
use ankah.Session.Store.{Session, zeroed, Store, at}
use ankah.Session.Lifecycle.{has_saved, released, uncharge, release_post, session_discard, expire}
use ankah.Session.Create.{is_anonymous}
use ankah.Session.Books.{
  cost, SessionOk, Books, All-get_or, cost-le-charged, Books-write, NoMoreAnonymous,
}

-- Taking a saved request off the account gives back what it was charged.
pub uncharge-cost :
    {n : ℕ} {st : Store} (i : ℕ)
    → Books n st
    → has_saved (at st i) ≡ true
    → (uncharge (at st i) st).pending_bytes + cost (at st i) ≡ st.pending_bytes
uncharge-cost {st} i b h = ground (arith, cost-le-charged st.sessions i, b.bounded, b.exact)

pub at-SessionOk : {n : ℕ} {st : Store} (i : ℕ) → Books n st → SessionOk (at st i)
at-SessionOk {st} i b = All-get_or st.sessions i b.each

-- A session with nothing saved is in order.
pub unsaved-SessionOk : (s : Session) → has_saved s ≡ false → SessionOk s
unsaved-SessionOk s h = record {
  saved_active = λ e. absurd (false≢true (sym h ∙ e));
  small = λ e. absurd (false≢true (sym h ∙ e));
  fits = λ e. absurd (false≢true (sym h ∙ e));
  stored = λ e. absurd (false≢true (sym h ∙ e));
}

-- Giving up the saved request of a session, and writing any session `v` with nothing saved there.
pub uncharge-Books :
    {n : ℕ} (st st' : Store) (i : ℕ) (v : Session)
    → i < n
    → Books n st
    → has_saved (at st i) ≡ true
    → has_saved v ≡ false
    → NoMoreAnonymous (at st i) v
    → st'.sessions ≡ set st.sessions i v
    → st'.pending_bytes ≡ (uncharge (at st i) st).pending_bytes
    → Books n st'
uncharge-Books st st' i v h b saved empty quiet w p =
    let fewer = uncharge-cost i b saved in
    Books-write i v st' b h w (ground arith) (omega (arith, b.bounded)) (unsaved-SessionOk v empty)
      quiet

-- Writing a session with nothing saved over another such.
pub unsaved-Books :
    {n : ℕ} (st st' : Store) (i : ℕ) (v : Session)
    → i < n
    → Books n st
    → has_saved (at st i) ≡ false
    → has_saved v ≡ false
    → NoMoreAnonymous (at st i) v
    → st'.sessions ≡ set st.sessions i v
    → st'.pending_bytes ≡ st.pending_bytes
    → Books n st'
unsaved-Books st st' i v h b bare empty quiet w p =
    Books-write i v st' b h w (ground arith) (omega (arith, b.bounded)) (unsaved-SessionOk v empty)
      quiet

pub release_post-Books :
    {n : ℕ} (st : Store) (i : ℕ) → i < n → Books n st → Books n (release_post i st)
unfolding release_post is_anonymous
release_post-Books {n} st i h b = elim (Bool-cases (has_saved (at st i))) [
  | inl saved ↦
      rw saved
        (uncharge-Books st _ i (released (at st i)) h b saved refl (λ e. (e, refl)) refl refl)
  | inr none_saved ↦ rw none_saved b
]

-- After the release nothing is saved in the slot.
release_post-bare :
    (st : Store) (i : ℕ) → i < length st.sessions → has_saved (at (release_post i st) i) ≡ false
unfolding release_post
release_post-bare st i h = elim (Bool-cases (has_saved (at st i))) [
  | inl saved ↦ rw saved (rw (get_or-set_self st.sessions i (released (at st i)) zeroed h))
  | inr none_saved ↦ rw none_saved none_saved
]

pub session_discard-Books :
    {n : ℕ} (st : Store) (i : ℕ) → i < n → Books n st → Books n (session_discard i st)
unfolding session_discard is_anonymous
session_discard-Books st i h b =
    let after = release_post-Books st i h b in
    unsaved-Books (release_post i st) _ i zeroed h after
      (release_post-bare st i (omega (arith, b.size))) refl (λ e. absurd (false≢true e)) refl refl

pub expire-Books :
    {n : ℕ} (now : ℕ) (st : Store) (i : ℕ) → i < n → Books n st → Books n (expire now i st)
unfolding expire
expire-Books now st i h b =
    ground (arith, session_discard-Books st i h b, release_post-Books st i h b)
