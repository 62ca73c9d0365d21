-- ===== src/Session/Books.antt =====
-- The accounts of the table: the bytes of the saved requests, and the visitors without a proof.
pub mod Ends
pub mod Search
pub mod Posts
pub mod Made
pub mod New
pub mod History
use ankah.Prelude.{
  ℕ, zero, suc, ◌+◌, ◌≤◌, ◌<◌, ◌≡◌, refl, ap, Bool, true, false, List, [], ◌∷◌, arith,
  if◌then◌else◌, length, length-set, get_or, set, All, All-set, Bytes, str_eq, str_eq_iff, ◌&&◌,
}
use native.Mathlib.Nat.{le_trans}
use ankah.Http.{request_size}
use ankah.Session.Store.{
  Session, zeroed, Store, at, max_pending_bytes, post_replay_max, max_anonymous_unsolved,
  max_anonymous_unsolved_per_ip,
}
use ankah.Session.Lifecycle.{has_saved}
use ankah.Session.Create.{is_anonymous, count_anonymous, count_anonymous_for}

-- What a session adds to `pending_bytes`.
abbrev pub cost : Session → ℕ
cost s = if has_saved s then s.body_size + request_size else 0

abbrev pub charged : List Session → ℕ
charged [] = 0
charged (s ∷ ss) = cost s + charged ss

-- A saved request belongs to an active session, its body is small enough, and `received` bytes of
-- it are there.
pub record SessionOk (s : Session) : Type 0 where
  pub saved_active : has_saved s ≡ true → s.active ≡ true
  pub small : has_saved s ≡ true → s.body_size ≤ post_replay_max
  pub fits : has_saved s ≡ true → s.received ≤ s.body_size
  pub stored : has_saved s ≡ true → length s.body ≡ s.received

-- A table of `n` sessions whose accounts are right.
pub record Books (n : ℕ) (st : Store) : Type 0 where
  pub size : length st.sessions ≡ n
  pub exact : st.pending_bytes ≡ charged st.sessions
  pub bounded : st.pending_bytes ≤ max_pending_bytes
  pub each : All SessionOk st.sessions
  pub anonymous : count_anonymous st.sessions ≤ max_anonymous_unsolved
  pub per_ip : (ip : Bytes) → count_anonymous_for ip st.sessions ≤ max_anonymous_unsolved_per_ip

pub zeroed-SessionOk : SessionOk zeroed
zeroed-SessionOk = record {
  saved_active = λ e. cc;
  small = λ e. cc;
  fits = λ e. cc;
  stored = λ e. cc;
}

pub charged-set :
    (ss : List Session) (i : ℕ) (v : Session)
    → i < length ss
    → charged (set ss i v) + cost (get_or ss i zeroed) ≡ charged ss + cost v
charged-set [] i v h = elim h [ ]
charged-set (s ∷ ss) zero v h = omega arith
charged-set (s ∷ ss) (suc i) v h = omega (arith, charged-set ss i v (omega arith))

pub All-get_or : (ss : List Session) (i : ℕ) → All SessionOk ss → SessionOk (get_or ss i zeroed)
All-get_or [] i h = zeroed-SessionOk
All-get_or (s ∷ ss) zero h = h.0
All-get_or (s ∷ ss) (suc i) h = All-get_or ss i h.1

pub cost-le-charged : (ss : List Session) (i : ℕ) → cost (get_or ss i zeroed) ≤ charged ss
cost-le-charged [] i = omega arith
cost-le-charged (s ∷ ss) zero = omega arith
cost-le-charged (s ∷ ss) (suc i) = omega (arith, cost-le-charged ss i)

-- `v` counts as anonymous only where `old` did, for the same address.
abbrev pub NoMoreAnonymous : Session → Session → Type 0
NoMoreAnonymous old v =
    is_anonymous v ≡ true → (is_anonymous old ≡ true) × (v.peer_ip ≡ old.peer_ip)

pub count_anonymous-set :
    (ss : List Session) (i : ℕ) (v : Session)
    → NoMoreAnonymous (get_or ss i zeroed) v
    → count_anonymous (set ss i v) ≤ count_anonymous ss
unfolding count_anonymous
count_anonymous-set [] i v h = omega arith
count_anonymous-set (s ∷ ss) zero v h = ground arith
count_anonymous-set (s ∷ ss) (suc i) v h = omega (arith, count_anonymous-set ss i v h)

pub count_anonymous_for-set :
    (ip : Bytes) (ss : List Session) (i : ℕ) (v : Session)
    → NoMoreAnonymous (get_or ss i zeroed) v
    → count_anonymous_for ip (set ss i v) ≤ count_anonymous_for ip ss
unfolding count_anonymous_for
count_anonymous_for-set ip [] i v h = omega arith
count_anonymous_for-set ip (s ∷ ss) zero v h = ground (arith, ap (λ p. str_eq p ip))
count_anonymous_for-set ip (s ∷ ss) (suc i) v h = omega (arith, count_anonymous_for-set ip ss i v h)

count_anonymous-set_le :
    (ss : List Session) (i : ℕ) (v : Session)
    → count_anonymous (set ss i v) ≤ count_anonymous ss + (if is_anonymous v then 1 else 0)
unfolding count_anonymous
count_anonymous-set_le [] i v = omega arith
count_anonymous-set_le (s ∷ ss) zero v = omega arith
count_anonymous-set_le (s ∷ ss) (suc i) v = omega (arith, count_anonymous-set_le ss i v)

count_anonymous_for-set_le :
    (ip : Bytes) (ss : List Session) (i : ℕ) (v : Session)
    → count_anonymous_for ip (set ss i v)
      ≤ count_anonymous_for ip ss + (if is_anonymous v && str_eq v.peer_ip ip then 1 else 0)
unfolding count_anonymous_for
count_anonymous_for-set_le ip [] i v = omega arith
count_anonymous_for-set_le ip (s ∷ ss) zero v = omega arith
count_anonymous_for-set_le ip (s ∷ ss) (suc i) v =
    omega (arith, count_anonymous_for-set_le ip ss i v)

-- Writing a session into slot `i` keeps the accounts, if the bytes move with it and it counts as
-- anonymous only where the old one did.
module _ {n : ℕ} {st : Store} (i : ℕ) (v : Session) (st' : Store) (b : Books n st) (inside : i < n)
    (written : st'.sessions ≡ set st.sessions i v) where
  pub Books-write_new :
      st'.pending_bytes + cost (at st i) ≡ st.pending_bytes + cost v
      → st'.pending_bytes ≤ max_pending_bytes
      → SessionOk v
      → (is_anonymous v ≡ true
          → (count_anonymous st.sessions < max_anonymous_unsolved)
            × (count_anonymous_for v.peer_ip st.sessions < max_anonymous_unsolved_per_ip))
      → Books n st'
  Books-write_new paid room ok under = record {
    size = rw (written, length-set st.sessions i v) b.size;
    exact =
        rw written (omega (arith, charged-set st.sessions i v (omega (arith, b.size)), b.exact));
    bounded = room;
    each = rw written (All-set SessionOk st.sessions i v b.each ok);
    anonymous =
        rw written (ground (arith, count_anonymous-set_le st.sessions i v, under, b.anonymous));
    per_ip = λ ip. rw written (
        ground (
          arith,
          count_anonymous_for-set_le ip st.sessions i v,
          under,
          b.per_ip ip,
          str_eq_iff v.peer_ip ip,
        ));
  }

  pub Books-write :
      st'.pending_bytes + cost (at st i) ≡ st.pending_bytes + cost v
      → st'.pending_bytes ≤ max_pending_bytes
      → SessionOk v
      → NoMoreAnonymous (at st i) v
      → Books n st'
  Books-write paid room ok quiet = record {
    size = rw (written, length-set st.sessions i v) b.size;
    exact =
        rw written (omega (arith, charged-set st.sessions i v (omega (arith, b.size)), b.exact));
    bounded = room;
    each = rw written (All-set SessionOk st.sessions i v b.each ok);
    anonymous = rw written (le_trans (count_anonymous-set st.sessions i v quiet) b.anonymous);
    per_ip = λ ip.
        rw written (le_trans (count_anonymous_for-set ip st.sessions i v quiet) (b.per_ip ip));
  }
