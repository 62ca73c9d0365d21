-- ===== src/Session/Books/History.antt =====
-- The accounts hold after every history of calls.
use ankah.Prelude.{
  if◌then◌else◌, length, ℕ, zero, suc, ◌+◌, ◌-◌, ◌^◌, ◌≤◌, ◌<◌, ◌≡◌, refl, Bool, Option, none, some,
  arith, All, length-replicate, replicate, Bytes,
}
use ankah.Http.{Request}
use ankah.Session.Store.{Session, zeroed, Store, at, touch, initial}
use ankah.Session.Lifecycle.{
  release_post, session_cancel_post, session_discard, expire, session_solved, discard_saved_loop,
  session_discard_saved_posts,
}
use ankah.Session.Lookup.{session_find, session_find_host}
use ankah.Session.Create.{
  is_anonymous, count_anonymous, count_anonymous_for, Supply, session_accept_solved,
  session_new_with_proof,
}
use ankah.Session.Replay.{
  no_totals, each_loop, session_each_solved, session_append, session_solve, session_reserve_post,
  session_unreserve_post, session_take_post, session_snapshot_retry, session_count, count_loop,
  Totals, tally,
}
use ankah.Session.Books.{charged, SessionOk, Books, zeroed-SessionOk}
use ankah.Session.Books.Ends.{expire-Books, release_post-Books, session_discard-Books}
use ankah.Session.Books.Search.{FoundSlot, session_find-FoundSlot}
use ankah.Session.Books.Posts.{
  session_append-Books, session_solve-Books, session_reserve_post-Books,
  session_unreserve_post-Books, session_take_post-Books,
}
use ankah.Session.Books.Made.{session_accept_solved-Books}
use ankah.Session.Books.New.{session_new_with_proof-Books}

-- One call, on a table of `n` sessions. A session is passed by its index, below `n`. Where a time
-- is stored it is a time before the last half hour of the word.
pub data Step (n : ℕ) (st : Store) : Store → Type 1 where
  find : (id : Bytes) (now : ℕ) → Step n st (session_find id now st).0
  find_host : (id host : Bytes) (now : ℕ) → Step n st (session_find_host id now host st).0
  create :
      (host : Bytes) (now : ℕ) (request : Request) (peer_ip : Bytes) (proved : Bool)
      (supply : Supply)
      → Step n st (session_new_with_proof host now request peer_ip proved supply st).0
  accept :
      (id : Bytes) (now : ℕ) (target : Option Bytes) (is_post : Bool) (host : Bytes)
      → now < 2 ^ 64 - 1800
      → Step n st (session_accept_solved id now target is_post host st).0
  append : (i : ℕ) (bytes : Bytes) → i < n → Step n st (session_append i bytes st).0
  solve : (i now : ℕ) → i < n → now < 2 ^ 64 - 1800 → Step n st (session_solve i now st).0
  reserve :
      (i : ℕ) (token : Bytes) (now : ℕ) → i < n → Step n st (session_reserve_post i token now st).0
  unreserve : (i : ℕ) → i < n → Step n st (session_unreserve_post i st)
  take : (i : ℕ) (token : Bytes) (now : ℕ) → i < n → Step n st (session_take_post i token now st).0
  cancel : (i : ℕ) → i < n → Step n st (session_cancel_post i st)
  discard : (i : ℕ) → i < n → Step n st (session_discard i st)
  totals : (now : ℕ) → Step n st (session_count now st).0
  each_solved :
      {A : Type 0} (visit : Session → A → A) (now : ℕ) (owner : A)
      → Step n st (session_each_solved visit now owner st).0
  discard_saved : Step n st (session_discard_saved_posts st)
  retry : Step n st (session_snapshot_retry st)

pub data Reach (n : ℕ) (st : Store) : Store → Type 1 where
  here : Reach n st st
  next : {t u : Store} → Reach n st t → Step n t u → Reach n st u

FoundSlot-Books : {N : ℕ} (r : Store × Option ℕ) → FoundSlot N r → Books N r.0
FoundSlot-Books (st, none) f = f
FoundSlot-Books (st, some i) f = f.0

touch-Books : {N : ℕ} (st : Store) → Books N st → Books N (touch st)
touch-Books st b = record {
  size = b.size;
  exact = b.exact;
  bounded = b.bounded;
  each = b.each;
  anonymous = b.anonymous;
  per_ip = b.per_ip;
}

count_loop-Books :
    {N : ℕ} (now n i : ℕ) (t : Totals) (st : Store)
    → i + n ≤ N
    → Books N st
    → Books N (count_loop n i now t st).0
unfolding count_loop
count_loop-Books now zero i t st h b = b
count_loop-Books now (suc n) i t st h b =
    count_loop-Books now n (suc i) (tally (at (expire now i st) i) now t) (expire now i st)
      (omega arith) (expire-Books now st i (omega arith) b)

session_count-Books : {N : ℕ} (now : ℕ) (st : Store) → Books N st → Books N (session_count now st).0
unfolding session_count
session_count-Books now st b =
    count_loop-Books now (length st.sessions) 0 no_totals st (omega (arith, b.size)) b

module _ {ℓ} {A : Type ℓ} (visit : Session → A → A) where
  each_loop-Books :
      {N : ℕ} (now n i : ℕ) (owner : A) (st : Store)
      → i + n ≤ N
      → Books N st
      → Books N (each_loop visit n i now owner st).0
  unfolding each_loop
  each_loop-Books now zero i owner st h b = b
  each_loop-Books now (suc n) i owner st h b =
      each_loop-Books now n (suc i)
        (if session_solved (at (expire now i st) i) now
          then visit (at (expire now i st) i) owner
          else owner)
        (expire now i st) (omega arith) (expire-Books now st i (omega arith) b)

  session_each_solved-Books :
      {N : ℕ} (now : ℕ) (owner : A) (st : Store)
      → Books N st
      → Books N (session_each_solved visit now owner st).0
  unfolding session_each_solved
  session_each_solved-Books now owner st b =
      each_loop-Books now (length st.sessions) 0 owner st (omega (arith, b.size)) b

discard_saved_loop-Books :
    {N : ℕ} (n i : ℕ) (st : Store) → i + n ≤ N → Books N st → Books N (discard_saved_loop n i st)
unfolding discard_saved_loop
discard_saved_loop-Books zero i st h b = b
discard_saved_loop-Books (suc n) i st h b =
    discard_saved_loop-Books n (suc i) (release_post i st) (omega arith)
      (release_post-Books st i (omega arith) b)

session_discard_saved_posts-Books :
    {N : ℕ} (st : Store) → Books N st → Books N (session_discard_saved_posts st)
unfolding session_discard_saved_posts
session_discard_saved_posts-Books st b =
    discard_saved_loop-Books (length st.sessions) 0 st (omega (arith, b.size)) b

Step-Books : {N : ℕ} {st st' : Store} → Step N st st' → Books N st → Books N st'
unfolding session_find_host session_cancel_post session_snapshot_retry
Step-Books {st} (find id now) b =
    FoundSlot-Books (session_find id now st) (session_find-FoundSlot now id st b)
Step-Books {st} (find_host id host now) b =
    FoundSlot-Books (session_find id now st) (session_find-FoundSlot now id st b)
Step-Books {st} (create host now request peer_ip proved supply) b =
    session_new_with_proof-Books host now request peer_ip proved supply st b
Step-Books {st} (accept id now target is_post host k) b =
    session_accept_solved-Books now k target is_post id host st b
Step-Books {st} (append i bytes h) b = session_append-Books st i h b bytes
Step-Books {st} (solve i now h k) b = session_solve-Books st i h b now k
Step-Books {st} (reserve i token now h) b = session_reserve_post-Books st i h b token now
Step-Books {st} (unreserve i h) b = session_unreserve_post-Books st i h b
Step-Books {st} (take i token now h) b = session_take_post-Books st i h b token now
Step-Books {st} (cancel i h) b = release_post-Books st i h b
Step-Books {st} (discard i h) b = session_discard-Books st i h b
Step-Books {st} (totals now) b = session_count-Books now st b
Step-Books {st} (each_solved visit now owner) b = session_each_solved-Books visit now owner st b
Step-Books {st} discard_saved b = session_discard_saved_posts-Books st b
Step-Books {st} retry b = touch-Books st b

replicate-charged : (n : ℕ) → charged (replicate n zeroed) ≡ 0
replicate-charged zero = refl
replicate-charged (suc n) = omega (arith, replicate-charged n)

replicate-SessionOk : (n : ℕ) → All SessionOk (replicate n zeroed)
replicate-SessionOk zero = tt
replicate-SessionOk (suc n) = (zeroed-SessionOk, replicate-SessionOk n)

replicate-anonymous : (n : ℕ) → count_anonymous (replicate n zeroed) ≡ 0
unfolding count_anonymous is_anonymous
replicate-anonymous zero = refl
replicate-anonymous (suc n) = omega (arith, replicate-anonymous n)

replicate-anonymous_for : (ip : Bytes) (n : ℕ) → count_anonymous_for ip (replicate n zeroed) ≡ 0
unfolding count_anonymous_for is_anonymous
replicate-anonymous_for ip zero = refl
replicate-anonymous_for ip (suc n) = omega (arith, replicate-anonymous_for ip n)

pub initial-Books : (n : ℕ) → Books n (initial n)
initial-Books n = record {
  size = length-replicate n zeroed;
  exact = omega (arith, replicate-charged n);
  bounded = omega arith;
  each = replicate-SessionOk n;
  anonymous = omega (arith, replicate-anonymous n);
  per_ip = λ ip. omega (arith, replicate-anonymous_for ip n);
}

-- In every history of calls from the empty table of `n` sessions, stored times being before the
-- last half hour of the word: `pending_bytes` is exactly the size of the saved requests and within
-- 64 MiB, a saved request belongs to an active session and its buffer of at most 2 MiB holds
-- `received` bytes, and the sessions with neither a proof nor a solution are at most 3072, and at
-- most 64 for any one address.
pub Reach-Books : {n : ℕ} {st : Store} → Reach n (initial n) st → Books n st
Reach-Books {n} here = initial-Books n
Reach-Books (next r s) = Step-Books s (Reach-Books r)
