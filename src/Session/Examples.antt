-- ===== src/Session/Examples.antt =====
-- A visitor posts three bytes, solves the challenge, and the request is handed on.
use ankah.Prelude.{
  inr, ◌≢◌, sym, ◌∙◌, ℕ, ◌≤◌, ◌<◌, ◌≡◌, refl, ◌⊎◌, true, false, [], none, some, arith, length,
  Bytes, codes,
}
use ankah.Http.{Request}
use ankah.Session.Store.{Store, at, initial}
use ankah.Session.Lifecycle.{session_solved, expire, is_expired, session_discard, release_post}
use ankah.Session.Lookup.{session_find, find_loop}
use ankah.Session.Create.{
  Supply, session_new_with_proof, is_rejected, claim_loop, fill_claimed, is_over_quota,
  count_anonymous, count_anonymous_for, is_anonymous, fill_slot, timed_id, time_hex, commit,
}
use ankah.Session.Replay.{
  partial, refused, is_append_refused, session_append, session_solve, is_ready, taken_from,
  session_take_post, session_reserve_post,
}
use ankah.Session.Books.{Books}
use ankah.Session.Books.History.{Reach, here, next, create, append, solve, Reach-Books}
use ankah.Session.Finding.{Matching, session_find_sound, session_find_complete}
use ankah.Session.Handing.{Ready, session_take_post_once, session_append-append}

abbrev post : Request
post = record {
  method = codes "POST";
  target = codes "/form";
  headers = [];
  websocket = false;
  has_body = true;
  chunked = false;
  content_length = 3;
}

abbrev supply : Supply
supply = record {
  id = codes "00112233445566778899aabbccddeeff";
  token = codes "ffeeddccbbaa99887766554433221100";
  challenge = λ host now id. some (codes "1.challenge");
  memory = true;
}

abbrev id : Bytes
id = codes "000003e8445566778899aabbccddeeff"

abbrev token : Bytes
token = codes "ffeeddccbbaa99887766554433221100"

abbrev created : Store
created =
    (session_new_with_proof (codes "example.org") 1000 post (codes "192.0.2.1") false supply
      (initial 2)).0

abbrev read : Store
read = (session_append 0 (codes "abc") created).0

abbrev open_table : Store
open_table = (session_solve 0 1010 read).0

history : Reach 2 (initial 2) open_table
history =
    next
      (next (next here (create (codes "example.org") 1000 post (codes "192.0.2.1") false supply))
        (append 0 (codes "abc") (omega arith)))
      (solve 0 1010 (omega arith) (omega arith))

Reach-Books_example : Books 2 open_table
Reach-Books_example = Reach-Books history

created-Books : Books 2 created
created-Books =
    Reach-Books
      (next here (create (codes "example.org") 1000 post (codes "192.0.2.1") false supply))

taken : (session_take_post 0 token 1020 open_table).1 ≡ some (taken_from (at open_table 0))
unfolding session_take_post is_ready session_solved session_solve session_new_with_proof is_rejected
    claim_loop expire is_expired session_discard release_post fill_claimed is_over_quota
    count_anonymous count_anonymous_for is_anonymous fill_slot timed_id time_hex commit
    session_append is_append_refused
taken = refl

session_take_post_once_example :
    Ready token 1020 (at open_table 0)
    × (taken_from (at open_table 0) ≡ taken_from (at open_table 0))
    × (length (at open_table 0).body ≡ (at open_table 0).body_size)
    × ((session_take_post 0 token 1030 (session_take_post 0 token 1020 open_table).0).1 ≡ none)
    × ((session_reserve_post 0 token 1030 (session_take_post 0 token 1020 open_table).0).1 ≡ false)
session_take_post_once_example =
    session_take_post_once open_table 0 token 1020 (taken_from (at open_table 0)) token 1030
      (Reach-Books history) (omega arith) taken

found : (session_find id 1020 open_table).1 ≡ some 0
unfolding session_find find_loop session_solve session_new_with_proof is_rejected claim_loop expire
    is_expired session_discard release_post fill_claimed is_over_quota count_anonymous
    count_anonymous_for is_anonymous fill_slot timed_id time_hex commit session_append
    is_append_refused
found = refl

session_find_sound_example :
    (length id ≡ 32)
    × (0 < length open_table.sessions)
    × Matching id 1020 (at open_table 0)
    × Matching id 1020 (at (session_find id 1020 open_table).0 0)
session_find_sound_example = session_find_sound id 1020 open_table 0 found

open-Matching : Matching id 1020 (at open_table 0)
unfolding session_solve session_new_with_proof is_rejected claim_loop expire is_expired
    session_discard release_post fill_claimed is_over_quota count_anonymous count_anonymous_for
    is_anonymous fill_slot timed_id time_hex commit session_append is_append_refused
open-Matching = record { active = refl; same_id = refl; in_time = inr (ground arith, omega arith) }

open_size : 0 < length open_table.sessions
open_size = omega (arith, (Reach-Books history).size)

session_find_complete_example : (k : ℕ) × ((session_find id 1020 open_table).1 ≡ some k) × (k ≤ 0)
session_find_complete_example =
    session_find_complete id 1020 open_table 0 refl open_size open-Matching

ab_accepted : (session_append 0 (codes "ab") created).1 ≡ partial
unfolding session_new_with_proof is_rejected claim_loop expire is_expired session_discard
    release_post fill_claimed is_over_quota count_anonymous count_anonymous_for is_anonymous
    fill_slot timed_id time_hex commit session_append is_append_refused
ab_accepted = refl

partial≢refused : partial ≢ refused
partial≢refused e = cc

ab_not_refused : (session_append 0 (codes "ab") created).1 ≢ refused
ab_not_refused e = partial≢refused (sym ab_accepted ∙ e)

session_append-append_example :
    ((session_append 0 (codes "c") (session_append 0 (codes "ab") created).0).1
      ≡ (session_append 0 (codes "abc") created).1)
    × (((session_append 0 (codes "c") (session_append 0 (codes "ab") created).0).1 ≡ refused)
        ⊎ (at (session_append 0 (codes "c") (session_append 0 (codes "ab") created).0).0 0
            ≡ at (session_append 0 (codes "abc") created).0 0))
session_append-append_example =
    session_append-append created 0 (codes "ab") (codes "c") created-Books (omega arith)
      ab_not_refused
