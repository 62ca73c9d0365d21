-- ===== src/Session/Books/Search.antt =====
-- The loops over the table, and the sessions that are made in the slots that they find.
use native.Mathlib.Decide.{ℕ_discrete}
use ankah.Prelude.{
  ℕ, zero, suc, ◌+◌, ◌≤◌, ◌<◌, ◌≡◌, inl, inr, ◌≢◌, false, not, ◌&&◌, Option, none, some, arith,
  Bool-cases, ◌==◌, length, set, get_or-set_ne, Bytes, str_eq,
}
use ankah.Session.Store.{zeroed, Store, at}
use ankah.Session.Lifecycle.{released, release_post, session_discard, expire}
use ankah.Session.Lookup.{find_loop, session_find}
use ankah.Session.Create.{free_loop, claim_loop}
use ankah.Session.Books.{Books}
use ankah.Session.Books.Ends.{expire-Books}

-- Expiring one session leaves the others as they are.
pub expire_ne : (now : ℕ) (st : Store) (i j : ℕ) → i ≢ j → at (expire now i st) j ≡ at st j
unfolding expire session_discard release_post
expire_ne now st i j h = ground (
  arith,
  get_or-set_ne st.sessions i j (released (at st i)) zeroed h,
  get_or-set_ne st.sessions i j zeroed zeroed h,
  get_or-set_ne (set st.sessions i (released (at st i))) i j zeroed zeroed h,
)

-- Expiring activates no session.
pub expire_inactive :
    (now : ℕ) (st : Store) (i j : ℕ)
    → (at st j).active ≡ false
    → (at (expire now i st) j).active ≡ false
expire_inactive now st i j h = elim (ℕ_discrete i j) [
  | yes same ↦ rw same (unfold expire in rw h h)
  | no other ↦ rw (expire_ne now st i j other) h
]

-- What a search for a free slot ends with.
abbrev pub FreeSlot : ℕ → Store × Option ℕ → Type 0
FreeSlot N (st, none) = Books N st
FreeSlot N (st, some i) = Books N st × (i < N) × ((at st i).active ≡ false)

-- What a search for an id ends with.
abbrev pub FoundSlot : ℕ → Store × Option ℕ → Type 0
FoundSlot N (st, none) = Books N st
FoundSlot N (st, some i) = Books N st × (i < N)

module _ {N : ℕ} (now : ℕ) where
  pub find_loop-FoundSlot :
      (n i : ℕ) (id : Bytes) (st : Store)
      → i + n ≤ N
      → Books N st
      → FoundSlot N (find_loop n i id now st)
  unfolding find_loop
  find_loop-FoundSlot zero i id st h b = b
  find_loop-FoundSlot (suc n) i id st h b =
      let b' = expire-Books now st i (omega arith) b in
      elim (Bool-cases ((at (expire now i st) i).active && str_eq (at (expire now i st) i).id id)) [
        | inl hit ↦ rw hit (b', omega arith)
        | inr miss ↦ rw miss (find_loop-FoundSlot n (suc i) id (expire now i st) (omega arith) b')
      ]

  pub session_find-FoundSlot :
      (id : Bytes) (st : Store) → Books N st → FoundSlot N (session_find id now st)
  unfolding session_find
  session_find-FoundSlot id st b = elim (Bool-cases (not (length id == 32))) [
    | inl bad ↦ rw bad b
    | inr good ↦
        rw good (find_loop-FoundSlot (length st.sessions) 0 id st (omega (arith, b.size)) b)
  ]

  pub free_loop-FreeSlot :
      (n i : ℕ) (st : Store) → i + n ≤ N → Books N st → FreeSlot N (free_loop n i now st)
  unfolding free_loop
  free_loop-FreeSlot zero i st h b = b
  free_loop-FreeSlot (suc n) i st h b =
      let b' = expire-Books now st i (omega arith) b in
      elim (Bool-cases (at (expire now i st) i).active) [
        | inl busy ↦ rw busy (free_loop-FreeSlot n (suc i) (expire now i st) (omega arith) b')
        | inr free ↦ rw free (b', omega arith, free)
      ]

  pub claim_loop-FreeSlot :
      (n i : ℕ) (slot : Option ℕ) (st : Store)
      → i + n ≤ N
      → FreeSlot N (st, slot)
      → FreeSlot N (claim_loop n i now slot st)
  unfolding claim_loop
  claim_loop-FreeSlot zero i slot st h f = f
  claim_loop-FreeSlot (suc n) i none st h b =
      let b' = expire-Books now st i (omega arith) b in
      elim (Bool-cases (at (expire now i st) i).active) [
        | inl busy ↦ rw busy (claim_loop-FreeSlot n (suc i) none (expire now i st) (omega arith) b')
        | inr free ↦ rw free (
            claim_loop-FreeSlot n (suc i) (some i) (expire now i st) (omega arith)
              (b', omega arith, free))
      ]
  claim_loop-FreeSlot (suc n) i (some j) st h (b, l, f) =
      claim_loop-FreeSlot n (suc i) (some j) (expire now i st) (omega arith)
        (expire-Books now st i (omega arith) b, l, expire_inactive now st i j f)
