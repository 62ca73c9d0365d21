-- ===== src/Session/Finding.antt =====
-- What `ankah_session_find` finds.
use ankah.Prelude.{
  ℕ, zero, suc, ◌+◌, ◌≤◌, ◌<◌, ◌≡◌, refl, sym, ap, ◌∙◌, inl, inr, true, false, not, ◌&&◌,
  if◌then◌else◌, Option, some, some-injective, arith, subst, Bool-cases, length, length-set,
  get_or-set_self, set, set-set, str_eq, str_eq_iff, str_eq_refl, ◌≢◌, Bytes, ◌==◌, ==_iff, ltb,
  ◌⊎◌,
}
use ankah.Prelude.Words.{add64}
use ankah.Session.Store.{Session, zeroed, Store, at}
use ankah.Session.Lifecycle.{is_expired, expire, session_discard, release_post, released, has_saved}
use ankah.Session.Lookup.{find_loop, session_find}
use ankah.Session.Books.Search.{expire_ne}

-- A session lives for 300 seconds from its issue until it is solved, and then until `solved_until`.
abbrev pub IsLive : ℕ → Session → Type 0
IsLive now s =
    ((s.solved_until ≡ 0) × (now ≤ add64 s.issued 300))
    ⊎ ((s.solved_until ≢ 0) × (now ≤ s.solved_until))

-- A session that a search for `id` may return.
pub record Matching (id : Bytes) (now : ℕ) (s : Session) : Type 0 where
  pub active : s.active ≡ true
  pub same_id : s.id ≡ id
  pub in_time : IsLive now s

-- The same with the code's test.
record Passing (id : Bytes) (now : ℕ) (s : Session) : Type 0 where
  active : s.active ≡ true
  same_id : s.id ≡ id
  in_time : is_expired s now ≡ false

Passing-Matching : (id : Bytes) (now : ℕ) (s : Session) → Passing id now s → Matching id now s
unfolding is_expired
Passing-Matching id now s p = record {
  active = p.active;
  same_id = p.same_id;
  in_time = ground (arith, p.in_time);
}

Matching-Passing : (id : Bytes) (now : ℕ) (s : Session) → Matching id now s → Passing id now s
unfolding is_expired
Matching-Passing id now s m = record {
  active = m.active;
  same_id = m.same_id;
  in_time = ground (arith, m.in_time);
}

length-expire : (now i : ℕ) (st : Store) → length (expire now i st).sessions ≡ length st.sessions
unfolding expire session_discard release_post
length-expire now i st = ground (
  arith,
  length-set st.sessions i (released (at st i)),
  length-set st.sessions i zeroed,
  length-set (set st.sessions i (released (at st i))) i zeroed,
)

-- What becomes of a session that a loop passes at `now`.
abbrev passed : ℕ → Session → Session
passed now s =
    if not s.active
    then s
    else if is_expired s now
    then zeroed
    else if has_saved s && not (s.solved_until == 0) && ltb s.body_until now
    then released s
    else s

expire_self :
    (now i : ℕ) (st : Store)
    → i < length st.sessions
    → at (expire now i st) i ≡ passed now (at st i)
unfolding expire session_discard release_post
expire_self now i st h = ground (
  arith,
  get_or-set_self st.sessions i (released (at st i)) zeroed h,
  get_or-set_self st.sessions i zeroed zeroed h,
  set-set st.sessions i (released (at st i)) zeroed,
)

passed-active :
    (now : ℕ) (s : Session)
    → (passed now s).active ≡ true
    → (s.active ≡ true)
      × ((passed now s).id ≡ s.id)
      × (is_expired s now ≡ false)
      × (is_expired (passed now s) now ≡ false)
unfolding is_expired
passed-active now s on = ground arith

passed-in_time :
    (now : ℕ) (s : Session)
    → s.active ≡ true
    → is_expired s now ≡ false
    → ((passed now s).active ≡ true) × ((passed now s).id ≡ s.id)
passed-in_time now s on good = ground arith

-- A search from slot `i` that ends at slot `k`, with the table `after`.
abbrev Stops : Bytes → ℕ → Store → ℕ → Store → ℕ → Type 0
Stops id now st i after k =
    (i ≤ k) × (k < length st.sessions) × Passing id now (at st k) × Passing id now (at after k)

found_at :
    (st : Store) (i : ℕ) (id : Bytes) (now : ℕ) (k : ℕ)
    → i < length st.sessions
    → ((at (expire now i st) i).active && str_eq (at (expire now i st) i).id id) ≡ true
    → i ≡ k
    → Stops id now st i (expire now i st) k
found_at st i id now k h found e =
    let same = expire_self now i st h in
    let p = passed-active now (at st i) (ap (λ s. s.active) (sym same) ∙ ground arith) in
    let id_of = (str_eq_iff (at (expire now i st) i).id id).0 (ground arith) in
    rw (sym e) (
      omega arith,
      h,
      record { active = p.0; same_id = sym p.1 ∙ ap (λ s. s.id) (sym same) ∙ id_of; in_time = p.2 },
      record { active = ground arith; same_id = id_of; in_time = rw same p.3 },
    )

find_loop_sound :
    (n i : ℕ) (id : Bytes) (now : ℕ) (st : Store) (k : ℕ)
    → i + n ≤ length st.sessions
    → (find_loop n i id now st).1 ≡ some k
    → Stops id now st i (find_loop n i id now st).0 k
unfolding find_loop
find_loop_sound zero i id now st k h = λ e. cc
find_loop_sound (suc n) i id now st k h =
    let st' = expire now i st in
    elim (Bool-cases ((at st' i).active && str_eq (at st' i).id id)) [
      | inl found ↦
          rw found (λ e. found_at st i id now k (omega arith) found (some-injective i k e))
      | inr other ↦ rw other (λ e.
          let (le, lt, before, after) =
            find_loop_sound n (suc i) id now st' k (omega (arith, length-expire now i st)) e in
          (
            omega arith,
            omega (arith, length-expire now i st),
            subst (Passing id now) (expire_ne now st i k (omega arith)) before,
            after,
          ))
    ]

-- A search from slot `i` that ends at `j` at the latest.
abbrev EndsBy : ℕ → Store × Option ℕ → Type 0
EndsBy j r = (k : ℕ) × (r.1 ≡ some k) × (k ≤ j)

missed :
    (st : Store) (i j : ℕ) (id : Bytes) (now : ℕ)
    → i < length st.sessions
    → Passing id now (at st j)
    → ((at (expire now i st) i).active && str_eq (at (expire now i st) i).id id) ≡ false
    → i ≢ j
missed st i j id now h m other e =
    let same = expire_self now i st h in
    let at_i = subst (λ k. Passing id now (at st k)) (sym e) m in
    let p = passed-in_time now (at st i) at_i.active at_i.in_time in
    ground (arith, at_i.same_id, str_eq_refl id)

find_loop_complete :
    (n i : ℕ) (id : Bytes) (now : ℕ) (st : Store) (j : ℕ)
    → i + n ≤ length st.sessions
    → i ≤ j
    → j < i + n
    → Passing id now (at st j)
    → EndsBy j (find_loop n i id now st)
unfolding find_loop
find_loop_complete zero i id now st j h le lt m = ground arith
find_loop_complete (suc n) i id now st j h le lt m =
    let st' = expire now i st in
    elim (Bool-cases ((at st' i).active && str_eq (at st' i).id id)) [
      | inl found ↦ rw found (i, refl, le)
      | inr other ↦ rw other (
          find_loop_complete n (suc i) id now st' j (omega (arith, length-expire now i st))
            (omega (arith, missed st i j id now (omega arith) m other)) (omega arith)
            (subst (Passing id now)
              (sym (expire_ne now st i j (missed st i j id now (omega arith) m other))) m))
    ]

-- A search that returns session `k`: the id has 32 characters, and slot `k` is in the table and
-- held, both before the search and after it, an active session with that id that has not run out.
pub session_find_sound :
    (id : Bytes) (now : ℕ) (st : Store) (k : ℕ)
    → (session_find id now st).1 ≡ some k
    → (length id ≡ 32)
      × (k < length st.sessions)
      × Matching id now (at st k)
      × Matching id now (at (session_find id now st).0 k)
unfolding session_find
session_find_sound id now st k = elim (Bool-cases (length id == 32)) [
  | inl fits ↦ rw fits (λ e.
      let (le, lt, before, after) =
        find_loop_sound (length st.sessions) 0 id now st k (omega arith) e in
      (
        (==_iff (length id) 32).0 fits,
        lt,
        Passing-Matching id now (at st k) before,
        Passing-Matching id now (at (find_loop (length st.sessions) 0 id now st).0 k) after,
      ))
  | inr other ↦ rw other (λ e. cc)
]

-- A search for an id of 32 characters that an active session which has not run out carries: it
-- returns a session, and none behind that one.
pub session_find_complete :
    (id : Bytes) (now : ℕ) (st : Store) (j : ℕ)
    → length id ≡ 32
    → j < length st.sessions
    → Matching id now (at st j)
    → (k : ℕ) × ((session_find id now st).1 ≡ some k) × (k ≤ j)
unfolding session_find
session_find_complete id now st j fits lt m =
    let long : (length id == 32) ≡ true = (==_iff (length id) 32).1 fits in
    rw long (
      find_loop_complete (length st.sessions) 0 id now st j (omega arith) (omega arith)
        (omega arith) (Matching-Passing id now (at st j) m))
