-- ===== src/Chunked/Agreement.antt =====
-- `consume` against the byte-at-a-time machine, and what follows for bodies that come in pieces.
use mathlib.Core.Option.{some-injective}
use ankah.Prelude.{
  ℕ, zero, suc, ◌+◌, ◌≤◌, ◌<◌, ◌≡◌, refl, sym, ◌∙◌, ◌≢◌, ◌⊎◌, inl, inr, true, false, [], ◌∷◌, ◌++◌,
  Option, none, some, arith, length, Bytes, Bool-cases, Option-cases,
}
use ankah.Chunked.{
  Body, Round, refuse, go, round, Outcome, out_of_fuel, refused, consumed, loop, fuel_for, consume,
}
use ankah.Chunked.Reference.{
  feed, take_byte, IsValid, Went, round-fact, feed_complete, feed_cons, feed_cons_none, and_then,
}

-- The outcome is that of the machine: a refusal on both sides, or the same body, valid again, with
-- `added` more than the bytes decoded before.
abbrev pub Matches : ℕ → Outcome → Option Body → ℕ → Type 0
Matches max out_of_fuel r start = ⊥
Matches max (refused b) r start = r ≡ none
Matches max (consumed b added) r start =
    (r ≡ some b) × (b.decoded ≡ start + added) × IsValid b × (start ≤ max → b.decoded ≤ max)

Round-cases :
    (r : Round)
    → ((b : Body) × (r ≡ refuse b)) ⊎ ((b : Body) × (rest : Bytes) × (n : ℕ) × (r ≡ go b rest n))
Round-cases (refuse b) = inl (b, refl)
Round-cases (go b rest n) = inr (b, rest, n, refl)

module _ (fuel max : ℕ) (b : Body) (x : ℕ) (rest : Bytes) (added : ℕ) where
  loop_refuse :
      {b' : Body}
      → round max b x rest ≡ refuse b'
      → loop (suc fuel) max b (x ∷ rest) added ≡ refused b'
  unfolding loop
  loop_refuse e = rw (e, loop)

  loop_go :
      {b' : Body} {rest' : Bytes} {n : ℕ}
      → round max b x rest ≡ go b' rest' n
      → loop (suc fuel) max b (x ∷ rest) added ≡ loop fuel max b' rest' (added + n)
  unfolding loop
  loop_go e = rw (e, loop)

loop-Matches :
    (fuel max : ℕ) (b : Body) (bytes : Bytes) (added start : ℕ)
    → length bytes < fuel
    → IsValid b
    → (b.complete ≡ false) ⊎ (bytes ≡ [])
    → b.decoded ≡ start + added
    → (start ≤ max → b.decoded ≤ max)
    → Matches max (loop fuel max b bytes added) (feed max b bytes) start
unfolding loop feed
loop-Matches zero max b bytes added start h v l e m = absurd (omega arith)
loop-Matches (suc fuel) max b [] added start h v l e m = (refl, e, v, m)
loop-Matches (suc fuel) max b (x ∷ rest) added start h v (inr l) e m = cc l
loop-Matches (suc fuel) max b (x ∷ rest) added start h v (inl l) e m =
    elim (Round-cases (round max b x rest)) [
      | inl (b', stop) ↦
          rw (loop_refuse fuel max b x rest added stop) (rw stop at (round-fact max b x rest v l))
      | inr (b', rest', n, on) ↦
          let w : Went max b x rest b' rest' n = rw on at (round-fact max b x rest v l) in
          rw (loop_go fuel max b x rest added on, w.fed)
            (loop-Matches fuel max b' rest' (added + n) start (omega (arith, w.shorter)) w.valid
              w.last (omega (arith, w.counted)) (λ s. w.limited (m s)))
    ]

-- `consume` does what the machine does byte by byte: it always ends, and a body that it returns is
-- valid again, counts the decoded bytes, and keeps to the limit.
pub consume-Matches :
    (b : Body) (bytes : Bytes) (max : ℕ)
    → IsValid b
    → b.complete ≡ false
    → Matches max (consume b bytes max) (feed max b bytes) b.decoded
unfolding consume
consume-Matches b bytes max v c = simp c (
    loop-Matches (fuel_for bytes) max b bytes 0 b.decoded (omega arith) v (inl c) (omega arith)
      (λ h. h))

feed-append :
    (max : ℕ) (b : Body) (xs ys : Bytes)
    → feed max b (xs ++ ys) ≡ and_then (feed max b xs) (λ b'. feed max b' ys)
feed-append max b [] ys = unfold feed in refl
feed-append max b (x ∷ xs) ys = elim (Option-cases (take_byte max b x)) [
  | inl none_left ↦
      feed_cons_none max b x (xs ++ ys) none_left ∙ rw (feed_cons_none max b x xs none_left)
  | inr (b', taken) ↦
      feed_cons max b b' x (xs ++ ys) taken
      ∙ feed-append max b' xs ys
      ∙ rw (feed_cons max b b' x xs taken)
]

-- A body that arrives in two calls: the second goes on with the body that the first returned.
abbrev plus : ℕ → Outcome → Outcome
plus n (consumed b added) = consumed b (n + added)
plus n r = r

abbrev pub then_consume : Outcome → Bytes → ℕ → Outcome
then_consume (consumed b n) bytes max = plus n (consume b bytes max)
then_consume r bytes max = r

-- Both refused, or the same body and count.
abbrev pub SameOutcome : Outcome → Outcome → Type 0
SameOutcome (refused b) (refused b') = Unit
SameOutcome (consumed b n) (consumed b' n') = (b ≡ b') × (n ≡ n')
SameOutcome _ _ = ⊥

consume_complete :
    (b : Body) (bytes : Bytes) (max : ℕ) → b.complete ≡ true → consume b bytes max ≡ refused b
unfolding consume
consume_complete b bytes max c = rw c

plus-Matches :
    (max n start mid : ℕ) (r : Outcome) (f : Option Body)
    → Matches max r f mid
    → mid ≡ start + n
    → (start ≤ max → mid ≤ max)
    → Matches max (plus n r) f start
plus-Matches max n start mid out_of_fuel f h e k = absurd h
plus-Matches max n start mid (refused b) f h e k = h
plus-Matches max n start mid (consumed b added) f h e k =
    (h.0, omega (arith, h.1), h.2, λ s. h.3 (k s))

then_consume-Matches :
    (b : Body) (xs ys : Bytes) (max : ℕ) (r : Outcome)
    → ys ≢ []
    → Matches max r (feed max b xs) b.decoded
    → Matches max (then_consume r ys max) (feed max b (xs ++ ys)) b.decoded
then_consume-Matches b xs ys max out_of_fuel ne h = absurd h
then_consume-Matches b xs ys max (refused b') ne h = feed-append max b xs ys ∙ rw h
then_consume-Matches b xs [] max (consumed b' n) ne h = absurd (ne refl)
then_consume-Matches b xs (y ∷ ys) max (consumed b' n) ne h =
    let joined : feed max b (xs ++ y ∷ ys) ≡ feed max b' (y ∷ ys) =
      feed-append max b xs (y ∷ ys) ∙ rw h.0 in
    elim (Bool-cases b'.complete) [
      | inl done ↦
          rw (consume_complete b' (y ∷ ys) max done) (joined ∙ feed_complete max b' y ys done)
      | inr open_ ↦ rw joined (
          plus-Matches max n b.decoded b'.decoded _ _ (consume-Matches b' (y ∷ ys) max h.2 open_)
            h.1 h.3)
    ]

SameOutcome-of_Matches :
    (max start : ℕ) (r r' : Outcome) (f : Option Body)
    → Matches max r f start
    → Matches max r' f start
    → SameOutcome r r'
SameOutcome-of_Matches max start (refused b) (refused b') f h k = tt
SameOutcome-of_Matches max start (consumed b n) (consumed b' n') f h k =
    (some-injective _ _ (sym h.0 ∙ k.0), ground (arith, some-injective b b' (sym h.0 ∙ k.0)))
SameOutcome-of_Matches max start (refused b) (consumed b' n') f h k = cc
SameOutcome-of_Matches max start (consumed b n) (refused b') f h k = cc
SameOutcome-of_Matches max start out_of_fuel _ f h k = absurd h
SameOutcome-of_Matches max start _ out_of_fuel f h k = absurd k

-- A body may come in pieces of any sizes: consuming two pieces, the second not empty, has the
-- outcome of consuming them at once.
pub consume-append :
    (b : Body) (xs ys : Bytes) (max : ℕ)
    → IsValid b
    → b.complete ≡ false
    → ys ≢ []
    → SameOutcome (consume b (xs ++ ys) max) (then_consume (consume b xs max) ys max)
consume-append b xs ys max v c ne =
    SameOutcome-of_Matches max b.decoded _ _ _ (consume-Matches b (xs ++ ys) max v c)
      (then_consume-Matches b xs ys max _ ne (consume-Matches b xs max v c))
