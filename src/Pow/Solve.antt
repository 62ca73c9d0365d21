-- ===== src/Pow/Solve.antt =====
-- Answers to the challenges that are issued.
use ankah.Prelude.{
  ℕ, zero, suc, ◌+◌, ◌≤◌, ◌≡◌, ◌↔◌, refl, sym, ap, ◌∙◌, true, not, ◌&&◌, ◌||◌, List, [], ◌∷◌, ◌++◌,
  arith, Option, none, some, ◌>>=◌, guard, >>=-eq-some, ltb, lt→ltb, ◌==◌, ==_iff, take,
  some-injective, length, length-append, Bytes, codes,
}
use ankah.Prelude.Words.{add64, size_max}
use ankah.Session.Create.{id_time}
use ankah.Pow.Text.{hex_encode, decimal, fitting, decimal_digits}
use ankah.Pow.Text.Decimal.{decimal_u64-decimal, length-decimal_digits}
use ankah.Pow.Text.Fields.{
  AllBytes, decimal-NoDot, hex_encode-NoDot, length-hex_encode, lower_hex-hex_encode,
}
use ankah.Pow.Bits.{ZeroBits, meets-ZeroBits}
use ankah.Pow.Answer.{
  nonce_size, challenge_text_max, dotted, meets, mac, signed, issue_challenge,
  challenge_for_session, check_answer,
}
use ankah.Pow.Issue.{
  cut_parts-dotted, fitting_then, mac-is_signature, check_signature-mac, signed-parts,
}

-- The digest of an answer is what decides.
abbrev solves : (Bytes → Option (List ℕ)) → ℕ → List ℕ → ℕ → Option (Unit {0})
solves sha256 bits nonce counter = do
  digest ← sha256 (hex_encode nonce ++ b':' ∷ decimal counter)
  guard (meets bits digest)

module _ (sha256 : Bytes → Option (List ℕ)) (bits : ℕ) (nonce : List ℕ) (counter : ℕ)
    (hash_sized : (message : Bytes) (digest : List ℕ)
      → sha256 message ≡ some digest
      → (length digest ≡ 32) × AllBytes digest)
    (some_bytes : bits ≤ 256) where
  solves-ZeroBits : (solves sha256 bits nonce counter ≡ some tt) ↔ (
      (digest : List ℕ) × ((sha256 (hex_encode nonce ++ b':' ∷ decimal counter) ≡ some digest)
        × ZeroBits bits digest))
  solves-ZeroBits = (
    (λ e.
        let (digest, hashed, met) =
          >>=-eq-some (sha256 (hex_encode nonce ++ b':' ∷ decimal counter)) _ e in
        let (long, bytes) = hash_sized _ digest hashed in
        (
          digest,
          (
            hashed,
            (meets-ZeroBits bits digest bytes (omega (arith, long, some_bytes))).0 (ground arith),
          ),
        )),
    (λ (digest, (hashed, zero_bits)).
        let (long, bytes) = hash_sized _ digest hashed in
        rw
          (hashed, (meets-ZeroBits bits digest bytes (omega (arith, long, some_bytes))).1 zero_bits)
          refl),
  )

abbrev challenge_fields : List ℕ → ℕ → ℕ → Bytes
challenge_fields nonce issued bits =
    dotted (hex_encode nonce) (dotted (decimal issued) (decimal bits))

module _ (hmac : Bytes → Bytes → Option (List ℕ))
    (sized : (secret message : Bytes) (digest : List ℕ)
      → hmac secret message ≡ some digest
      → (length digest ≡ 32) × AllBytes digest)
    (sha256 : Bytes → Option (List ℕ)) (secret host : Bytes) (nonce : List ℕ)
    (issued bits now counter : ℕ) (long : length nonce ≡ 16) (bytes : AllBytes nonce)
    (low : 8 ≤ bits) (high : bits ≤ 24) (early : issued ≤ now + 30) (late : now ≤ issued + 300)
    (no_wrap : now + 30 ≤ size_max) (no_wrap_issued : issued + 300 ≤ size_max) where
  candidate_fits :
      fitting 96 (hex_encode nonce ++ b':' ∷ decimal counter)
      ≡ some (hex_encode nonce ++ b':' ∷ decimal counter)
  candidate_fits =
      rw
        (lt→ltb (length (hex_encode nonce ++ b':' ∷ decimal counter)) 96 (
          omega (
            arith,
            length-append (hex_encode nonce) (b':' ∷ decimal counter),
            length-hex_encode nonce,
            length-decimal_digits 20 counter,
          )))
        refl

  accept_answer :
      (signature : Bytes)
      → fitting 80 (challenge_fields nonce issued bits) ≡ some (challenge_fields nonce issued bits)
      → mac hmac secret (codes "challenge") host (challenge_fields nonce issued bits)
        ≡ some signature
      → ltb (length (dotted (challenge_fields nonce issued bits) signature)) challenge_text_max
        ≡ true
      → check_answer hmac sha256 secret host now
          (dotted (challenge_fields nonce issued bits) signature)
          counter
        ≡ solves sha256 bits nonce counter
  unfolding check_answer
  accept_answer signature fits made short =
      let in_time : not
            (ltb bits 8 || ltb 24 bits || ltb (add64 now 30) issued || ltb (add64 issued 300) now)
          ≡ true =
        ground arith in
      rw
        (
          short,
          cut_parts-dotted (hex_encode nonce) (decimal issued) (decimal bits) signature
              (hex_encode-NoDot nonce bytes) (decimal-NoDot issued) (decimal-NoDot bits),
        )
        (rw
          (
            (==_iff (length (hex_encode nonce)) 32).1 (omega (arith, length-hex_encode nonce)),
            lower_hex-hex_encode nonce 16 bytes long,
            mac-is_signature hmac sized secret (codes "challenge") host
                (challenge_fields nonce issued bits) signature made,
          )
          (rw (decimal_u64-decimal issued (omega arith), decimal_u64-decimal bits (omega arith))
            (rw (in_time, fits)
              (rw
                (check_signature-mac hmac sized secret (codes "challenge") host
                  (challenge_fields nonce issued bits) signature made)
                (rw candidate_fits refl)))))

  answer_decided :
      (text : Bytes)
      → issue_challenge hmac secret host issued bits (some nonce) ≡ some text
      → check_answer hmac sha256 secret host now text counter ≡ solves sha256 bits nonce counter
  unfolding issue_challenge
  answer_decided text e =
      let (u, allowed, e1) = >>=-eq-some (guard (not (ltb bits 8 || ltb 24 bits))) _ e in
      let (fits, e2) = fitting_then 80 (challenge_fields nonce issued bits) _ text e1 in
      let (signature, made, same, short) =
        signed-parts hmac sized challenge_text_max secret (codes "challenge") host
          (challenge_fields nonce issued bits) text e2 in
      rw (← same) (accept_answer signature fits made short)

  -- An answer to a challenge that was issued, in time: it is accepted exactly when the digest of
  -- the nonce and the counter has as many zero bits at its front, the highest of a byte first, as were
  -- asked for. Both hashes give 32 bytes.
  pub check_answer-issue_challenge :
      (hash_sized : (message : Bytes) (digest : List ℕ)
        → sha256 message ≡ some digest
        → (length digest ≡ 32) × AllBytes digest)
      (text : Bytes)
      → issue_challenge hmac secret host issued bits (some nonce) ≡ some text
      → (check_answer hmac sha256 secret host now text counter ≡ some tt) ↔ (
          (digest : List ℕ) × ((sha256 (hex_encode nonce ++ b':' ∷ decimal counter) ≡ some digest)
            × ZeroBits bits digest))
  check_answer-issue_challenge hash_sized text e =
      rw (answer_decided text e)
        (solves-ZeroBits sha256 bits nonce counter hash_sized (omega (arith, high)))

take-AllBytes : (n : ℕ) (bs : List ℕ) → AllBytes bs → AllBytes (take n bs)
take-AllBytes zero bs h = tt
take-AllBytes (suc n) [] h = tt
take-AllBytes (suc n) (b ∷ bs) h = (h.0, take-AllBytes n bs h.1)

length-take : (n : ℕ) (bs : List ℕ) → n ≤ length bs → length (take n bs) ≡ n
length-take zero bs h = refl
length-take (suc n) [] h = ground arith
length-take (suc n) (b ∷ bs) h = omega (arith, length-take n bs (omega arith))

bind_then :
    {A : Type 0} (m : Option A) (a : A) (f : A → Option Bytes) (out : Bytes)
    → m ≡ some a
    → (m >>= f) ≡ some out
    → f a ≡ some out
bind_then none a f out h e = cc
bind_then (some x) a f out h e = ap f (sym (some-injective x a h)) ∙ e

decimal_18 : decimal 18 ≡ codes "18"
unfolding decimal_digits
decimal_18 = refl

module _ (hmac : Bytes → Bytes → Option (List ℕ))
    (sized : (secret message : Bytes) (digest : List ℕ)
      → hmac secret message ≡ some digest
      → (length digest ≡ 32) × AllBytes digest)
    (sha256 : Bytes → Option (List ℕ)) (secret host id : Bytes) (digest : List ℕ)
    (issued now counter : ℕ) (time : id_time 0 0 id ≡ some issued)
    (hashed : hmac secret (codes "session|" ++ host ++ b'|' ∷ id) ≡ some digest)
    (early : issued ≤ now + 30) (late : now ≤ issued + 300) (no_wrap : now + 30 ≤ size_max)
    (no_wrap_issued : issued + 300 ≤ size_max) where
  -- The challenge of a session, made anywhere and at any time from the secret and the id alone: in
  -- time by the id, its answer is accepted exactly when the digest of the nonce, which is the first
  -- half of the digest of host and id, and the counter has 18 zero bits. The hash gives 32 bytes.
  check_answer-challenge_for_session :
      (made_at : ℕ) (text : Bytes)
      → challenge_for_session hmac secret host made_at id ≡ some text
      → check_answer hmac sha256 secret host now text counter
        ≡ solves sha256 18 (take nonce_size digest) counter
  unfolding challenge_for_session
  check_answer-challenge_for_session made_at text e =
      let (long, bytes) = sized secret (codes "session|" ++ host ++ b'|' ∷ id) digest hashed in
      let nonce = take nonce_size digest in
      let (u, named, e1) =
        >>=-eq-some (guard (length id == 32 && not (ltb 253 (length host)))) _ e in
      let e2 = bind_then (id_time 0 0 id) issued _ text time e1 in
      let (v, open_, e3) =
        >>=-eq-some (guard (not (ltb (add64 made_at 30) issued || ltb (add64 issued 300) made_at)))
          _ e2 in
      let (small, e4) = fitting_then 320 (codes "session|" ++ host ++ b'|' ∷ id) _ text e3 in
      let e5 =
        bind_then (hmac secret (codes "session|" ++ host ++ b'|' ∷ id)) digest _ text hashed e4 in
      let e6 : (fitting 80 (challenge_fields nonce issued 18)
            >>= signed hmac challenge_text_max secret (codes "challenge") host)
          ≡ some text =
        rw decimal_18 e5 in
      let (fits, e7) = fitting_then 80 (challenge_fields nonce issued 18) _ text e6 in
      let (signature, made, same, short) =
        signed-parts hmac sized challenge_text_max secret (codes "challenge") host
          (challenge_fields nonce issued 18) text e7 in
      rw (← same) (
        accept_answer hmac sized sha256 secret host nonce issued 18 now counter
          (length-take nonce_size digest (omega arith)) (take-AllBytes nonce_size digest bytes)
          (omega arith) (omega arith) early late no_wrap no_wrap_issued signature fits made short)
