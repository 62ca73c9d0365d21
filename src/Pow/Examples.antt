-- ===== src/Pow/Examples.antt =====
-- A hash whose digests are all the same, and what is issued with it.
use ankah.Prelude.{
  ℕ, zero, suc, ◌≡◌, ◌↔◌, false, ◌∷◌, refl, List, [], ◌++◌, Option, some, some-injective, arith,
  length, replicate, Bytes, codes, subst,
}
use ankah.Session.Create.{id_time}
use ankah.Pow.Text.{hex_encode, decimal, decimal_digits}
use ankah.Pow.Text.Fields.{AllBytes}
use ankah.Pow.Answer.{
  dotted, mac, signed, meets, issue_challenge, issue_pass, challenge_for_session, check_answer,
  check_pass_identity,
}
use ankah.Pow.Bits.{ZeroBits, digest_bit}
use ankah.Pow.Issue.{check_pass_identity-issue_pass}
use ankah.Pow.Solve.{check_answer-issue_challenge}
use ankah.Pow.Genuine.{Genuine, check_pass_identity-Genuine}

abbrev hash : Bytes → Bytes → Option (List ℕ)
hash secret message = some (replicate 32 7)

sevens-AllBytes : (n : ℕ) → AllBytes (replicate n 7)
sevens-AllBytes zero = tt
sevens-AllBytes (suc n) = (omega arith, sevens-AllBytes n)

hash_sized :
    (secret message : Bytes) (digest : List ℕ)
    → hash secret message ≡ some digest
    → (length digest ≡ 32) × AllBytes digest
hash_sized secret message digest e =
    subst (λ d. (length d ≡ 32) × AllBytes d) (some-injective (replicate 32 7) digest e)
      (refl, sevens-AllBytes 32)

-- A digest with 16 zero bits.
abbrev sha : Bytes → Option (List ℕ)
sha message = some (replicate 2 0 ++ replicate 30 255)

abbrev host : Bytes
host = codes "example.org"

abbrev nonce : List ℕ
nonce = replicate 16 9

abbrev pass : Bytes
pass =
    dotted (dotted (codes "2") (dotted (hex_encode nonce) (decimal 5000)))
      (hex_encode (replicate 32 7))

abbrev challenge : Bytes
challenge =
    dotted (dotted (hex_encode nonce) (dotted (decimal 5000) (decimal 12)))
      (hex_encode (replicate 32 7))

abbrev id : Bytes
id = codes "000003e8445566778899aabbccddeeff"

abbrev id_challenge : Bytes
id_challenge =
    dotted (dotted (hex_encode (replicate 16 7)) (dotted (decimal 1000) (codes "18")))
      (hex_encode (replicate 32 7))

nines-AllBytes : AllBytes nonce
nines-AllBytes = omega arith

pass_issued : issue_pass hash [] host 5000 (some nonce) ≡ some pass
unfolding issue_pass signed mac hex_encode decimal_digits
pass_issued = refl

check_pass_identity-issue_pass_example :
    check_pass_identity hash [] host 4000 pass ≡ some (hex_encode nonce)
check_pass_identity-issue_pass_example =
    check_pass_identity-issue_pass hash hash_sized [] host nonce 5000 4000 refl nines-AllBytes
      (omega arith) (omega arith) (omega arith) pass pass_issued

check_pass_identity-Genuine_example : Genuine hash [] host 4000 pass (hex_encode nonce)
check_pass_identity-Genuine_example =
    check_pass_identity-Genuine hash hash_sized [] host 4000 (omega arith) pass (hex_encode nonce)
      check_pass_identity-issue_pass_example

challenge_issued : issue_challenge hash [] host 5000 12 (some nonce) ≡ some challenge
unfolding issue_challenge signed mac hex_encode decimal_digits
challenge_issued = refl

sha_sized :
    (message : Bytes) (digest : List ℕ)
    → sha message ≡ some digest
    → (length digest ≡ 32) × AllBytes digest
sha_sized message digest e =
    subst (λ d. (length d ≡ 32) × AllBytes d)
      (some-injective (replicate 2 0 ++ replicate 30 255) digest e) (refl, omega arith)

check_answer-issue_challenge_example :
    (check_answer hash sha [] host 5100 challenge 42 ≡ some tt) ↔ (
      (digest : List ℕ) × ((sha (hex_encode nonce ++ b':' ∷ decimal 42) ≡ some digest)
        × ZeroBits 12 digest))
check_answer-issue_challenge_example =
    check_answer-issue_challenge hash hash_sized sha [] host nonce 5000 12 5100 42 refl
      nines-AllBytes (omega arith) (omega arith) (omega arith) (omega arith) (omega arith)
      (omega arith) sha_sized challenge challenge_issued

-- A digest with 16 zero bits has 12 of them.
twelve_bits : ZeroBits 12 (replicate 2 0 ++ replicate 30 255)
unfolding digest_bit
twelve_bits = omega arith

seventeenth_bit : digest_bit (replicate 2 0 ++ replicate 30 255) 16 ≡ 1
unfolding digest_bit
seventeenth_bit = refl

seventeen_refused : meets 17 (replicate 2 0 ++ replicate 30 255) ≡ false
unfolding meets
seventeen_refused = refl

id_issued : challenge_for_session hash [] host 1010 id ≡ some id_challenge
unfolding challenge_for_session signed mac hex_encode decimal_digits id_time
id_issued = refl

id_time_1000 : id_time 0 0 id ≡ some 1000
unfolding id_time
id_time_1000 = refl
