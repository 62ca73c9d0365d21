-- ===== src/Pow/Answer.antt =====
-- src/pow.c: issuing and checking challenges and passes.
use ankah.Prelude.{
  ℕ, zero, suc, ◌-◌, ◌/◌, ◌%◌, ◌*◌, ◌^◌, Bool, true, false, not, ◌&&◌, ◌||◌, List, [], ◌∷◌, ◌++◌,
  Option, none, some, ◌>>=◌, ◌>>◌, guard, ltb, ◌==◌, length, take, get_or, Bytes, codes, str_eq,
}
use ankah.Prelude.Words.{add64}
use ankah.Session.Create.{id_time}
use ankah.Pow.Text.{hex_encode, lower_hex, equal_secret, decimal_u64, decimal, cut_dot, fitting}

abbrev pub nonce_size : ℕ
nonce_size = 16

abbrev pub client_id_size : ℕ
client_id_size = 16

abbrev pub mac_size : ℕ
mac_size = 32

abbrev pub challenge_text_max : ℕ
challenge_text_max = 160

abbrev pub pass_text_max : ℕ
pass_text_max = 160

-- "%s.%s"
abbrev pub dotted : Bytes → Bytes → Bytes
dotted a b = a ++ b'.' ∷ b

-- The first `n` bytes are zero.
abbrev pub zeros : ℕ → List ℕ → Bool
zeros zero digest = true
zeros (suc n) [] = false
zeros (suc n) (b ∷ bs) = b == 0 && zeros n bs

-- The digest of an answer begins with `bit_count` zero bits.
unfoldable pub meets : ℕ → List ℕ → Bool
meets bit_count digest =
    let full_bytes = bit_count / 8 in
    let remaining = bit_count % 8 in
    zeros full_bytes digest
    && (remaining == 0 || get_or digest full_bytes 0 / 2 ^ (8 - remaining) == 0)

-- A challenge or a version 2 pass, cut at its first three dots.
pub record Parts : Type 0 where
  pub first : Bytes
  pub second : Bytes
  pub third : Bytes
  pub signature : Bytes

unfoldable pub cut_parts : Bytes → Option Parts
cut_parts text = do
  (a, rest) ← cut_dot text
  (b, rest) ← cut_dot rest
  (c, signature) ← cut_dot rest
  some (record { first = a; second = b; third = c; signature = signature })

abbrev pub is_signature : Bytes → Bool
is_signature text = length text == mac_size * 2 && lower_hex text (mac_size * 2)

-- `hmac secret message` and `sha256 message` are the digests of mbedtls, or a failure.
module _ (hmac : Bytes → Bytes → Option (List ℕ)) where
  -- The signature, in hexadecimal.
  unfoldable pub mac : Bytes → Bytes → Bytes → Bytes → Option Bytes
  mac secret kind host fields = do
    guard (not (ltb 253 (length host)))
    message ← fitting 512 (kind ++ b'|' ∷ host ++ b'|' ∷ fields)
    digest ← hmac secret message
    some (hex_encode digest)

  -- The fields, signed; `size` is the size of the buffer.
  unfoldable pub signed : ℕ → Bytes → Bytes → Bytes → Bytes → Option Bytes
  signed size secret kind host fields = do
    signature ← mac secret kind host fields
    fitting size (dotted fields signature)

  -- `nonce` is what ankah_random gives.
  unfoldable pub issue_challenge : Bytes → Bytes → ℕ → ℕ → Option (List ℕ) → Option Bytes
  issue_challenge secret host now bits nonce = do
    guard (not (ltb bits 8 || ltb 24 bits))
    bytes ← nonce
    fields ← fitting 80 (dotted (hex_encode bytes) (dotted (decimal now) (decimal bits)))
    signed challenge_text_max secret (codes "challenge") host fields

  unfoldable pub issue_pass : Bytes → Bytes → ℕ → Option (List ℕ) → Option Bytes
  issue_pass secret host expiry client_id = do
    bytes ← client_id
    fields ← fitting 96 (dotted (codes "2") (dotted (hex_encode bytes) (decimal expiry)))
    signed pass_text_max secret (codes "pass") host fields

  -- `session`'s id holds its time of issue; the nonce is a digest of the id.
  unfoldable pub challenge_for_session : Bytes → Bytes → ℕ → Bytes → Option Bytes
  challenge_for_session secret host now id = do
    guard (length id == 32 && not (ltb 253 (length host)))
    issued ← id_time 0 0 id
    guard (not (ltb (add64 now 30) issued || ltb (add64 issued 300) now))
    message ← fitting 320 (codes "session|" ++ host ++ b'|' ∷ id)
    digest ← hmac secret message
    fields ←
        fitting 80
          (dotted (hex_encode (take nonce_size digest)) (dotted (decimal issued) (codes "18")))
    signed challenge_text_max secret (codes "challenge") host fields

  -- `mac(…, expected) != 0 || !equal_secret(signature, expected, …)`
  abbrev pub check_signature : Bytes → Bytes → Bytes → Bytes → Bytes → Option (Unit {0})
  check_signature secret kind host fields signature = do
    expected ← mac secret kind host fields
    guard (equal_secret signature expected (mac_size * 2))

  -- `some` where the function returns 0.
  unfoldable pub check_answer :
      (sha256 : Bytes → Option (List ℕ)) → Bytes → Bytes → ℕ → Bytes → ℕ → Option (Unit {0})
  check_answer sha256 secret host now challenge counter = do
    guard (ltb (length challenge) challenge_text_max)
    p ← cut_parts challenge
    guard (length p.first == nonce_size * 2 && lower_hex p.first (nonce_size * 2))
    guard (is_signature p.signature)
    issued ← decimal_u64 p.second
    bit_count ← decimal_u64 p.third
    guard (
        not (
          ltb bit_count 8
          || ltb 24 bit_count
          || ltb (add64 now 30) issued
          || ltb (add64 issued 300) now))
    fields ← fitting 80 (dotted p.first (dotted p.second p.third))
    check_signature secret (codes "challenge") host fields p.signature
    candidate ← fitting 96 (p.first ++ b':' ∷ decimal counter)
    digest ← sha256 candidate
    guard (meets bit_count digest)

  -- The client id of a version 2 pass.
  unfoldable pub check_pass_identity : Bytes → Bytes → ℕ → Bytes → Option Bytes
  check_pass_identity secret host now pass = do
    guard (ltb (length pass) pass_text_max)
    p ← cut_parts pass
    guard (str_eq p.first (codes "2"))
    guard (length p.second == client_id_size * 2 && lower_hex p.second (client_id_size * 2))
    expiry ← decimal_u64 p.third
    guard (not (ltb expiry now || ltb (add64 now 86400) expiry))
    guard (is_signature p.signature)
    fields ← fitting 96 (dotted (codes "2") (dotted p.second p.third))
    check_signature secret (codes "pass") host fields p.signature
    some p.second

  unfoldable pub check_legacy_pass : Bytes → Bytes → ℕ → Bytes → Option (Unit {0})
  check_legacy_pass secret host now pass = do
    guard (ltb (length pass) pass_text_max)
    (fields, signature) ← cut_dot pass
    expiry ← decimal_u64 fields
    guard (not (ltb expiry now || ltb (add64 now 86400) expiry))
    guard (is_signature signature)
    check_signature secret (codes "pass") host fields signature

  unfoldable pub check_pass : Bytes → Bytes → ℕ → Bytes → Option (Unit {0})
  check_pass secret host now pass = elim (check_pass_identity secret host now pass) [
    | some identity ↦ some tt
    | none ↦ check_legacy_pass secret host now pass
  ]
