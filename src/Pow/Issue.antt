-- ===== src/Pow/Issue.antt =====
-- What is issued is accepted.
use mathlib.Core.List.{append_assoc}
use ankah.Prelude.{
  ℕ, ◌+◌, ◌*◌, ◌≤◌, ◌≡◌, refl, true, not, ◌||◌, List, ◌∷◌, ◌++◌, arith, Option, some,
  some-injective, ◌>>=◌, guard, >>=-eq-some, ltb, ==_iff, length, Bytes, codes, Bool-cases, inl,
  inr,
}
use ankah.Prelude.Words.{add64, size_max}
use ankah.Pow.Text.{hex_encode, decimal, fitting}
use ankah.Pow.Text.Decimal.{decimal_u64-decimal}
use ankah.Pow.Text.Fields.{
  AllBytes, NoDot, cut_dot-append, decimal-NoDot, hex_encode-NoDot, length-hex_encode,
  lower_hex-hex_encode, equal_secret_refl,
}
use ankah.Pow.Answer.{
  mac_size, pass_text_max, dotted, cut_parts, mac, signed, issue_pass, check_pass_identity,
  check_signature, is_signature,
}

pub cut_parts-dotted :
    (a b c s : Bytes)
    → NoDot a
    → NoDot b
    → NoDot c
    → cut_parts (dotted (dotted a (dotted b c)) s)
      ≡ some (record { first = a; second = b; third = c; signature = s })
unfolding cut_parts
cut_parts-dotted a b c s ha hb hc =
    rw (append_assoc a (b'.' ∷ (b ++ b'.' ∷ c)) (b'.' ∷ s), append_assoc b (b'.' ∷ c) (b'.' ∷ s))
      (rw (cut_dot-append a (dotted b (dotted c s)) ha)
        (rw (cut_dot-append b (dotted c s) hb) (rw (cut_dot-append c s hc) refl)))

fitting-eq-some :
    (n : ℕ) (text out : Bytes)
    → fitting n text ≡ some out
    → (text ≡ out) × (ltb (length text) n ≡ true)
fitting-eq-some n text out = ground arith

pub fitting_then :
    (n : ℕ) (text : Bytes) (f : Bytes → Option Bytes) (out : Bytes)
    → (fitting n text >>= f) ≡ some out
    → (fitting n text ≡ some text) × (f text ≡ some out)
fitting_then n text f out = elim (Bool-cases (ltb (length text) n)) [
  | inl short ↦ rw short (λ e. (refl, e))
  | inr long ↦ rw long (λ e. cc)
]

module _ (hmac : Bytes → Bytes → Option (List ℕ))
    (sized : (secret message : Bytes) (digest : List ℕ)
      → hmac secret message ≡ some digest
      → (length digest ≡ 32) × AllBytes digest) where
  pub mac-is_signature :
      (secret kind host fields signature : Bytes)
      → mac hmac secret kind host fields ≡ some signature
      → is_signature signature ≡ true
  unfolding mac
  mac-is_signature secret kind host fields signature e =
      let (u, within, e1) = >>=-eq-some (guard (not (ltb 253 (length host)))) _ e in
      let (message, fits, e2) =
        >>=-eq-some (fitting 512 (kind ++ b'|' ∷ host ++ b'|' ∷ fields)) _ e1 in
      let (digest, hashed, e3) = >>=-eq-some (hmac secret message) _ e2 in
      let (long, bytes) = sized secret message digest hashed in
      rw (← some-injective (hex_encode digest) signature e3) (
        rw
          (
            lower_hex-hex_encode digest 32 bytes long,
            (==_iff (length (hex_encode digest)) 64).1 (omega (arith, length-hex_encode digest)),
          )
          refl)

  -- A signature of the fields is accepted.
  pub check_signature-mac :
      (secret kind host fields signature : Bytes)
      → mac hmac secret kind host fields ≡ some signature
      → check_signature hmac secret kind host fields signature ≡ some tt
  check_signature-mac secret kind host fields signature e =
      rw (e, equal_secret_refl signature (mac_size * 2)) refl

  pub signed-parts :
      (size : ℕ) (secret kind host fields text : Bytes)
      → signed hmac size secret kind host fields ≡ some text
      → (signature : Bytes) × (mac hmac secret kind host fields ≡ some signature)
        × (dotted fields signature ≡ text)
        × (ltb (length (dotted fields signature)) size ≡ true)
  unfolding signed
  signed-parts size secret kind host fields text e =
      let (signature, made, e1) = >>=-eq-some (mac hmac secret kind host fields) _ e in
      let (same, fits) = fitting-eq-some size (dotted fields signature) text e1 in
      (signature, made, same, fits)

  module _ (secret host : Bytes) (id : List ℕ) (expiry now : ℕ) (long : length id ≡ 16)
      (bytes : AllBytes id) (from : now ≤ expiry) (to : expiry ≤ now + 86400)
      (no_wrap : now + 86400 ≤ size_max) where
    abbrev pass_fields : Bytes
    pass_fields = dotted (codes "2") (dotted (hex_encode id) (decimal expiry))

    accept_pass :
        (signature : Bytes)
        → fitting 96 pass_fields ≡ some pass_fields
        → mac hmac secret (codes "pass") host pass_fields ≡ some signature
        → ltb (length (dotted pass_fields signature)) pass_text_max ≡ true
        → check_pass_identity hmac secret host now (dotted pass_fields signature)
          ≡ some (hex_encode id)
    unfolding check_pass_identity
    accept_pass signature fits made short =
        let in_time : not (ltb expiry now || ltb (add64 now 86400) expiry) ≡ true = ground arith in
        rw
          (
            short,
            cut_parts-dotted (codes "2") (hex_encode id) (decimal expiry) signature (refl, tt)
                (hex_encode-NoDot id bytes) (decimal-NoDot expiry),
          )
          (rw
            (
              (==_iff (length (hex_encode id)) 32).1 (omega (arith, length-hex_encode id)),
              lower_hex-hex_encode id 16 bytes long,
            )
            (rw (decimal_u64-decimal expiry (omega arith)) (
              rw
                (
                  in_time,
                  mac-is_signature secret (codes "pass") host pass_fields signature made,
                  fits,
                )
                (rw (check_signature-mac secret (codes "pass") host pass_fields signature made)
                  refl))))

    -- A pass for an id of 16 bytes: while it has not run out, and runs out within a day, it is
    -- accepted and names that id. The hash gives 32 bytes.
    pub check_pass_identity-issue_pass :
        (pass : Bytes)
        → issue_pass hmac secret host expiry (some id) ≡ some pass
        → check_pass_identity hmac secret host now pass ≡ some (hex_encode id)
    unfolding issue_pass
    check_pass_identity-issue_pass pass e =
        let (fits, e1) = fitting_then 96 pass_fields _ pass e in
        let (signature, made, text, short) =
          signed-parts pass_text_max secret (codes "pass") host pass_fields pass e1 in
        rw (← text) (accept_pass signature fits made short)
