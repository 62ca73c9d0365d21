-- ===== src/Pow/Genuine.antt =====
-- What is accepted was signed.
use ankah.Prelude.{
  ℕ, ◌+◌, ◌*◌, ◌≤◌, ◌≡◌, refl, sym, ap, ap₂, ◌∙◌, true, not, ◌&&◌, ◌||◌, List, [], ◌∷◌, arith,
  Option, none, some, some-injective, ◌>>=◌, ◌>>◌, guard, guard_then, guard-true, >>=-eq-some, ltb,
  ◌==◌, length, Bytes, codes, str_eq, str_eq_iff, Bool-cases, inl, inr,
}
use ankah.Prelude.Words.{add64, size_max}
use ankah.Pow.Text.{lower_hex, equal_secret, decimal_u64, cut_dot, fitting}
use ankah.Pow.Text.Fields.{AllBytes, equal_secret_eq}
use ankah.Pow.Answer.{
  pass_text_max, dotted, Parts, cut_parts, mac, check_pass_identity, check_signature, is_signature,
  client_id_size,
}
use ankah.Pow.Issue.{mac-is_signature, fitting_then}

cut_dot-whole :
    (text part rest : Bytes) → cut_dot text ≡ some (part, rest) → text ≡ dotted part rest
unfolding cut_dot
cut_dot-whole [] part rest e = cc
cut_dot-whole (c ∷ cs) part rest e = elim (Bool-cases (c == b'.')) [
  | inl dot ↦ ground (arith, dot)
  | inr other ↦ grind (arith, cut_dot-whole cs)
]

third-whole :
    (a b r2 : Bytes) (r : Option (Bytes × Bytes)) (p : Parts)
    → cut_dot r2 ≡ r
    → (r >>= λ x. some (record { first = a; second = b; third = x.0; signature = x.1 })) ≡ some p
    → (p.first ≡ a) × (p.second ≡ b) × (r2 ≡ dotted p.third p.signature)
third-whole a b r2 none p h e = cc
third-whole a b r2 (some (c, s)) p h e =
    let same = some-injective (record { first = a; second = b; third = c; signature = s }) p e in
    (
      ap (λ p. p.first) (sym same),
      ap (λ p. p.second) (sym same),
      cut_dot-whole r2 c s h ∙ ap (λ p. dotted p.third p.signature) same,
    )

second-whole :
    (a r1 : Bytes) (r : Option (Bytes × Bytes)) (p : Parts)
    → cut_dot r1 ≡ r
    → (r >>= λ y. cut_dot y.1 >>= λ x.
        some (record { first = a; second = y.0; third = x.0; signature = x.1 }))
      ≡ some p
    → (p.first ≡ a) × (r1 ≡ dotted p.second (dotted p.third p.signature))
second-whole a r1 none p h e = cc
second-whole a r1 (some (b, r2)) p h e =
    let (same_a, same_b, rest) = third-whole a b r2 (cut_dot r2) p refl e in
    (same_a, cut_dot-whole r1 b r2 h ∙ ap₂ dotted (sym same_b) rest)

first-whole :
    (text : Bytes) (r : Option (Bytes × Bytes)) (p : Parts)
    → cut_dot text ≡ r
    → (r >>= λ z. cut_dot z.1 >>= λ y. cut_dot y.1 >>= λ x.
        some (record { first = z.0; second = y.0; third = x.0; signature = x.1 }))
      ≡ some p
    → text ≡ dotted p.first (dotted p.second (dotted p.third p.signature))
first-whole text none p h e = cc
first-whole text (some (a, r1)) p h e =
    let (same_a, rest) = second-whole a r1 (cut_dot r1) p refl e in
    cut_dot-whole text a r1 h ∙ ap₂ dotted (sym same_a) rest

cut_parts-whole :
    (text : Bytes) (p : Parts)
    → cut_parts text ≡ some p
    → text ≡ dotted p.first (dotted p.second (dotted p.third p.signature))
unfolding cut_parts
cut_parts-whole text p e = first-whole text (cut_dot text) p refl e

is_signature-length : (text : Bytes) → is_signature text ≡ true → length text ≡ 64
is_signature-length text h = ground arith

-- A version 2 pass that names `id`, signed for the host, within its time.
pub record Genuine (hmac : Bytes → Bytes → Option (List ℕ)) (secret host : Bytes) (now : ℕ)
    (pass id : Bytes) : Type 0 where
  pub timestamp : Bytes
  pub signature : Bytes
  pub expiry : ℕ
  pub text : pass ≡ dotted (codes "2") (dotted id (dotted timestamp signature))
  pub reads : decimal_u64 timestamp ≡ some expiry
  pub not_over : now ≤ expiry
  pub within_day : expiry ≤ now + 86400
  pub made :
      mac hmac secret (codes "pass") host (dotted (codes "2") (dotted id timestamp))
      ≡ some signature

module _ (hmac : Bytes → Bytes → Option (List ℕ))
    (sized : (secret message : Bytes) (digest : List ℕ)
      → hmac secret message ≡ some digest
      → (length digest ≡ 32) × AllBytes digest)
    (secret host : Bytes) (now : ℕ) (no_wrap : now + 86400 ≤ size_max) where
  check_signature-signed :
      (kind fields signature : Bytes)
      → is_signature signature ≡ true
      → check_signature hmac secret kind host fields signature ≡ some tt
      → mac hmac secret kind host fields ≡ some signature
  check_signature-signed kind fields signature h e =
      let (expected, made, e1) = >>=-eq-some (mac hmac secret kind host fields) _ e in
      made
      ∙ ap some (
          sym (
            equal_secret_eq signature expected 64 (is_signature-length signature h)
              (is_signature-length expected
                (mac-is_signature hmac sized secret kind host fields expected made))
              (guard-true (equal_secret signature expected 64) e1)))

  Genuine-parts :
      (pass id : Bytes) (p : Parts)
      → pass ≡ dotted p.first (dotted p.second (dotted p.third p.signature))
      → (guard (str_eq p.first (codes "2"))
          >> (guard
                (length p.second == client_id_size * 2 && lower_hex p.second (client_id_size * 2))
              >> (decimal_u64 p.third >>= λ expiry.
                  guard (not (ltb expiry now || ltb (add64 now 86400) expiry))
                  >> (guard (is_signature p.signature)
                      >> (fitting 96 (dotted (codes "2") (dotted p.second p.third)) >>= λ fields.
                          check_signature hmac secret (codes "pass") host fields p.signature
                          >> some p.second)))))
        ≡ some id
      → Genuine hmac secret host now pass id
  Genuine-parts pass id p whole e =
      let (two, e1) = guard_then (str_eq p.first (codes "2")) _ id e in
      let (hex, e2) =
        guard_then
          (length p.second == client_id_size * 2 && lower_hex p.second (client_id_size * 2)) _ id
          e1 in
      let (expiry, reads, e3) = >>=-eq-some (decimal_u64 p.third) _ e2 in
      let (in_time, e4) =
        guard_then (not (ltb expiry now || ltb (add64 now 86400) expiry)) _ id e3 in
      let (sig, e5) = guard_then (is_signature p.signature) _ id e4 in
      let (fits, e6) = fitting_then 96 (dotted (codes "2") (dotted p.second p.third)) _ id e5 in
      let (u, checked, e7) =
        >>=-eq-some
          (check_signature hmac secret (codes "pass") host
            (dotted (codes "2") (dotted p.second p.third)) p.signature)
          _ e6 in
      let same = some-injective p.second id e7 in
      record {
        timestamp = p.third;
        signature = p.signature;
        expiry = expiry;
        text =
            whole
            ∙ ap₂ (λ a b. dotted a (dotted b (dotted p.third p.signature)))
                ((str_eq_iff p.first (codes "2")).0 two) same;
        reads = reads;
        not_over = ground arith;
        within_day = ground arith;
        made = rw (← same) (
            check_signature-signed (codes "pass") (dotted (codes "2") (dotted p.second p.third))
              p.signature sig checked);
      }

  -- Only signed passes are accepted: where `check_pass_identity` names a client, the pass is a text
  -- "2.<id>.<expiry>.<signature>" with that id, an expiry from now to a day ahead, and the signature
  -- that the secret gives to the other fields for this host. The hash gives 32 bytes.
  pub check_pass_identity-Genuine :
      (pass id : Bytes)
      → check_pass_identity hmac secret host now pass ≡ some id
      → Genuine hmac secret host now pass id
  unfolding check_pass_identity
  check_pass_identity-Genuine pass id e =
      let (short, e1) = guard_then (ltb (length pass) pass_text_max) _ id e in
      let (p, cut, e2) = >>=-eq-some (cut_parts pass) _ e1 in
      Genuine-parts pass id p (cut_parts-whole pass p cut) e2
