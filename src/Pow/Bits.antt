-- ===== src/Pow/Bits.antt =====
-- The zero bits that a digest begins with.
use native.Mathlib.Nat.{div-eq_of_lt, zero-div, pow-le-pow_right}
use ankah.Prelude.{
  ℕ, zero, suc, ◌+◌, ◌-◌, ◌*◌, ◌/◌, ◌%◌, ◌^◌, ◌≤◌, ◌<◌, ◌≡◌, ◌↔◌, refl, inl, inr, true, ◌||◌, List,
  [], ◌∷◌, arith, ltb, ◌==◌, length, get_or, Bool-cases, subst,
}
use ankah.Pow.Text.Fields.{AllBytes}
use ankah.Pow.Answer.{zeros, meets}

-- The highest bit of the first byte is the bit 0.
unfoldable pub digest_bit : List ℕ → ℕ → ℕ
digest_bit digest i = get_or digest (i / 8) 0 / 2 ^ (7 - i % 8) % 2

zeros-get_or :
    (n : ℕ) (digest : List ℕ) (j : ℕ) → zeros n digest ≡ true → j < n → get_or digest j 0 ≡ 0
zeros-get_or zero digest j z lt = omega arith
zeros-get_or (suc n) [] j z lt = refl
zeros-get_or (suc n) (b ∷ bs) zero z lt = ground arith
zeros-get_or (suc n) (b ∷ bs) (suc j) z lt = zeros-get_or n bs j (ground arith) (omega arith)

get_or-zeros :
    (n : ℕ) (digest : List ℕ)
    → n ≤ length digest
    → ((j : ℕ) → j < n → get_or digest j 0 ≡ 0)
    → zeros n digest ≡ true
get_or-zeros zero digest le all = refl
get_or-zeros (suc n) [] le all = ground arith
get_or-zeros (suc n) (b ∷ bs) le all =
    let first : b ≡ 0 = all 0 (omega arith) in
    let rest : zeros n bs ≡ true =
      get_or-zeros n bs (omega arith) (λ j lt. all (suc j) (omega arith)) in
    rw (first, rest) refl

-- A byte whose first `r` bits are zero.
byte_zeros :
    (r b : ℕ)
    → r < 8
    → b < 256
    → ((k : ℕ) → k < r → b / 2 ^ (7 - k) % 2 ≡ 0)
    → (r == 0 || b / 2 ^ (8 - r) == 0) ≡ true
byte_zeros zero b lt byte all = refl
byte_zeros (suc zero) b lt byte all = ground (arith, all 0)
byte_zeros (suc (suc zero)) b lt byte all = ground (arith, all 0, all 1)
byte_zeros (suc (suc (suc zero))) b lt byte all = ground (arith, all 0, all 1, all 2)
byte_zeros (suc (suc (suc (suc zero)))) b lt byte all = ground (arith, all 0, all 1, all 2, all 3)
byte_zeros (suc (suc (suc (suc (suc zero))))) b lt byte all =
    ground (arith, all 0, all 1, all 2, all 3, all 4)
byte_zeros (suc (suc (suc (suc (suc (suc zero)))))) b lt byte all =
    ground (arith, all 0, all 1, all 2, all 3, all 4, all 5)
byte_zeros (suc (suc (suc (suc (suc (suc (suc zero))))))) b lt byte all =
    ground (arith, all 0, all 1, all 2, all 3, all 4, all 5, all 6)
byte_zeros (suc (suc (suc (suc (suc (suc (suc (suc r)))))))) b lt byte all =
    absurd (omega (arith, lt))

byte_below : (r b : ℕ) → r < 8 → 0 < r → (r == 0 || b / 2 ^ (8 - r) == 0) ≡ true → b < 2 ^ (8 - r)
byte_below zero b lt some_bit z = absurd (omega (arith, some_bit))
byte_below (suc zero) b lt some_bit z = ground arith
byte_below (suc (suc zero)) b lt some_bit z = ground arith
byte_below (suc (suc (suc zero))) b lt some_bit z = ground arith
byte_below (suc (suc (suc (suc zero)))) b lt some_bit z = ground arith
byte_below (suc (suc (suc (suc (suc zero))))) b lt some_bit z = ground arith
byte_below (suc (suc (suc (suc (suc (suc zero)))))) b lt some_bit z = ground arith
byte_below (suc (suc (suc (suc (suc (suc (suc zero))))))) b lt some_bit z = ground arith
byte_below (suc (suc (suc (suc (suc (suc (suc (suc r)))))))) b lt some_bit z =
    absurd (omega (arith, lt))

zeros_byte :
    (r b k : ℕ) → r < 8 → (r == 0 || b / 2 ^ (8 - r) == 0) ≡ true → k < r → b / 2 ^ (7 - k) % 2 ≡ 0
zeros_byte r b k lt z less =
    let small : b < 2 ^ (7 - k) = omega (
      arith,
      byte_below r b lt (omega (arith, less)) z,
      pow-le-pow_right {n = 2} (omega arith) {i = 8 - r} {j = 7 - k} (omega (arith, less, lt)),
    ) in
    rw (div-eq_of_lt small) refl

byte_zero : (b : ℕ) → b < 256 → ((k : ℕ) → k < 8 → b / 2 ^ (7 - k) % 2 ≡ 0) → b ≡ 0
byte_zero b byte all = omega (
  arith,
  all 0 (omega arith),
  all 1 (omega arith),
  all 2 (omega arith),
  all 3 (omega arith),
  all 4 (omega arith),
  all 5 (omega arith),
  all 6 (omega arith),
  all 7 (omega arith),
)

get_or-AllBytes : (digest : List ℕ) (j : ℕ) → AllBytes digest → get_or digest j 0 < 256
get_or-AllBytes [] j bytes = omega arith
get_or-AllBytes (b ∷ bs) zero bytes = bytes.0
get_or-AllBytes (b ∷ bs) (suc j) bytes = get_or-AllBytes bs j bytes.1

-- The first `n` bits are zero.
abbrev pub ZeroBits : ℕ → List ℕ → Type 0
ZeroBits zero digest = Unit {0}
ZeroBits (suc n) digest = ZeroBits n digest × (digest_bit digest n ≡ 0)

ZeroBits-bits :
    (n : ℕ) (digest : List ℕ) → ZeroBits n digest → (i : ℕ) → i < n → digest_bit digest i ≡ 0
ZeroBits-bits zero digest z i lt = absurd (omega (arith, lt))
ZeroBits-bits (suc n) digest (z, last) i lt = elim (Bool-cases (i == n)) [
  | inl same ↦ let at : i ≡ n = ground arith in rw at last
  | inr other ↦ ZeroBits-bits n digest z i (ground arith)
]

ZeroBits-of_bits :
    (n : ℕ) (digest : List ℕ) → ((i : ℕ) → i < n → digest_bit digest i ≡ 0) → ZeroBits n digest
ZeroBits-of_bits zero digest all = tt
ZeroBits-of_bits (suc n) digest all =
    (ZeroBits-of_bits n digest (λ i lt. all i (omega (arith, lt))), all n (omega arith))

module _ (bits : ℕ) (digest : List ℕ) (bytes : AllBytes digest)
    (long : bits ≤ 8 * length digest) where
  meets-digest_bit : meets bits digest ≡ true → (i : ℕ) → i < bits → digest_bit digest i ≡ 0
  unfolding meets digest_bit
  meets-digest_bit m i lt = elim (Bool-cases (ltb (i / 8) (bits / 8))) [
    | inl whole ↦
        rw
          (
            zeros-get_or (bits / 8) digest (i / 8) (ground arith) (ground arith),
            zero-div (2 ^ (7 - i % 8)),
          )
          refl
    | inr last ↦
        let same : i / 8 ≡ bits / 8 = ground arith in
        rw same (
          zeros_byte (bits % 8) (get_or digest (bits / 8) 0) (i % 8) (omega arith) (ground arith)
            (omega (arith, lt, same)))
  ]

  digest_bit-meets : ((i : ℕ) → i < bits → digest_bit digest i ≡ 0) → meets bits digest ≡ true
  unfolding meets digest_bit
  digest_bit-meets all =
      let bit : (j k : ℕ) → k < 8 → 8 * j + k < bits → get_or digest j 0 / 2 ^ (7 - k) % 2 ≡ 0 =
        λ j k lt less.
          let at : (8 * j + k) / 8 ≡ j = omega (arith, lt) in
          let place : (8 * j + k) % 8 ≡ k = omega (arith, lt) in
          subst (λ x. get_or digest x 0 / 2 ^ (7 - k) % 2 ≡ 0) at
            (subst (λ x. get_or digest ((8 * j + k) / 8) 0 / 2 ^ (7 - x) % 2 ≡ 0) place
              (all (8 * j + k) less)) in
      let full : zeros (bits / 8) digest ≡ true =
        get_or-zeros (bits / 8) digest (omega (arith, long)) (λ j lt.
          byte_zero (get_or digest j 0) (get_or-AllBytes digest j bytes)
            (λ k less. bit j k less (omega (arith, lt, less)))) in
      rw full (
        byte_zeros (bits % 8) (get_or digest (bits / 8) 0) (omega arith)
          (get_or-AllBytes digest (bits / 8) bytes)
          (λ k less. bit (bits / 8) k (omega (arith, less)) (omega (arith, less))))

  pub meets-ZeroBits : (meets bits digest ≡ true) ↔ ZeroBits bits digest
  meets-ZeroBits = (
    (λ m. ZeroBits-of_bits bits digest (meets-digest_bit m)),
    (λ zero_bits. digest_bit-meets (ZeroBits-bits bits digest zero_bits)),
  )
