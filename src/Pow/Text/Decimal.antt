-- ===== src/Pow/Text/Decimal.antt =====
-- Numbers in decimal.
use ankah.Prelude.{
  ℕ, zero, suc, ◌+◌, ◌-◌, ◌*◌, ◌/◌, ◌%◌, ◌^◌, ◌≤◌, ◌<◌, ◌≡◌, ◌≢◌, refl, ap, ◌∙◌, inl, inr, true,
  false, [], ◌∷◌, ◌++◌, Option, none, some, arith, ltb, ltb→lt, if◌then◌else◌, length,
  length-append, All, All-append, Bytes, Bool-cases, is_digit,
}
use ankah.Prelude.Words.{size_max}
use ankah.Pow.Text.{decimal_loop, is_padded, decimal_u64, decimal_digits, decimal}

abbrev pub after : Option ℕ → ℕ → Option ℕ
after none d = none
after (some r) d = if ltb ((size_max - d) / 10) r then none else some (r * 10 + d)

decimal_loop-append :
    (r d : ℕ) (xs : Bytes)
    → d < 10
    → decimal_loop r (xs ++ (b'0' + d) ∷ []) ≡ after (decimal_loop r xs) d
unfolding decimal_loop
decimal_loop-append r d [] h = ground arith
decimal_loop-append r d (x ∷ xs) h =
    ground (arith, decimal_loop-append (r * 10 + (x - b'0')) d xs h)

decimal_loop-nil : (r : ℕ) → decimal_loop r [] ≡ some r
unfolding decimal_loop
decimal_loop-nil r = refl

after-digit : (v : ℕ) → v < 10 → after (some 0) v ≡ some v
after-digit v h = ground arith

after-div-mod : (v : ℕ) → v ≤ size_max → after (some (v / 10)) (v % 10) ≡ some v
after-div-mod v h = ground arith

decimal_loop-decimal_digits :
    (n v : ℕ) → v < 10 ^ n → v ≤ size_max → decimal_loop 0 (decimal_digits n v) ≡ some v
unfolding decimal_digits
decimal_loop-decimal_digits zero v h k = decimal_loop-nil 0 ∙ ap some (omega arith)
decimal_loop-decimal_digits (suc n) v h k = elim (Bool-cases (ltb v 10)) [
  | inl small ↦ rw small (
      decimal_loop-append 0 v [] (ltb→lt v 10 small)
      ∙ ap (λ r. after r v) (decimal_loop-nil 0)
      ∙ after-digit v (ltb→lt v 10 small))
  | inr big ↦ rw big (
      decimal_loop-append 0 (v % 10) (decimal_digits n (v / 10)) (omega arith)
      ∙ ap (λ r. after r (v % 10))
          (decimal_loop-decimal_digits n (v / 10) (omega arith) (omega arith))
      ∙ after-div-mod v k)
]

-- The first byte; an empty text counts as a zero.
abbrev first : Bytes → ℕ
first [] = b'0'
first (c ∷ cs) = c

first-append : (xs ys : Bytes) → first xs ≢ b'0' → first (xs ++ ys) ≡ first xs
first-append [] ys h = absurd (h refl)
first-append (x ∷ xs) ys h = refl

first-decimal_digits : (n v : ℕ) → v < 10 ^ n → 0 < v → first (decimal_digits n v) ≢ b'0'
unfolding decimal_digits
first-decimal_digits zero v h k = omega arith
first-decimal_digits (suc n) v h k = elim (Bool-cases (ltb v 10)) [
  | inl small ↦ rw small (omega arith)
  | inr big ↦
      let ne = first-decimal_digits n (v / 10) (omega arith) (ground arith) in
      rw (big, first-append (decimal_digits n (v / 10)) ((b'0' + v % 10) ∷ []) ne) ne
]

is_padded-first : (xs : Bytes) → first xs ≢ b'0' → is_padded xs ≡ false
is_padded-first [] h = absurd (h refl)
is_padded-first (x ∷ xs) h = ground arith

decimal_zero : decimal_u64 (decimal 0) ≡ some 0
unfolding decimal_u64 decimal_loop decimal_digits
decimal_zero = refl

-- A number that fits 64 bits, written in decimal, is read back.
pub decimal_u64-decimal : (v : ℕ) → v ≤ size_max → decimal_u64 (decimal v) ≡ some v
unfolding decimal_u64
decimal_u64-decimal zero h = decimal_zero
decimal_u64-decimal (suc v) h =
    rw
      (is_padded-first (decimal (suc v))
        (first-decimal_digits 20 (suc v) (omega arith) (omega arith)))
      (decimal_loop-decimal_digits 20 (suc v) (omega arith) h)

pub decimal_digits-digits : (n v : ℕ) → All (λ c. is_digit c ≡ true) (decimal_digits n v)
unfolding decimal_digits
decimal_digits-digits zero v = tt
decimal_digits-digits (suc n) v = elim (Bool-cases (ltb v 10)) [
  | inl small ↦ rw small (ground arith, tt)
  | inr big ↦ rw big (
      All-append (λ c. is_digit c ≡ true) (decimal_digits n (v / 10)) ((b'0' + v % 10) ∷ [])
        (decimal_digits-digits n (v / 10)) (ground arith, tt))
]

pub length-decimal_digits : (n v : ℕ) → length (decimal_digits n v) ≤ n
unfolding decimal_digits
length-decimal_digits zero v = omega arith
length-decimal_digits (suc n) v = elim (Bool-cases (ltb v 10)) [
  | inl small ↦ rw small (omega arith)
  | inr big ↦ rw big (
      omega (
        arith,
        length-append (decimal_digits n (v / 10)) ((b'0' + v % 10) ∷ []),
        length-decimal_digits n (v / 10),
      ))
]
