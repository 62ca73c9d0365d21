-- ===== src/Prelude/Bits.antt =====
-- The binary digits of a word: `&` and `|` digit by digit, and words with one digit set.
use Prim.Native.Nat.{
  ℕ, zero, suc, ◌+◌, ◌-◌, ◌*◌, ◌/◌, ◌%◌, ◌^◌, ◌≤◌, ◌<◌, min, max, bit_and, bit_or, digits,
  bit_and-bitwise, bit_or-bitwise,
}
use mathlib.Core.Path.{◌≡◌, refl, ◌∙◌}
use mathlib.Core.Logic.{inl, inr}
use native.Mathlib.Nat.{pow-suc}
use native.Mathlib.Omega.{arith}
use ankah.Prelude.Tests.{◌==◌, if◌then◌else◌, Bool-cases}

-- The number of rounds does not matter once it covers the digits of the first number.
module _ (z : ℕ → ℕ) (f : ℕ → ℕ → ℕ) (end : (b : ℕ) → z b ≡ z (b / 2) * 2 + f 0 (b % 2)) where
  digits_rounds : (n m a b : ℕ) → a ≤ n → a ≤ m → digits z f n a b ≡ digits z f m a b
  digits_rounds zero zero a b p q = refl
  digits_rounds zero (suc m) zero b p q = refl
  digits_rounds zero (suc m) (suc a) b p q = absurd (omega arith)
  digits_rounds (suc n) zero zero b p q = refl
  digits_rounds (suc n) zero (suc a) b p q = absurd (omega arith)
  digits_rounds (suc n) (suc m) zero b p q = refl
  digits_rounds (suc n) (suc m) (suc a) b p q =
      omega (arith, digits_rounds n m (suc a / 2) (b / 2) (omega arith) (omega arith))

  digits_step :
      (a b : ℕ) → digits z f a a b ≡ digits z f (a / 2) (a / 2) (b / 2) * 2 + f (a % 2) (b % 2)
  digits_step zero b = end b
  digits_step (suc a) b =
      omega (arith, digits_rounds a (suc a / 2) (suc a / 2) (b / 2) (omega arith) (omega arith))

pub bit_and_step : (a b : ℕ) → bit_and a b ≡ bit_and (a / 2) (b / 2) * 2 + min (a % 2) (b % 2)
bit_and_step a b = omega (
  arith,
  bit_and-bitwise a b,
  bit_and-bitwise (a / 2) (b / 2),
  digits_step (λ b. zero) min (λ b. omega arith) a b,
)

pub bit_or_step : (a b : ℕ) → bit_or a b ≡ bit_or (a / 2) (b / 2) * 2 + max (a % 2) (b % 2)
bit_or_step a b = omega (
  arith,
  bit_or-bitwise a b,
  bit_or-bitwise (a / 2) (b / 2),
  digits_step (λ b. b) max (λ b. omega arith) a b,
)

bit_and-self_below : (n a : ℕ) → a ≤ n → bit_and a a ≡ a
bit_and-self_below n zero h = refl
bit_and-self_below zero (suc a) h = absurd (omega arith)
bit_and-self_below (suc n) (suc a) h =
    omega (arith, bit_and_step (suc a) (suc a), bit_and-self_below n (suc a / 2) (omega arith))

bit_or-zero_below : (n a : ℕ) → a ≤ n → bit_or a 0 ≡ a
bit_or-zero_below n zero h = refl
bit_or-zero_below zero (suc a) h = absurd (omega arith)
bit_or-zero_below (suc n) (suc a) h =
    omega (arith, bit_or_step (suc a) 0, bit_or-zero_below n (suc a / 2) (omega arith))

-- The digit at place `k`, and the number of digits 1 among the lowest `n`.
unfoldable pub digit : ℕ → ℕ → ℕ
digit zero v = v % 2
digit (suc k) v = digit k (v / 2)

unfoldable pub ones : ℕ → ℕ → ℕ
ones zero v = 0
ones (suc n) v = ones n (v / 2) + v % 2

pub ones-le : (n v : ℕ) → ones n v ≤ n
unfolding ones
ones-le zero v = omega arith
ones-le (suc n) v = omega (arith, ones-le n (v / 2))

pub ones-zero : (n : ℕ) → ones n 0 ≡ 0
unfolding ones
ones-zero zero = refl
ones-zero (suc n) = omega (arith, ones-zero n)

pub digit-zero : (k : ℕ) → digit k 0 ≡ 0
unfolding digit
digit-zero zero = refl
digit-zero (suc k) = digit-zero k

pub bit_and-lt : (n a b : ℕ) → a < 2 ^ n → bit_and a b < 2 ^ n
bit_and-lt zero zero b lt = omega (arith, bit_and-bitwise 0 b)
bit_and-lt zero (suc a) b lt = absurd (omega arith)
bit_and-lt (suc n) a b lt = omega (
  arith,
  pow-suc 2 n,
  bit_and_step a b,
  bit_and-lt n (a / 2) (b / 2) (omega (arith, pow-suc 2 n)),
)

clear_odd : (v : ℕ) → v % 2 ≡ 1 → bit_and v (v - 1) ≡ v / 2 * 2
clear_odd v odd =
    let half : (v - 1) / 2 ≡ v / 2 = omega arith in
    bit_and_step v (v - 1)
    ∙ rw half (omega (arith, bit_and-self_below (v / 2) (v / 2) (omega arith)))

clear_even : (v : ℕ) → 0 < v → v % 2 ≡ 0 → bit_and v (v - 1) ≡ bit_and (v / 2) (v / 2 - 1) * 2
clear_even v pos even =
    let half : (v - 1) / 2 ≡ v / 2 - 1 = omega arith in
    bit_and_step v (v - 1) ∙ rw half (omega arith)

halve : (a q r : ℕ) → a ≡ q * 2 + r → r < 2 → (a / 2 ≡ q) × (a % 2 ≡ r)
halve a q r e lt = omega arith

-- `value &= value - 1` clears the lowest digit 1.
pub ones-clear : (n v : ℕ) → 0 < v → v < 2 ^ n → ones n v ≡ suc (ones n (bit_and v (v - 1)))
unfolding ones
ones-clear zero v h lt = absurd (omega arith)
ones-clear (suc n) v h lt = elim (Bool-cases (v % 2 == 0)) [
  | inl is_even ↦
      let even : v % 2 ≡ 0 = ground arith in
      let (half, low) =
        halve (bit_and v (v - 1)) (bit_and (v / 2) (v / 2 - 1)) 0
          (clear_even v h even ∙ omega arith) (omega arith) in
      rw (half, low, even)
        (omega (arith, ones-clear n (v / 2) (omega arith) (omega (arith, pow-suc 2 n))))
  | inr is_odd ↦
      let odd : v % 2 ≡ 1 = ground arith in
      let (half, low) =
        halve (bit_and v (v - 1)) (v / 2) 0 (clear_odd v odd ∙ omega arith) (omega arith) in
      rw (half, low, odd) (omega arith)
]

-- `v | 1 << k`, a digit at a time.
bit_or-one : (v : ℕ) → (bit_or v 1 / 2 ≡ v / 2) × (bit_or v 1 % 2 ≡ 1)
bit_or-one v =
    halve _ (v / 2) 1
      (bit_or_step v 1 ∙ omega (arith, bit_or-zero_below (v / 2) (v / 2) (omega arith)))
      (omega arith)

bit_or-two_pow :
    (k v : ℕ)
    → (bit_or v (2 ^ suc k) / 2 ≡ bit_or (v / 2) (2 ^ k)) × (bit_or v (2 ^ suc k) % 2 ≡ v % 2)
bit_or-two_pow k v =
    let half : 2 ^ suc k / 2 ≡ 2 ^ k = omega (arith, pow-suc 2 k) in
    let low : 2 ^ suc k % 2 ≡ 0 = omega (arith, pow-suc 2 k) in
    halve _ _ (v % 2) (bit_or_step v (2 ^ suc k) ∙ rw (half, low) (omega arith)) (omega arith)

pub digit-bit_or : (k j v : ℕ) → digit j (bit_or v (2 ^ k)) ≡ (if j == k then 1 else digit j v)
unfolding digit
digit-bit_or zero zero v = (bit_or-one v).1
digit-bit_or zero (suc j) v = rw (bit_or-one v).0 (ground arith)
digit-bit_or (suc k) zero v = (bit_or-two_pow k v).1 ∙ ground arith
digit-bit_or (suc k) (suc j) v = rw (bit_or-two_pow k v).0 (digit-bit_or k j (v / 2) ∙ ground arith)

pub ones-bit_or : (n k v : ℕ) → k < n → ones n (bit_or v (2 ^ k)) + digit k v ≡ suc (ones n v)
unfolding ones digit
ones-bit_or zero k v lt = elim lt [ ]
ones-bit_or (suc n) zero v lt = rw ((bit_or-one v).0, (bit_or-one v).1) (omega arith)
ones-bit_or (suc n) (suc k) v lt =
    rw ((bit_or-two_pow k v).0, (bit_or-two_pow k v).1)
      (omega (arith, ones-bit_or n k (v / 2) (omega arith)))

pub bit_or-lt : (n k v : ℕ) → k < n → v < 2 ^ n → bit_or v (2 ^ k) < 2 ^ n
bit_or-lt zero k v h lt = elim h [ ]
bit_or-lt (suc n) zero v h lt = omega (arith, bit_or-one v, pow-suc 2 n)
bit_or-lt (suc n) (suc k) v h lt = omega (
  arith,
  pow-suc 2 n,
  bit_or-two_pow k v,
  bit_or-lt n k (v / 2) (omega arith) (omega (arith, pow-suc 2 n)),
)

pub digit-le : (k v : ℕ) → digit k v ≤ 1
unfolding digit
digit-le zero v = omega arith
digit-le (suc k) v = digit-le k (v / 2)
