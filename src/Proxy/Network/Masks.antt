-- ===== src/Proxy/Network/Masks.antt =====
-- What is cleared of an address beyond the prefix.
use Prim.Native.Nat.{bit_and}
use ankah.Prelude.{
  ℕ, zero, suc, ◌-◌, ◌/◌, ◌%◌, ◌^◌, ◌<◌, ◌≡◌, refl, ◌∙◌, inl, inr, true, false, [], ◌∷◌, arith, ltb,
  Bool-cases, length, take, get_or, set, length-set, All, All-set, Bytes,
}
use ankah.Prelude.Bits.{bit_and-lt}
use ankah.Proxy.Address.Sizes.{IsByte}
use ankah.Proxy.Network.{mask, zero_loop, is_split, masked}
use ankah.Proxy.Network.Digits.{bits, bits-within, bits-beyond, eight_more, bit_and-mask_keeps}

zero_loop-cons :
    (i rounds a : ℕ) (s : Bytes) → zero_loop (suc i) rounds (a ∷ s) ≡ a ∷ zero_loop i rounds s
unfolding zero_loop
zero_loop-cons i zero a s = refl
zero_loop-cons i (suc rounds) a s = zero_loop-cons (suc i) rounds a (set s i 0)

masked-none : (p : ℕ) (s : Bytes) → masked 0 p s ≡ s
unfolding masked zero_loop
masked-none p s =
    let no_rounds : 0 - p / 8 ≡ 0 = omega arith in
    let whole : is_split 0 p ≡ false = ground arith in rw (whole, no_rounds)

masked-cons :
    (size p a : ℕ) (s : Bytes) → masked (suc size) (eight_more p) (a ∷ s) ≡ a ∷ masked size p s
unfolding masked
masked-cons size p a s =
    let whole : eight_more p / 8 ≡ suc (p / 8) = omega arith in
    let part : eight_more p % 8 ≡ p % 8 = omega arith in
    let split : is_split (suc size) (eight_more p) ≡ is_split size p =
      rw (whole, part) (ground arith) in
    let rounds : suc size - suc (suc (p / 8)) ≡ size - suc (p / 8) = omega arith in
    let rounds' : suc size - suc (p / 8) ≡ size - p / 8 = omega arith in
    elim (Bool-cases (is_split size p)) [
      | inl is ↦
          rw (split, is, whole, part, rounds)
            (zero_loop-cons (suc (p / 8)) (size - suc (p / 8)) a _)
      | inr not_split ↦
          rw (split, not_split, whole, rounds') (zero_loop-cons (p / 8) (size - p / 8) a s)
    ]

all_cleared : (size a : ℕ) (s : Bytes) → zero_loop 0 (suc size - 0) (a ∷ s) ≡ 0 ∷ zero_loop 0 size s
unfolding zero_loop
all_cleared size a s =
    let rounds : suc size - 0 ≡ suc size = omega arith in rw rounds (zero_loop-cons 0 size 0 s)

masked-part :
    (size p a : ℕ) (s : Bytes)
    → suc p < 8
    → masked (suc size) (suc p) (a ∷ s) ≡ bit_and a (mask (suc p)) ∷ zero_loop 0 size s
unfolding masked
masked-part size p a s lt =
    let split : is_split (suc size) (suc p) ≡ true = ground arith in
    let whole : suc p / 8 ≡ 0 = omega arith in
    let part : suc p % 8 ≡ suc p = omega arith in
    let rounds : suc size - 1 ≡ size = omega arith in
    rw (split, whole, part, rounds) (zero_loop-cons 0 size (bit_and a (mask (suc p))) s)

-- With fewer than eight digits the first byte is masked or cleared.
masked-within :
    (size p a : ℕ) (s : Bytes)
    → p < 8
    → a < 256
    → (a' : ℕ) × (s' : Bytes) × (masked (suc size) p (a ∷ s) ≡ a' ∷ s')
      × (a' < 256)
      × (a' / 2 ^ (8 - p) ≡ a / 2 ^ (8 - p))
unfolding masked
masked-within size zero a s lt byte =
    (0, zero_loop 0 size s, all_cleared size a s, omega arith, omega arith)
masked-within size (suc p) a s lt byte = (
  bit_and a (mask (suc p)),
  zero_loop 0 size s,
  masked-part size p a s lt,
  bit_and-lt 8 a (mask (suc p)) byte,
  bit_and-mask_keeps (suc p) a lt byte,
)

zero_loop-nil : (i rounds : ℕ) → zero_loop i rounds [] ≡ []
unfolding zero_loop
zero_loop-nil i zero = refl
zero_loop-nil i (suc rounds) = zero_loop-nil (suc i) rounds

masked-nil : (size p : ℕ) → masked size p [] ≡ []
unfolding masked
masked-nil size p = elim (Bool-cases (is_split size p)) [
  | inl split ↦ rw split (zero_loop-nil _ _)
  | inr whole ↦ rw whole (zero_loop-nil _ _)
]

pub masked-bits :
    (s : Bytes) (size p : ℕ) → All IsByte s → take p (bits (masked size p s)) ≡ take p (bits s)
masked-bits s zero p h = rw (masked-none p s)
masked-bits [] (suc size) p h = rw (masked-nil (suc size) p)
masked-bits (a ∷ s) (suc size) p h = elim (Bool-cases (ltb p 8)) [
  | inl within ↦
      let lt : p < 8 = ground arith in
      let (a', s', e, byte, same) = masked-within size p a s lt h.0 in
      rw e ((bits-within a' a s' s byte h.0 p lt).1 same)
  | inr beyond ↦
      let q = p - 8 in
      let more : p ≡ eight_more q = ground arith in
      rw (more, masked-cons size q a s)
        ((bits-beyond a a (masked size q s) s h.0 h.0 q).1 (refl, masked-bits s size q h.1))
]

length-zero_loop : (i rounds : ℕ) (s : Bytes) → length (zero_loop i rounds s) ≡ length s
unfolding zero_loop
length-zero_loop i zero s = refl
length-zero_loop i (suc rounds) s = length-zero_loop (suc i) rounds (set s i 0) ∙ length-set s i 0

zero_loop-bytes : (i rounds : ℕ) (s : Bytes) → All IsByte s → All IsByte (zero_loop i rounds s)
unfolding zero_loop
zero_loop-bytes i zero s h = h
zero_loop-bytes i (suc rounds) s h =
    zero_loop-bytes (suc i) rounds (set s i 0) (All-set IsByte s i 0 h (omega arith))

get_or-byte : (s : Bytes) (i : ℕ) → All IsByte s → get_or s i 0 < 256
get_or-byte [] i h = omega arith
get_or-byte (a ∷ s) zero h = h.0
get_or-byte (a ∷ s) (suc i) h = get_or-byte s i h.1

pub masked-IsAddress :
    (size p : ℕ) (s : Bytes)
    → All IsByte s
    → (length (masked size p s) ≡ length s) × All IsByte (masked size p s)
unfolding masked
masked-IsAddress size p s h =
    let cleared = bit_and (get_or s (p / 8) 0) (mask (p % 8)) in
    let byte : cleared < 256 =
      bit_and-lt 8 (get_or s (p / 8) 0) (mask (p % 8)) (get_or-byte s (p / 8) h) in
    elim (Bool-cases (is_split size p)) [
      | inl split ↦ rw split (
        length-zero_loop _ _ (set s (p / 8) cleared) ∙ length-set s (p / 8) cleared,
        zero_loop-bytes _ _ (set s (p / 8) cleared) (All-set IsByte s (p / 8) cleared h byte),
      )
      | inr whole ↦ rw whole (length-zero_loop _ _ s, zero_loop-bytes _ _ s h)
    ]
