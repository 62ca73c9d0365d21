-- ===== src/Proxy/Network/Digits.antt =====
-- The test of a prefix, over the binary digits of the addresses.
use Prim.Native.Nat.{bit_and}
use ankah.Prelude.{
  ℕ, zero, suc, ◌-◌, ◌*◌, ◌/◌, ◌%◌, ◌^◌, ◌≤◌, ◌<◌, ◌≡◌, refl, subst, ◌↔◌, inl, inr, Bool, true,
  ◌&&◌, List, [], ◌∷◌, arith, ltb, ◌==◌, ==_iff, Bool-cases, length, take, All, Bytes,
}
use ankah.Proxy.Address.Sizes.{IsByte}
use ankah.Proxy.Network.{mask, same_prefix}

-- The binary digits of an address, the highest first.
abbrev pub bits : Bytes → List ℕ
bits [] = []
bits (b ∷ bs) =
    b / 128
    ∷ b / 64 % 2
    ∷ b / 32 % 2
    ∷ b / 16 % 2
    ∷ b / 8 % 2
    ∷ b / 4 % 2
    ∷ b / 2 % 2
    ∷ b % 2
    ∷ bits bs

-- A test that is passed by every number below `n`.
passes : (ℕ → Bool) → ℕ → Bool
passes test zero = true
passes test (suc n) = passes test n && test n

passes-lt : (test : ℕ → Bool) (n : ℕ) {k : ℕ} → k < n → passes test n ≡ true → test k ≡ true
unfolding passes
passes-lt test zero lt e = elim lt [ ]
passes-lt test (suc n) {k} lt e = elim (Bool-cases (k == n)) [
  | inl same ↦ let at : n ≡ k = ground arith in subst (λ m. test m ≡ true) at (ground arith)
  | inr other ↦ passes-lt test n (ground arith) (ground arith)
]

-- A test of the digits above the lowest 8 - r of a byte, at every byte and every `r` below 8.
passes_bytes : (ℕ → ℕ → Bool) → Bool
passes_bytes test = passes (λ r. passes (test r) 256) 8

passes_bytes-lt :
    (test : ℕ → ℕ → Bool) (r b : ℕ) → passes_bytes test ≡ true → r < 8 → b < 256 → test r b ≡ true
unfolding passes_bytes
passes_bytes-lt test r b e lt byte =
    passes-lt (test r) 256 byte (passes-lt (λ r. passes (test r) 256) 8 lt e)

-- A masked byte keeps its highest `r` digits.
clears : ℕ → ℕ → Bool
clears r b = bit_and b (mask r) == b / 2 ^ (8 - r) * 2 ^ (8 - r)

mask_table : passes_bytes clears ≡ true
unfolding passes_bytes passes clears
mask_table = refl

bit_and-mask : (r b : ℕ) → r < 8 → b < 256 → bit_and b (mask r) ≡ b / 2 ^ (8 - r) * 2 ^ (8 - r)
unfolding clears
bit_and-mask r b lt byte = (==_iff _ _).0 (passes_bytes-lt clears r b mask_table lt byte)

keeps : ℕ → ℕ → Bool
keeps r b = bit_and b (mask r) / 2 ^ (8 - r) == b / 2 ^ (8 - r)

keep_table : passes_bytes keeps ≡ true
unfolding passes_bytes passes keeps
keep_table = refl

pub bit_and-mask_keeps :
    (r b : ℕ) → r < 8 → b < 256 → bit_and b (mask r) / 2 ^ (8 - r) ≡ b / 2 ^ (8 - r)
unfolding keeps
bit_and-mask_keeps r b lt byte = (==_iff _ _).0 (passes_bytes-lt keeps r b keep_table lt byte)

-- One byte further on.
abbrev pub eight_more : ℕ → ℕ
eight_more p = suc (suc (suc (suc (suc (suc (suc (suc p)))))))

same_prefix-cons :
    (p a b : ℕ) (s t : Bytes)
    → same_prefix (eight_more p) (a ∷ s) (b ∷ t) ≡ (a == b && same_prefix p s t)
unfolding same_prefix
same_prefix-cons p a b s t =
    let whole : eight_more p / 8 ≡ suc (p / 8) = omega arith in
    let part : eight_more p % 8 ≡ p % 8 = omega arith in rw (whole, part) (ground arith)

-- Fewer than eight digits are within the first byte.
module _ (a b : ℕ) (s t : Bytes) (byte_a : a < 256) (byte_b : b < 256) where
  same_prefix-within :
      (p : ℕ) → p < 8 → (same_prefix p (a ∷ s) (b ∷ t) ≡ true) ↔ (a / 2 ^ (8 - p) ≡ b / 2 ^ (8 - p))
  unfolding same_prefix
  same_prefix-within zero lt = ((λ _. omega arith), (λ _. refl))
  same_prefix-within (suc zero) lt =
      ground (arith, bit_and-mask 1 a lt byte_a, bit_and-mask 1 b lt byte_b)
  same_prefix-within (suc (suc zero)) lt =
      ground (arith, bit_and-mask 2 a lt byte_a, bit_and-mask 2 b lt byte_b)
  same_prefix-within (suc (suc (suc zero))) lt =
      ground (arith, bit_and-mask 3 a lt byte_a, bit_and-mask 3 b lt byte_b)
  same_prefix-within (suc (suc (suc (suc zero)))) lt =
      ground (arith, bit_and-mask 4 a lt byte_a, bit_and-mask 4 b lt byte_b)
  same_prefix-within (suc (suc (suc (suc (suc zero))))) lt =
      ground (arith, bit_and-mask 5 a lt byte_a, bit_and-mask 5 b lt byte_b)
  same_prefix-within (suc (suc (suc (suc (suc (suc zero)))))) lt =
      ground (arith, bit_and-mask 6 a lt byte_a, bit_and-mask 6 b lt byte_b)
  same_prefix-within (suc (suc (suc (suc (suc (suc (suc zero))))))) lt =
      ground (arith, bit_and-mask 7 a lt byte_a, bit_and-mask 7 b lt byte_b)
  same_prefix-within (suc (suc (suc (suc (suc (suc (suc (suc p)))))))) lt = absurd (omega arith)

  pub bits-within :
      (p : ℕ)
      → p < 8
      → (take p (bits (a ∷ s)) ≡ take p (bits (b ∷ t))) ↔ (a / 2 ^ (8 - p) ≡ b / 2 ^ (8 - p))
  bits-within zero lt = ((λ _. omega arith), (λ _. refl))
  bits-within (suc zero) lt = ground arith
  bits-within (suc (suc zero)) lt = ground arith
  bits-within (suc (suc (suc zero))) lt = ground arith
  bits-within (suc (suc (suc (suc zero)))) lt = ground arith
  bits-within (suc (suc (suc (suc (suc zero))))) lt = ground arith
  bits-within (suc (suc (suc (suc (suc (suc zero)))))) lt = ground arith
  bits-within (suc (suc (suc (suc (suc (suc (suc zero))))))) lt = ground arith
  bits-within (suc (suc (suc (suc (suc (suc (suc (suc p)))))))) lt = absurd (omega arith)

  pub bits-beyond :
      (p : ℕ)
      → (take (eight_more p) (bits (a ∷ s)) ≡ take (eight_more p) (bits (b ∷ t)))
        ↔ ((a ≡ b) × (take p (bits s) ≡ take p (bits t)))
  bits-beyond p = ground arith

same_prefix-nil : same_prefix 0 [] [] ≡ true
unfolding same_prefix
same_prefix-nil = refl

and_parts : (a b : ℕ) (t : Bool) {A : Type 0} → (t ≡ true → A) → (a == b && t) ≡ true → (a ≡ b) × A
and_parts a b t f e = (ground arith, f (ground arith))

and_whole : (a b : ℕ) (t : Bool) → a ≡ b → t ≡ true → (a == b && t) ≡ true
and_whole a b t e h = ground arith

-- The test is that of the first `p` digits.
pub same_prefix-bits :
    (s t : Bytes) (p : ℕ)
    → length s ≡ length t
    → All IsByte s
    → All IsByte t
    → p ≤ 8 * length s
    → (same_prefix p s t ≡ true) ↔ (take p (bits s) ≡ take p (bits t))
same_prefix-bits [] [] zero size h k le = ((λ _. refl), (λ _. same_prefix-nil))
same_prefix-bits [] [] (suc p) size h k le = absurd (omega arith)
same_prefix-bits [] (b ∷ t) p size h k le = absurd (omega arith)
same_prefix-bits (a ∷ s) [] p size h k le = absurd (omega arith)
same_prefix-bits (a ∷ s) (b ∷ t) p size h k le = elim (Bool-cases (ltb p 8)) [
  | inl within ↦
      let lt : p < 8 = ground arith in
      let (there, back) = same_prefix-within a b s t h.0 k.0 p lt in
      let (there', back') = bits-within a b s t h.0 k.0 p lt in
      ((λ e. back' (there e)), (λ e. back (there' e)))
  | inr beyond ↦
      let q = p - 8 in
      let more : p ≡ eight_more q = ground arith in
      let (there, back) = same_prefix-bits s t q (omega arith) h.1 k.1 (omega arith) in
      let (split, join) = bits-beyond a b s t h.0 k.0 q in
      rw (more, same_prefix-cons q a b s t)
        (
          (λ e. join (and_parts a b _ there e)),
          (λ e. let (same, rest) = split e in and_whole a b _ same (back rest)),
        )
]
