-- ===== src/Abuse/Paths.antt =====
-- The 256 digits that mark the paths of a scan: their number is that of the different hashes.
use Prim.Native.Nat.{bit_and, bit_or}
use ankah.Prelude.{
  ℕ, zero, suc, ◌+◌, ◌-◌, ◌/◌, ◌%◌, ◌^◌, ◌<◌, ◌≡◌, ◌≢◌, refl, ap, ◌∙◌, inl, inr, Bool, false, ◌||◌,
  List, [], ◌∷◌, some, arith, ◌==◌, if◌then◌else◌, Bool-cases, length, length-set, get_or, set,
  get_or-set_self, get_or-set_ne, All, All-set,
}
use ankah.Prelude.Bits.{
  digit, ones, ones-zero, ones-clear, ones-le, bit_and-lt, digit-bit_or, ones-bit_or, bit_or-lt,
  digit-zero,
}
use ankah.Abuse.{bits_loop, path_bits, no_paths, mark, mark_all}

bits_loop-ones :
    (fuel value count : ℕ)
    → value < 2 ^ 64
    → ones 64 value < fuel
    → bits_loop fuel value count ≡ some (count + ones 64 value)
unfolding bits_loop
bits_loop-ones zero value count word lt = elim lt [ ]
bits_loop-ones (suc fuel) value count word lt = elim (Bool-cases (value == 0)) [
  | inl zero_left ↦
      let empty : value ≡ 0 = ground arith in
      rw (zero_left, bits_loop) (ap some (rw (empty, ones-zero 64) (omega arith)))
  | inr more ↦
      let cleared = ones-clear 64 value (ground arith) word in
      rw (more, bits_loop)
        (bits_loop-ones fuel (bit_and value (value - 1)) (suc count)
            (bit_and-lt 64 value (value - 1) word) (omega (arith, cleared))
          ∙ ap some (omega (arith, cleared)))
]

-- The digits 1 of all words.
abbrev total : List ℕ → ℕ
total [] = 0
total (v ∷ vs) = ones 64 v + total vs

abbrev Words : List ℕ → Type 0
Words = All (λ v. v < 2 ^ 64)

path_bits-total :
    (vs : List ℕ) (count : ℕ) → Words vs → path_bits vs count ≡ some (count + total vs)
unfolding path_bits
path_bits-total [] count words = ap some (omega arith)
path_bits-total (v ∷ vs) count (word, words) =
    rw (bits_loop-ones 65 v count word (omega (arith, ones-le 64 v)))
      (path_bits-total vs (count + ones 64 v) words ∙ ap some (omega arith))

total-set :
    (vs : List ℕ) (i v : ℕ)
    → i < length vs
    → total (set vs i v) + ones 64 (get_or vs i 0) ≡ total vs + ones 64 v
total-set [] i v lt = elim lt [ ]
total-set (w ∷ vs) zero v lt = omega arith
total-set (w ∷ vs) (suc i) v lt = omega (arith, total-set vs i v (omega arith))

-- Whether a hash is marked.
abbrev marked : List ℕ → ℕ → ℕ
marked vs h = digit (h % 64) (get_or vs (h / 64) 0)

get_or-lt : (vs : List ℕ) (i : ℕ) → Words vs → get_or vs i 0 < 2 ^ 64
get_or-lt [] i words = omega arith
get_or-lt (v ∷ vs) zero words = words.0
get_or-lt (v ∷ vs) (suc i) words = get_or-lt vs i words.1

module _ (vs : List ℕ) (h : ℕ) (four : length vs ≡ 4) (words : Words vs) (byte : h < 256) where
  length-mark : length (mark vs h) ≡ 4
  unfolding mark
  length-mark =
      omega (arith, length-set {0} vs (h / 64) (bit_or (get_or vs (h / 64) 0) (2 ^ (h % 64))))

  mark-Words : Words (mark vs h)
  unfolding mark
  mark-Words =
      All-set (λ v. v < 2 ^ 64) vs (h / 64) _ words
        (bit_or-lt 64 (h % 64) (get_or vs (h / 64) 0) (omega arith) (get_or-lt vs (h / 64) words))

  total-mark : total (mark vs h) + marked vs h ≡ suc (total vs)
  unfolding mark
  total-mark = omega (
    arith,
    total-set vs (h / 64) (bit_or (get_or vs (h / 64) 0) (2 ^ (h % 64))) (omega arith),
    ones-bit_or 64 (h % 64) (get_or vs (h / 64) 0) (omega arith),
  )

  marked-mark : (j : ℕ) → marked (mark vs h) j ≡ (if j == h then 1 else marked vs j)
  unfolding mark
  marked-mark j = elim (Bool-cases (j / 64 == h / 64)) [
    | inl same ↦
        let place : j / 64 ≡ h / 64 = ground arith in
        rw (place, get_or-set_self vs (h / 64) _ 0 (omega arith))
          (digit-bit_or (h % 64) (j % 64) (get_or vs (h / 64) 0) ∙ ground arith)
    | inr other ↦
        let apart : h / 64 ≢ j / 64 = λ e. ground arith in
        rw (get_or-set_ne vs (h / 64) (j / 64) _ 0 apart) (ground arith)
  ]

-- The hashes that do not stand in `seen` or earlier in the list.
abbrev pub elem : ℕ → List ℕ → Bool
elem h [] = false
elem h (x ∷ xs) = h == x || elem h xs

abbrev pub new_among : List ℕ → List ℕ → ℕ
new_among seen [] = 0
new_among seen (h ∷ hs) =
    if elem h seen then new_among (h ∷ seen) hs else suc (new_among (h ∷ seen) hs)

abbrev pub distinct : List ℕ → ℕ
distinct = new_among []

abbrev pub AreBytes : List ℕ → Type 0
AreBytes = All (λ h. h < 256)

mark_all-total :
    (hs seen vs : List ℕ)
    → length vs ≡ 4
    → Words vs
    → AreBytes hs
    → ((j : ℕ) → marked vs j ≡ (if elem j seen then 1 else 0))
    → (total (mark_all vs hs) ≡ total vs + new_among seen hs) × Words (mark_all vs hs)
unfolding mark_all
mark_all-total [] seen vs four words bytes same = (omega arith, words)
mark_all-total (h ∷ hs) seen vs four words (byte, bytes) same =
    let (rest, words') =
      mark_all-total hs (h ∷ seen) (mark vs h) (length-mark vs h four words byte)
        (mark-Words vs h four words byte) bytes
        (λ j. marked-mark vs h four words byte j ∙ rw (same j) (ground arith)) in
    (ground (arith, rest, total-mark vs h four words byte, same h), words')

get_or-no_paths : (i : ℕ) → get_or no_paths i 0 ≡ 0
get_or-no_paths zero = refl
get_or-no_paths (suc zero) = refl
get_or-no_paths (suc (suc zero)) = refl
get_or-no_paths (suc (suc (suc zero))) = refl
get_or-no_paths (suc (suc (suc (suc i)))) = refl

marked-no_paths : (j : ℕ) → marked no_paths j ≡ 0
marked-no_paths j = rw get_or-no_paths (digit-zero (j % 64))

pub path_bits-distinct :
    (hashes : List ℕ)
    → AreBytes hashes
    → path_bits (mark_all no_paths hashes) 0 ≡ some (distinct hashes)
path_bits-distinct hashes bytes =
    let (sum, words) =
      mark_all-total hashes [] no_paths refl (omega arith) bytes (λ j. marked-no_paths j) in
    path_bits-total (mark_all no_paths hashes) 0 words ∙ ap some (omega (arith, sum, ones-zero 64))
