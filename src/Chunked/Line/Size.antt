-- ===== src/Chunked/Line/Size.antt =====
-- The size line of a chunk: digits, then an extension that is ignored.
use ankah.Prelude.{
  Bool, ℕ, ◌+◌, ◌-◌, ◌*◌, ◌≤◌, ◌<◌, ◌≡◌, refl, ◌≢◌, ◌⊎◌, inl, inr, true, false, List, [], ◌∷◌, ◌++◌,
  map, none, some, arith, ltb, leb, if◌then◌else◌, All, Bytes, Bool-cases, leb→le, ◌∙◌,
}
use ankah.Prelude.Words.{size_max}
use ankah.Chunked.Line.{chunk_hex, SizeScan, size_step, size_loop, parse_chunk_size}

-- A digit with a value below 16, in either case.
pub record HexDigit : Type 0 where
  pub digit : ℕ
  pub upper : Bool

abbrev pub hex_digit : HexDigit → ℕ
hex_digit d =
    if ltb d.digit 10
    then b'0' + d.digit
    else if d.upper
    then b'A' + d.digit - 10
    else b'a' + d.digit - 10

abbrev pub hex_value : ℕ → List HexDigit → ℕ
hex_value acc [] = acc
hex_value acc (d ∷ ds) = hex_value (acc * 16 + d.digit) ds

-- `;` and printable bytes, or nothing.
abbrev pub IsExtension : Bytes → Type 0
IsExtension [] = Unit
IsExtension (c ∷ cs) = (c ≡ b';') × All (λ x. (0x20 ≤ x) × (x ≤ 0x7e)) cs

chunk_hex-hex_digit : (d : HexDigit) → d.digit < 16 → chunk_hex (hex_digit d) ≡ some d.digit
unfolding chunk_hex
chunk_hex-hex_digit d h = ground arith

hex_value-ge : (acc : ℕ) (ds : List HexDigit) → acc ≤ hex_value acc ds
hex_value-ge acc [] = omega arith
hex_value-ge acc (d ∷ ds) = omega (arith, hex_value-ge (acc * 16 + d.digit) ds)

size_step-digit :
    (v n : ℕ) (d : HexDigit)
    → d.digit < 16
    → size_step (record { value = v; digits = n; extension = false }) (hex_digit d) ≡ (
        if leb (v * 16 + d.digit) size_max
        then some (record { value = v * 16 + d.digit; digits = n + 1; extension = false })
        else none)
unfolding size_step
size_step-digit v n d h = ground (arith, chunk_hex-hex_digit d h)

size_loop-extension :
    (s : SizeScan) (cs : Bytes)
    → s.extension ≡ true
    → s.digits ≢ 0
    → All (λ x. (0x20 ≤ x) × (x ≤ 0x7e)) cs
    → size_loop s cs ≡ some s.value
unfolding size_loop size_step
size_loop-extension s [] e d h = ground arith
size_loop-extension s (c ∷ cs) e d h = ground (arith, size_loop-extension s cs e d h.1)

size_loop-end :
    (v n : ℕ) (ext : Bytes)
    → n ≢ 0
    → IsExtension ext
    → size_loop (record { value = v; digits = n; extension = false }) ext ≡ some v
unfolding size_loop size_step
size_loop-end v n [] d h = ground arith
size_loop-end v n (c ∷ cs) d h =
    ground (
      arith,
      size_loop-extension (record { value = v; digits = n; extension = true }) cs refl d h.1,
    )

size_loop-step :
    (s s' : SizeScan) (c : ℕ) (cs : Bytes)
    → size_step s c ≡ some s'
    → size_loop s (c ∷ cs) ≡ size_loop s' cs
unfolding size_loop
size_loop-step s s' c cs e = rw (e, size_loop)

size_loop-stop :
    (s : SizeScan) (c : ℕ) (cs : Bytes) → size_step s c ≡ none → size_loop s (c ∷ cs) ≡ none
unfolding size_loop
size_loop-stop s c cs e = rw (e, size_loop)

size_loop-digits :
    (ds : List HexDigit) (v n : ℕ) (ext : Bytes)
    → (n ≢ 0) ⊎ (ds ≢ [])
    → v ≤ size_max
    → All (λ d. d.digit < 16) ds
    → IsExtension ext
    → size_loop (record { value = v; digits = n; extension = false }) (map hex_digit ds ++ ext)
      ≡ (if leb (hex_value v ds) size_max then some (hex_value v ds) else none)
size_loop-digits [] v n ext nd b h x = elim nd [
  | inl n_pos ↦ size_loop-end v n ext n_pos x ∙ ground arith
  | inr none_left ↦ absurd (none_left refl)
]
size_loop-digits (d ∷ ds) v n ext nd b h x = elim (Bool-cases (leb (v * 16 + d.digit) size_max)) [
  | inl fits ↦
      size_loop-step _ (record { value = v * 16 + d.digit; digits = n + 1; extension = false }) _ _
        (size_step-digit v n d h.0 ∙ rw fits)
      ∙ size_loop-digits ds (v * 16 + d.digit) (n + 1) ext (inl (omega arith)) (leb→le _ _ fits) h.1
          x
  | inr past ↦
      size_loop-stop _ _ _ (size_step-digit v n d h.0 ∙ rw past)
      ∙ ground (arith, hex_value-ge (v * 16 + d.digit) ds)
]

-- A line of at least one hexadecimal digit, in lower or upper case, with or without an extension, has the value of its digits, and is
-- refused exactly when the value does not fit a `size_t`.
pub parse_chunk_size-digits :
    (ds : List HexDigit) (ext : Bytes)
    → ds ≢ []
    → All (λ d. d.digit < 16) ds
    → IsExtension ext
    → parse_chunk_size (map hex_digit ds ++ ext)
      ≡ (if leb (hex_value 0 ds) size_max then some (hex_value 0 ds) else none)
unfolding parse_chunk_size
parse_chunk_size-digits ds ext ne h x = size_loop-digits ds 0 0 ext (inr ne) (omega arith) h x
