-- ===== src/Language/Quality.antt =====
-- The quality of an element of Accept-Language, read off its digits.
use ankah.Prelude.{
  ◌⊎◌, ap, inl, inr, Bool-cases, ℕ, ◌+◌, ◌-◌, ◌*◌, ◌≡◌, refl, Bool, true, false, ◌&&◌, ◌||◌, [],
  ◌∷◌, Option, none, some, some-injective, ◌>>=◌, ◌==◌, if◌then◌else◌, Bytes, is_digit, arith,
}
use ankah.Proxy.Address.{contains, after, trim_start, trim_end}
use ankah.Language.{
  LanguageRange, fraction_loop, scaled, whole_and_fraction, behind_whole, quality_value,
  parameter_quality, parse_range,
}

-- At most three digits behind the point are tenths, hundredths and thousandths.
abbrev pub fraction : Bytes → Option ℕ
fraction [] = some 0
fraction (a ∷ []) = if is_digit a then some ((a - b'0') * 100) else none
fraction (a ∷ b ∷ []) =
    if is_digit a && is_digit b then some ((a - b'0') * 100 + (b - b'0') * 10) else none
fraction (a ∷ b ∷ c ∷ []) =
    if is_digit a && is_digit b && is_digit c
    then some ((a - b'0') * 100 + (b - b'0') * 10 + (c - b'0'))
    else none
fraction (a ∷ b ∷ c ∷ d ∷ rest) = none

-- One is not exceeded.
abbrev pub up_to_one : ℕ → Option ℕ → Option ℕ
up_to_one whole none = none
up_to_one whole (some f) =
    if whole == b'0' then some f else if whole == b'1' && f == 0 then some 1000 else none

abbrev pub thousandths : Bytes → Option ℕ
thousandths [] = none
thousandths (whole ∷ []) = up_to_one whole (some 0)
thousandths (whole ∷ point ∷ rest) = if point == b'.' then up_to_one whole (fraction rest) else none

fraction_loop-fraction :
    (whole : ℕ) (rest : Bytes)
    → (whole ≡ 0) ⊎ (whole ≡ 1)
    → (fraction_loop 0 0 rest >>= λ (digits, f). whole_and_fraction whole digits f)
      ≡ up_to_one (whole + b'0') (fraction rest)
unfolding fraction_loop whole_and_fraction scaled
fraction_loop-fraction whole [] h = ground arith
fraction_loop-fraction whole (a ∷ []) h = ground arith
fraction_loop-fraction whole (a ∷ b ∷ []) h = ground arith
fraction_loop-fraction whole (a ∷ b ∷ c ∷ []) h = ground arith
fraction_loop-fraction whole (a ∷ b ∷ c ∷ d ∷ rest) h = ground arith

other_whole :
    (c : ℕ) (point : Bool) (f : Option ℕ)
    → (c == b'0') ≡ false
    → (c == b'1') ≡ false
    → none ≡ (if point then up_to_one c f else none)
other_whole c point none zeroth first = ground arith
other_whole c point (some f) zeroth first = ground arith

pub quality_value-thousandths : (text : Bytes) → quality_value text ≡ thousandths text
unfolding quality_value behind_whole whole_and_fraction scaled
quality_value-thousandths [] = refl
quality_value-thousandths (c ∷ []) = ground arith
quality_value-thousandths (c ∷ point ∷ rest) = elim (Bool-cases (c == b'0')) [
  | inl is_zero ↦
      let same : c ≡ b'0' = ground arith in
      rw (same, fraction_loop-fraction 0 rest (inl refl)) (ground arith)
  | inr other ↦ elim (Bool-cases (c == b'1')) [
    | inl is_one ↦
        let same : c ≡ b'1' = ground arith in
        rw (same, fraction_loop-fraction 1 rest (inr refl)) (ground arith)
    | inr neither ↦
        rw (other, neither) (other_whole c (point == b'.') (fraction rest) other neither)
  ]
]

-- The quality in thousandths that the parameter of an element gives.
abbrev pub parameter_thousandths : Bytes → Option ℕ
parameter_thousandths [] = none
parameter_thousandths (name ∷ []) = none
parameter_thousandths (name ∷ c ∷ value) =
    if (name == b'q' || name == b'Q') && c == b'=' then thousandths (trim_end value) else none

-- That of an element; it is one where there is no parameter.
abbrev pub element_thousandths : Bytes → Option ℕ
element_thousandths part =
    let element = trim_end (trim_start part) in
    if contains b';' element
    then parameter_thousandths (trim_start (after b';' element))
    else some 1000

parameter_quality-thousandths : (text : Bytes) → parameter_quality text ≡ parameter_thousandths text
unfolding parameter_quality
parameter_quality-thousandths [] = refl
parameter_quality-thousandths (name ∷ []) = refl
parameter_quality-thousandths (name ∷ c ∷ value) =
    rw (quality_value-thousandths (trim_end value)) (ground arith)

quality_passed :
    (empty long : Bool) (quality : Option ℕ) (name : Bytes) (wildcard : Bool)
    (range : LanguageRange)
    → (if empty
        then none
        else if long
        then none
        else (quality >>= λ value.
            some (record { range = name; quality = value; wildcard = wildcard })))
      ≡ some range
    → quality ≡ some range.quality
quality_passed true long quality name wildcard range e = cc
quality_passed false true quality name wildcard range e = cc
quality_passed false false none name wildcard range e = cc
quality_passed false false (some q) name wildcard range e =
    ap (λ r. some r.quality) (some-injective _ range e)

pub parse_range-quality :
    (part : Bytes) (range : LanguageRange)
    → parse_range part ≡ some range
    → element_thousandths part ≡ some range.quality
unfolding parse_range
parse_range-quality part range e =
    rw (← parameter_quality-thousandths (trim_start (after b';' (trim_end (trim_start part)))))
      (quality_passed _ _ _ _ _ range e)
