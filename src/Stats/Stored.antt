-- ===== src/Stats/Stored.antt =====
-- A snapshot that is written is read back.
use mathlib.Core.List.{append_assoc}
use native.Mathlib.Nat.{pow-suc}
use ankah.Prelude.{
  ℕ, zero, suc, ◌+◌, ◌*◌, ◌/◌, ◌^◌, ◌<◌, ◌≡◌, refl, ap, ◌∙◌, List, [], ◌∷◌, ◌++◌, arith, length,
  length-append, drop, get_or, map, All, Bytes,
}
use ankah.Stats.{Row, stat_count}
use ankah.Stats.Codec.{
  put_word, get_word, put_words, read_words, row_sizes, row_values, put_record, row_of, get_record,
  put_records, get_records,
}

get_word-put_word :
    (n value : ℕ) (rest : Bytes) → value < 256 ^ n → get_word n (put_word n value ++ rest) ≡ value
unfolding get_word put_word
get_word-put_word zero value rest lt = omega (arith, lt)
get_word-put_word (suc n) value rest lt =
    omega (arith, get_word-put_word n (value / 256) rest (omega (arith, lt, pow-suc 256 n)))

drop-put_word : (n value : ℕ) (rest : Bytes) → drop n (put_word n value ++ rest) ≡ rest
unfolding put_word
drop-put_word zero value rest = refl
drop-put_word (suc n) value rest = drop-put_word n (value / 256) rest

length-put_word : (n value : ℕ) → length (put_word n value) ≡ n
unfolding put_word
length-put_word zero value = refl
length-put_word (suc n) value = ap suc (length-put_word n (value / 256))

-- As many values as sizes, and each within its size.
abbrev pub FitWords : List ℕ → List ℕ → Type 0
FitWords [] [] = Unit {0}
FitWords [] (value ∷ values) = ⊥
FitWords (n ∷ sizes) [] = ⊥
FitWords (n ∷ sizes) (value ∷ values) = (value < 256 ^ n) × FitWords sizes values

pub read_words-put_words :
    (sizes values : List ℕ) (rest : Bytes)
    → FitWords sizes values
    → read_words sizes (put_words sizes values ++ rest) ≡ (values, rest)
unfolding read_words put_words
read_words-put_words [] [] rest fit = refl
read_words-put_words [] (value ∷ values) rest fit = absurd fit
read_words-put_words (n ∷ sizes) [] rest fit = absurd fit
read_words-put_words (n ∷ sizes) (value ∷ values) rest (lt, fit) = rw (
  append_assoc (put_word n value) (put_words sizes values) rest,
  get_word-put_word n value (put_words sizes values ++ rest) lt,
  drop-put_word n value (put_words sizes values ++ rest),
  read_words-put_words sizes values rest fit,
)

-- A value for each field.
abbrev pub IsRow : Row → Type 0
IsRow row = (field : ℕ) → row field < 2 ^ 64

row_values-FitWords :
    (i n : ℕ) (row : Row) → IsRow row → FitWords (row_sizes n) (row_values i n row)
unfolding row_values
row_values-FitWords i zero row h = tt
row_values-FitWords i (suc n) row h = (h i, row_values-FitWords (suc i) n row h)

-- The row without what is beyond the fields.
unfoldable pub stored_row : Row → Row
stored_row row = row_of (row_values 0 stat_count row)

get_or-row_values :
    (i n : ℕ) (row : Row) (field : ℕ)
    → field < n
    → get_or (row_values i n row) field 0 ≡ row (i + field)
unfolding row_values
get_or-row_values i zero row field lt = omega (arith, lt)
get_or-row_values i (suc n) row zero lt = ap row (omega arith)
get_or-row_values i (suc n) row (suc field) lt =
    get_or-row_values (suc i) n row field (omega (arith, lt)) ∙ ap row (omega arith)

pub stored_row_lem : (row : Row) (field : ℕ) → field < stat_count → stored_row row field ≡ row field
unfolding stored_row
stored_row_lem row field lt = get_or-row_values 0 stat_count row field lt ∙ ap row (omega arith)

pub get_record-put_record :
    (row : Row) (rest : Bytes)
    → IsRow row
    → get_record stat_count (put_record row ++ rest) ≡ (stored_row row, rest)
unfolding get_record stored_row
get_record-put_record row rest h = rw (
    read_words-put_words (row_sizes stat_count) (row_values 0 stat_count row) rest
      (row_values-FitWords 0 stat_count row h))

pub get_records-put_records :
    (rows : List Row) (rest : Bytes)
    → All IsRow rows
    → get_records stat_count (length rows) (put_records rows ++ rest) ≡ (map stored_row rows, rest)
unfolding get_records put_records
get_records-put_records [] rest h = refl
get_records-put_records (row ∷ rows) rest (h, hs) = rw (
  append_assoc (put_record row) (put_records rows) rest,
  get_record-put_record row (put_records rows ++ rest) h,
  get_records-put_records rows rest hs,
)

unfoldable pub total_size : List ℕ → ℕ
total_size [] = 0
total_size (n ∷ sizes) = n + total_size sizes

pub length-put_words :
    (sizes values : List ℕ)
    → FitWords sizes values
    → length (put_words sizes values) ≡ total_size sizes
unfolding put_words total_size
length-put_words [] [] fit = refl
length-put_words [] (value ∷ values) fit = absurd fit
length-put_words (n ∷ sizes) [] fit = absurd fit
length-put_words (n ∷ sizes) (value ∷ values) (lt, fit) = omega (
  arith,
  length-append (put_word n value) (put_words sizes values),
  length-put_word n value,
  length-put_words sizes values fit,
)

pub length-put_record : (row : Row) → IsRow row → length (put_record row) ≡ 360
unfolding total_size
length-put_record row h =
    length-put_words (row_sizes stat_count) (row_values 0 stat_count row)
      (row_values-FitWords 0 stat_count row h)

pub length-put_records :
    (rows : List Row) → All IsRow rows → length (put_records rows) ≡ 360 * length rows
unfolding put_records
length-put_records [] h = refl
length-put_records (row ∷ rows) (h, hs) = omega (
  arith,
  length-append (put_record row) (put_records rows),
  length-put_record row h,
  length-put_records rows hs,
)
