-- ===== src/Language.antt =====
-- src/language.c: the language of the pages, from the Accept-Language headers of a request. The lookup of
-- a tag in the table that gperf generates is an argument.
pub mod Quality
pub mod Matching
pub mod Choosing
pub mod Html
mod Examples
use ankah.Prelude.{
  ℕ, zero, suc, ◌+◌, ◌-◌, ◌*◌, Bool, true, false, not, ◌&&◌, ◌||◌, List, [], ◌∷◌, ◌++◌, Option,
  none, some, ◌>>=◌, ltb, leb, ◌==◌, if◌then◌else◌, length, take, get_or, map, Bytes, is_empty,
  within, is_digit, codes,
}
use ankah.Host.Authority.{lower_case}
use ankah.Proxy.Address.{contains, before, after, trim_start, trim_end}
use ankah.Http.{Header, Request, max_value}
use ankah.Http.Cookies.{header_is}

-- ANKAH_HEADER_ACCEPT_LANGUAGE
abbrev pub accept_language_kind : ℕ
accept_language_kind = 7

-- ANKAH_LANGUAGE_EN
abbrev pub english : ℕ
english = 0

-- The loop over the digits behind the point, with their number and value.
unfoldable pub fraction_loop : ℕ → ℕ → Bytes → Option (ℕ × ℕ)
fraction_loop digits fraction [] = some (digits, fraction)
fraction_loop digits fraction (c ∷ cs) =
    if not (is_digit c) || ltb 3 (suc digits)
    then none
    else fraction_loop (suc digits) (fraction * 10 + (c - b'0')) cs

unfoldable pub scaled : ℕ → ℕ → ℕ
scaled zero fraction = fraction
scaled (suc n) fraction = scaled n (fraction * 10)

unfoldable pub whole_and_fraction : ℕ → ℕ → ℕ → Option ℕ
whole_and_fraction whole digits fraction =
    if not (whole == 0) && not (fraction == 0)
    then none
    else some (if not (whole == 0) then 1000 else scaled (3 - digits) fraction)

unfoldable pub behind_whole : ℕ → Bytes → Option ℕ
behind_whole whole [] = whole_and_fraction whole 0 0
behind_whole whole (c ∷ cs) =
    if not (c == b'.')
    then none
    else (fraction_loop 0 0 cs >>= λ (digits, fraction). whole_and_fraction whole digits fraction)

-- The quality in thousandths.
unfoldable pub quality_value : Bytes → Option ℕ
quality_value [] = none
quality_value (c ∷ cs) =
    if not (c == b'0') && not (c == b'1') then none else behind_whole (c - b'0') cs

pub record LanguageRange : Type 0 where
  pub range : Bytes
  pub quality : ℕ
  pub wildcard : Bool

abbrev pub is_alpha : ℕ → Bool
is_alpha c = within b'A' b'Z' c || within b'a' b'z' c

-- The loop over the subtags, and the test behind it.
unfoldable pub subtags_loop : Bool → ℕ → Bytes → Bool
subtags_loop first subtag [] = not (subtag == 0 || ltb 8 subtag)
subtags_loop first subtag (c ∷ cs) =
    if c == b'-'
    then (if subtag == 0 || ltb 8 subtag then false else subtags_loop false 0 cs)
    else if first && not (is_alpha c)
        || not first && not (is_alpha c) && not (is_digit c)
        || ltb 8 (suc subtag)
    then false
    else subtags_loop first (suc subtag) cs

unfoldable pub parameter_quality : Bytes → Option ℕ
parameter_quality [] = none
parameter_quality (name ∷ []) = none
parameter_quality (name ∷ c ∷ value) =
    if not (lower_case name == b'q') || not (c == b'=')
    then none
    else quality_value (trim_end value)

abbrev pub is_wildcard : Bytes → Bool
is_wildcard [] = false
is_wildcard (c ∷ cs) = is_empty cs && c == b'*'

unfoldable pub parse_range : Bytes → Option LanguageRange
parse_range text =
    let element = trim_end (trim_start text) in
    let range = trim_end (before b';' element) in
    let quality =
      if contains b';' element
      then parameter_quality (trim_start (after b';' element))
      else some 1000 in
    if is_empty element || is_empty range || leb max_value (length range)
    then none
    else if not (is_wildcard range || subtags_loop true 0 range)
    then none
    else (quality >>= λ value.
        some record { range = map lower_case range; quality = value; wildcard = is_wildcard range })

-- `while (current && range[current - 1] != '-') --current;`
unfoldable pub back : Bytes → ℕ → ℕ
back range zero = 0
back range (suc n) = if get_or range n 0 == b'-' then suc n else back range n

pub record LanguageChoice : Type 0 where
  pub selected : ℕ
  pub best : Option ℕ

-- `none` is -1.
abbrev pub exceeds : ℕ → Option ℕ → Bool
exceeds quality none = true
exceeds quality (some best) = ltb best quality

unfoldable pub considered : Option ℕ → ℕ → LanguageChoice → LanguageChoice
considered none quality choice = choice
considered (some language) quality choice =
    if exceeds quality choice.best
    then record { selected = language; best = some quality }
    else choice

-- The parts of a value between its commas, which the loop takes one after another.
unfoldable pub with_first : ℕ → List Bytes → List Bytes
with_first c [] = (c ∷ []) ∷ []
with_first c (part ∷ parts) = (c ∷ part) ∷ parts

unfoldable pub comma_parts : Bytes → List Bytes
comma_parts [] = [] ∷ []
comma_parts (c ∷ cs) =
    let parts = comma_parts cs in if c == b',' then [] ∷ parts else with_first c parts

-- `lookup` is ankah_language_lookup, and gives the language of a tag.
module _ (lookup : Bytes → Option ℕ) where
  -- Each round drops a subtag at least, so that a round for each byte is enough.
  unfoldable pub match_loop : ℕ → Bytes → ℕ → Option ℕ
  match_loop fuel range zero = none
  match_loop zero range (suc current) = none
  match_loop (suc fuel) range (suc current) = elim (lookup (take (suc current) range)) [
    | some language ↦ some language
    | none ↦ match_loop fuel range (back range (suc current) - 1)
  ]

  unfoldable pub match_range : Bytes → Option ℕ
  match_range range = match_loop (length range) range (length range)

  abbrev pub keyword : LanguageRange → Option ℕ
  keyword range = if range.wildcard then lookup (codes "en") else match_range range.range

  unfoldable pub consider_range : Option LanguageRange → LanguageChoice → LanguageChoice
  consider_range none choice = choice
  consider_range (some range) choice =
      if ltb 0 range.quality then considered (keyword range) range.quality choice else choice

  unfoldable pub parts_loop : List Bytes → LanguageChoice → LanguageChoice
  parts_loop [] choice = choice
  parts_loop (part ∷ parts) choice = parts_loop parts (consider_range (parse_range part) choice)

  module _ (name_kind : Bytes → ℕ) where
    unfoldable pub headers_loop : List Header → LanguageChoice → LanguageChoice
    headers_loop [] choice = choice
    headers_loop (h ∷ hs) choice = headers_loop hs (
        if header_is name_kind h accept_language_kind
        then parts_loop (comma_parts h.value) choice
        else choice)

    unfoldable pub language_select : Request → ℕ
    language_select request =
        (headers_loop request.headers (record { selected = english; best = none })).selected
