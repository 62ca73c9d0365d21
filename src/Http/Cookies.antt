-- ===== src/Http/Cookies.antt =====
-- src/http.c, `ankah_request_coalesce_cookies`, and the test of src/header_names.h that it uses.
pub mod Joined
pub mod Kept
use ankah.Prelude.{
  ℕ, zero, suc, ◌+◌, ◌-◌, Bool, true, false, not, ◌&&◌, ◌||◌, List, [], ◌∷◌, ◌++◌, Option, none,
  some, ltb, ◌==◌, if◌then◌else◌, length, set, get_elem?, Bytes, codes,
}
use ankah.Http.{Header, Request, max_value, max_headers}

-- ANKAH_HEADER_COOKIE
abbrev pub cookie_kind : ℕ
cookie_kind = 12

-- What the first loop finds: the bytes of the join, the cookies, and the index of the first.
pub record Measure : Type 0 where
  pub total : ℕ
  pub cookies : ℕ
  pub first : ℕ

abbrev pub separator : ℕ → ℕ
separator cookies = if cookies == 0 then 0 else 2

abbrev pub nothing_measured : Measure
nothing_measured = record { total = 0; cookies = 0; first = max_headers }

-- One cookie in the first loop, at index `i`; `none` returns -1.
unfoldable pub measured : ℕ → ℕ → Measure → Option Measure
measured i size m =
    let gap = separator m.cookies in
    if ltb (max_value - 1 - gap) m.total || ltb (max_value - 1 - gap - m.total) size
    then none
    else some (record {
      total = m.total + (gap + size);
      cookies = m.cookies + 1;
      first = if m.cookies == 0 then i else m.first;
    })

-- memcpy(request->headers[first].value, joined, used + 1)
abbrev pub replace_value : List Header → ℕ → Bytes → List Header
replace_value [] i value = []
replace_value (h ∷ hs) zero value = record h { value = value } ∷ hs
replace_value (h ∷ hs) (suc i) value = h ∷ replace_value hs i value

-- `name_kind` is ankah_header_name_kind, a lookup in a generated table.
module _ (name_kind : Bytes → ℕ) where
  abbrev pub effective_kind : Header → ℕ
  effective_kind h = if h.kind == 0 then name_kind h.name else h.kind

  unfoldable pub header_is : Header → ℕ → Bool
  header_is h kind = effective_kind h == kind

  abbrev pub is_cookie : Header → Bool
  is_cookie h = header_is h cookie_kind

  unfoldable pub measure_loop : List Header → ℕ → Measure → Option Measure
  measure_loop [] i m = some m
  measure_loop (h ∷ hs) i m = elim (is_cookie h) [
    | false ↦ measure_loop hs (suc i) m
    | true ↦ elim (measured i (length h.value) m) [
      | none ↦ none
      | some m' ↦ measure_loop hs (suc i) m'
    ]
  ]

  -- The second loop, from index `i`.
  unfoldable pub join_loop : List Header → ℕ → ℕ → Bytes
  join_loop [] i first = []
  join_loop (h ∷ hs) i first =
      let rest = join_loop hs (suc i) first in
      if not (is_cookie h)
      then rest
      else (if i == first then h.value else codes "; " ++ h.value) ++ rest

  -- The third loop.
  unfoldable pub kept_loop : List Header → ℕ → ℕ → List Header
  kept_loop [] i first = []
  kept_loop (h ∷ hs) i first =
      let rest = kept_loop hs (suc i) first in
      if not (i == first) && is_cookie h then rest else h ∷ rest

  unfoldable pub joined_headers : List Header → Measure → List Header
  joined_headers hs m =
      if ltb m.cookies 2
      then hs
      else kept_loop (replace_value hs m.first (join_loop hs 0 m.first)) 0 m.first

  -- `none` is -1, which leaves the request as it is.
  unfoldable pub request_coalesce_cookies : Request → Option Request
  request_coalesce_cookies request =
      if ltb max_headers (length request.headers)
      then none
      else elim (measure_loop request.headers 0 nothing_measured) [
        | none ↦ none
        | some m ↦ some (record request { headers = joined_headers request.headers m })
      ]
