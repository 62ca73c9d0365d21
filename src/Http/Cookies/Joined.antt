-- ===== src/Http/Cookies/Joined.antt =====
-- Joining cookies keeps their text and order, and every other header.
use ankah.Prelude.{
  ℕ, suc, ◌+◌, ◌-◌, ◌≤◌, ◌≡◌, ◌≢◌, refl, ◌∙◌, inl, inr, true, false, List, [], ◌∷◌, ◌++◌, arith,
  Option, none, some, ltb, if◌then◌else◌, length, length-append, Bytes, codes, Bool-cases,
}
use ankah.Http.{Header, max_value, max_headers}
use ankah.Http.Cookies.{Measure, is_cookie, measured, measure_loop, nothing_measured}

module _ (name_kind : Bytes → ℕ) where
  -- The values of the cookies, each but the first after "; ".
  abbrev pub later : List Header → Bytes
  later [] = []
  later (h ∷ hs) = if is_cookie name_kind h then codes "; " ++ (h.value ++ later hs) else later hs

  abbrev pub together : List Header → Bytes
  together [] = []
  together (h ∷ hs) = if is_cookie name_kind h then h.value ++ later hs else together hs

  abbrev pub count_cookies : List Header → ℕ
  count_cookies [] = 0
  count_cookies (h ∷ hs) = if is_cookie name_kind h then 1 + count_cookies hs else count_cookies hs

  -- The measure that a loop over `hs` ends with, from `m` after a cookie.
  abbrev accounted : List Header → Measure → Option Measure
  accounted hs m =
      if ltb (max_value - 1) (m.total + length (later hs))
      then none
      else some (record {
        total = m.total + length (later hs);
        cookies = m.cookies + count_cookies hs;
        first = m.first;
      })

  accounted-nil : (m : Measure) → m.total ≤ max_value - 1 → some m ≡ accounted [] m
  accounted-nil m small = ground arith

  -- One more cookie of `size` bytes.
  abbrev grown : ℕ → Measure → Measure
  grown size m = record { total = m.total + (2 + size); cookies = m.cookies + 1; first = m.first }

  measured-cases :
      (i size : ℕ) (m : Measure)
      → m.cookies ≢ 0
      → m.total ≤ max_value - 1
      → measured i size m
        ≡ (if ltb (max_value - 1) (m.total + (2 + size)) then none else some (grown size m))
  unfolding measured
  measured-cases i size m some_cookie small = ground arith

  accounted-cookie :
      (h : Header) (hs : List Header) (m : Measure)
      → is_cookie name_kind h ≡ true
      → accounted (h ∷ hs) m ≡ (
          if ltb (max_value - 1) (m.total + (2 + length h.value))
          then none
          else accounted hs (grown (length h.value) m))
  accounted-cookie h hs m cookie = ground (arith, cookie, length-append h.value (later hs))

  accounted-other :
      (h : Header) (hs : List Header) (m : Measure)
      → is_cookie name_kind h ≡ false
      → accounted (h ∷ hs) m ≡ accounted hs m
  accounted-other h hs m other = rw other refl

  -- From a cookie on, the first loop adds the length of what follows, or finds it too long.
  measure_loop-accounted :
      (hs : List Header) (i : ℕ) (m : Measure)
      → m.cookies ≢ 0
      → m.total ≤ max_value - 1
      → measure_loop name_kind hs i m ≡ accounted hs m
  unfolding measure_loop
  measure_loop-accounted [] i m some_cookie small = accounted-nil m small
  measure_loop-accounted (h ∷ hs) i m some_cookie small =
      elim (Bool-cases (is_cookie name_kind h)) [
        | inr other ↦
            rw (accounted-other h hs m other)
              (rw (other, measure_loop) (measure_loop-accounted hs (suc i) m some_cookie small))
        | inl cookie ↦ rw (accounted-cookie h hs m cookie) (
            rw (cookie, measure_loop)
              (rw (measured-cases i (length h.value) m some_cookie small)
                (elim (Bool-cases (ltb (max_value - 1) (m.total + (2 + length h.value)))) [
                  | inl over ↦ rw over refl
                  | inr fits ↦ rw fits (
                      measure_loop-accounted hs (suc i) (grown (length h.value) m) (omega arith)
                        (ground (arith, fits)))
                ])))
      ]

  -- The first loop from the start: the join fits, or it is refused.
  abbrev pub outcome : List Header → ℕ → Option Measure
  outcome hs first =
      if ltb (max_value - 1) (length (together hs))
      then none
      else some (record { total = length (together hs); cookies = count_cookies hs; first = first })

  -- The index of the first cookie, counted from `i`; `max_headers` if there is none.
  abbrev pub first_cookie : List Header → ℕ → ℕ
  first_cookie [] i = max_headers
  first_cookie (h ∷ hs) i = if is_cookie name_kind h then i else first_cookie hs (suc i)

  measured-first :
      (i size : ℕ)
      → measured i size nothing_measured ≡ (
          if ltb (max_value - 1) size
          then none
          else some (record { total = size; cookies = 1; first = i }))
  unfolding measured
  measured-first i size = ground arith

  regroup :
      (h : Header) (hs : List Header) (i : ℕ)
      → accounted hs (record { total = length h.value; cookies = 1; first = i }) ≡ (
          if ltb (max_value - 1) (length (h.value ++ later hs))
          then none
          else some (record {
            total = length (h.value ++ later hs);
            cookies = 1 + count_cookies hs;
            first = i;
          }))
  regroup h hs i = rw (length-append h.value (later hs)) refl

  pub measure_loop-outcome :
      (hs : List Header) (i : ℕ)
      → measure_loop name_kind hs i nothing_measured ≡ outcome hs (first_cookie hs i)
  unfolding measure_loop
  measure_loop-outcome [] i = refl
  measure_loop-outcome (h ∷ hs) i = elim (Bool-cases (is_cookie name_kind h)) [
    | inr other ↦ rw (other, measure_loop) (measure_loop-outcome hs (suc i))
    | inl cookie ↦
        rw (cookie, measure_loop)
          (rw (measured-first i (length h.value))
            (elim (Bool-cases (ltb (max_value - 1) (length h.value))) [
              | inl over ↦
                  let still : ltb (max_value - 1) (length h.value + length (later hs)) ≡ true =
                    ground (arith, over) in
                  rw (over, length-append h.value (later hs)) (rw still refl)
              | inr fits ↦ rw fits (
                  measure_loop-accounted hs (suc i)
                    (record { total = length h.value; cookies = 1; first = i }) (omega arith)
                    (ground (arith, fits))
                  ∙ regroup h hs i)
            ]))
  ]
