-- ===== src/Http/Cookies/Kept.antt =====
-- The headers after the join.
use ankah.Prelude.{
  ℕ, zero, suc, ◌+◌, ◌-◌, ◌≤◌, ◌<◌, ◌≡◌, ◌≢◌, refl, ap, inl, inr, true, false, ◌||◌, List, [], ◌∷◌,
  arith, Option, none, some, ◌>>=◌, ltb, ◌==◌, if◌then◌else◌, length, Bytes, Bool-cases,
}
use ankah.Http.{Header, Request, max_value, max_headers}
use ankah.Http.Cookies.{
  Measure, is_cookie, join_loop, kept_loop, replace_value, joined_headers, request_coalesce_cookies,
}
use ankah.Http.Cookies.Joined.{later, together, count_cookies, first_cookie, measure_loop-outcome}

module _ (name_kind : Bytes → ℕ) where
  -- The headers that are no cookies.
  abbrev pub others : List Header → List Header
  others [] = []
  others (h ∷ hs) = if is_cookie name_kind h then others hs else h ∷ others hs

  -- The first cookie with the value, the other cookies left out.
  abbrev pub with_cookie : Bytes → List Header → List Header
  with_cookie value [] = []
  with_cookie value (h ∷ hs) =
      if is_cookie name_kind h
      then record h { value = value } ∷ others hs
      else h ∷ with_cookie value hs

  join_loop-later :
      (hs : List Header) (i first : ℕ)
      → first < i
      → join_loop name_kind hs i first ≡ later name_kind hs
  unfolding join_loop
  join_loop-later [] i first h = refl
  join_loop-later (x ∷ hs) i first h = elim (Bool-cases (is_cookie name_kind x)) [
    | inr other ↦ rw (other, join_loop) (join_loop-later hs (suc i) first (omega arith))
    | inl cookie ↦
        let behind : (i == first) ≡ false = ground arith in
        rw (cookie, join_loop)
          (rw behind (rw (join_loop-later hs (suc i) first (omega arith)) refl))
  ]

  kept_loop-after :
      (hs : List Header) (i first : ℕ) → first < i → kept_loop name_kind hs i first ≡ others hs
  unfolding kept_loop
  kept_loop-after [] i first h = refl
  kept_loop-after (x ∷ hs) i first h =
      let behind : (i == first) ≡ false = ground arith in
      rw (kept_loop-after hs (suc i) first (omega arith), behind) refl

  first_cookie-ge :
      (hs : List Header) (i : ℕ) → count_cookies name_kind hs ≢ 0 → i ≤ first_cookie name_kind hs i
  first_cookie-ge [] i h = absurd (h refl)
  first_cookie-ge (x ∷ hs) i h = elim (Bool-cases (is_cookie name_kind x)) [
    | inl cookie ↦ rw cookie (omega arith)
    | inr other ↦ rw other (omega (arith, first_cookie-ge hs (suc i) (rw other at h)))
  ]

  join_loop-together :
      (hs : List Header) (i : ℕ)
      → join_loop name_kind hs i (first_cookie name_kind hs i) ≡ together name_kind hs
  unfolding join_loop
  join_loop-together [] i = refl
  join_loop-together (x ∷ hs) i = elim (Bool-cases (is_cookie name_kind x)) [
    | inr other ↦ rw (other, join_loop) (join_loop-together hs (suc i))
    | inl cookie ↦
        let here : (i == i) ≡ true = ground arith in
        rw (cookie, join_loop) (rw here (rw (join_loop-later hs (suc i) i (omega arith)) refl))
  ]

  later_only :
      (hs : List Header) (i first : ℕ)
      → count_cookies name_kind hs ≢ 0
      → first_cookie name_kind hs (suc i) ≡ first
      → first ≡ i + 0
      → ⊥
  later_only hs i first h e at_k = omega (arith, first_cookie-ge hs (suc i) h)

  apart : (i k first : ℕ) → i ≡ first → first ≡ i + suc k → ⊥
  apart i k first e at_k = omega arith

  kept_loop-with_cookie :
      (hs : List Header) (i k first : ℕ) (value : Bytes)
      → count_cookies name_kind hs ≢ 0
      → first_cookie name_kind hs i ≡ first
      → first ≡ i + k
      → kept_loop name_kind (replace_value hs k value) i first ≡ with_cookie value hs
  unfolding kept_loop
  kept_loop-with_cookie [] i k first value h e at_k = absurd (h refl)
  kept_loop-with_cookie (x ∷ hs) i zero first value h e at_k =
      elim (Bool-cases (is_cookie name_kind x)) [
        | inl cookie ↦
            let here : (i == first) ≡ true = ground arith in
            rw (here, cookie) (rw (kept_loop-after hs (suc i) first (omega arith)) refl)
        | inr other ↦ absurd (later_only hs i first (rw other at h) (rw other at e) at_k)
      ]
  kept_loop-with_cookie (x ∷ hs) i (suc k) first value h e at_k =
      elim (Bool-cases (is_cookie name_kind x)) [
        | inl cookie ↦ let same : i ≡ first = rw cookie at e in absurd (apart i k first same at_k)
        | inr other ↦
            rw
              (
                kept_loop-with_cookie hs (suc i) k first value (rw other at h) (rw other at e)
                    (omega arith),
                other,
              )
              (let behind : (i == first) ≡ false = ground arith in rw behind refl)
      ]

  -- The headers that `request_coalesce_cookies` is to leave; `none` if it is to refuse.
  abbrev pub coalesced : List Header → Option (List Header)
  coalesced hs =
      if ltb max_headers (length hs) || ltb (max_value - 1) (length (together name_kind hs))
      then none
      else some (
          if ltb (count_cookies name_kind hs) 2 then hs else with_cookie (together name_kind hs) hs)

  joined_headers-with_cookie :
      (hs : List Header) (m : Measure)
      → m.cookies ≡ count_cookies name_kind hs
      → m.first ≡ first_cookie name_kind hs 0
      → joined_headers name_kind hs m ≡ (
          if ltb (count_cookies name_kind hs) 2 then hs else with_cookie (together name_kind hs) hs)
  unfolding joined_headers
  joined_headers-with_cookie hs m c f = elim (Bool-cases (ltb (count_cookies name_kind hs) 2)) [
    | inl few ↦ rw (c, few) refl
    | inr many ↦
        rw (c, many, f, join_loop-together hs 0)
          (kept_loop-with_cookie hs 0 (first_cookie name_kind hs 0) (first_cookie name_kind hs 0)
            (together name_kind hs) (ground (arith, many)) refl (omega arith))
  ]

  -- Cookies are coalesced as they should be: the request is refused exactly when it has more than 64
  -- headers or its cookies, joined by "; ", have more than 4095 bytes; and else, with two cookies or
  -- more, the first has the joined text, in order, the other cookies are left out, and every other
  -- header stays as it is, in its order.
  pub request_coalesce_cookies-coalesced :
      (request : Request)
      → request_coalesce_cookies name_kind request
        ≡ (coalesced request.headers >>= λ hs. some (record request { headers = hs }))
  unfolding request_coalesce_cookies
  request_coalesce_cookies-coalesced request =
      elim (Bool-cases (ltb max_headers (length request.headers))) [
        | inl many ↦ rw many refl
        | inr few ↦
            rw (few, measure_loop-outcome name_kind request.headers 0)
              (elim (Bool-cases
                (ltb (max_value - 1) (length (together name_kind request.headers)))) [
                  | inl long ↦ rw long refl
                  | inr fits ↦ rw fits (
                      ap (λ hs. some (record request { headers = hs }))
                        (joined_headers-with_cookie request.headers
                          (record {
                            total = length (together name_kind request.headers);
                            cookies = count_cookies name_kind request.headers;
                            first = first_cookie name_kind request.headers 0;
                          })
                          refl refl))
                ])
      ]
