-- ===== src/Language/Choosing.antt =====
-- Which of the offered languages is selected.
use ankah.Prelude.{
  ℕ, ◌≤◌, ◌<◌, ◌≡◌, ◌⊎◌, refl, sym, ap, ◌∙◌, inl, inr, true, false, List, [], ◌∷◌, ◌++◌, Option,
  none, some, arith, ltb, if◌then◌else◌, Bytes, All, Bool-cases,
}
use ankah.Http.{Header, Request}
use ankah.Http.Cookies.{header_is}
use ankah.Language.Quality.{element_thousandths, parse_range-quality}
use ankah.Language.{
  accept_language_kind, english, LanguageRange, parse_range, LanguageChoice, exceeds, considered,
  comma_parts, keyword, consider_range, parts_loop, headers_loop, language_select,
}

-- A language and its quality.
abbrev pub Offer : Type 0
Offer = ℕ × ℕ

unfoldable choose_all : List Offer → LanguageChoice → LanguageChoice
choose_all [] choice = choice
choose_all ((language, quality) ∷ offers) choice =
    choose_all offers (considered (some language) quality choice)

choose_all-append :
    (first second : List Offer) (choice : LanguageChoice)
    → choose_all (first ++ second) choice ≡ choose_all second (choose_all first choice)
unfolding choose_all
choose_all-append [] second choice = refl
choose_all-append ((language, quality) ∷ first) second choice =
    choose_all-append first second (considered (some language) quality choice)

-- An offer that comes before all that are as good, where it exceeds what was chosen; else that is kept.
Picked : List Offer → LanguageChoice → LanguageChoice → Type 0
Picked offers choice result =
    ((result ≡ choice) × All (λ o. exceeds o.1 choice.best ≡ false) offers)
    ⊎ ((front : List Offer) × ((o : Offer) × ((rest : List Offer) × ((offers ≡ front ++ (o ∷ rest))
              × ((result ≡ record { selected = o.0; best = some o.1 })
                  × ((exceeds o.1 choice.best ≡ true)
                      × (All (λ p. p.1 < o.1) front × All (λ p. p.1 ≤ o.1) rest)))))))

not_exceeds_le :
    (quality : ℕ) (offers : List Offer)
    → All (λ o. exceeds o.1 (some quality) ≡ false) offers
    → All (λ o. o.1 ≤ quality) offers
not_exceeds_le quality [] all = tt
not_exceeds_le quality (o ∷ offers) (le, all) = (ground arith, not_exceeds_le quality offers all)

exceeds_trans : (a b : ℕ) (best : Option ℕ) → exceeds a best ≡ true → a < b → exceeds b best ≡ true
exceeds_trans a b none over lt = refl
exceeds_trans a b (some best) over lt = ground arith

exceeds_lt : (a b : ℕ) (best : Option ℕ) → exceeds a best ≡ false → exceeds b best ≡ true → a < b
exceeds_lt a b none under over = absurd (ground arith)
exceeds_lt a b (some best) under over = ground arith

choose_all-Picked :
    (offers : List Offer) (choice : LanguageChoice)
    → Picked offers choice (choose_all offers choice)
unfolding choose_all considered Picked
choose_all-Picked [] choice = inl (refl, tt)
choose_all-Picked ((language, quality) ∷ offers) choice =
    elim (Bool-cases (exceeds quality choice.best)) [
      | inl over ↦
          elim (choose_all-Picked offers (record { selected = language; best = some quality })) [
            | inl (same, all) ↦ rw over (
                inr (
                  [],
                  (
                    (language, quality),
                    (offers, (refl, (same, (over, (tt, not_exceeds_le quality offers all))))),
                  ),
                ))
            | inr (front, (o, (rest, (split, (result, (more, (lower, others))))))) ↦ rw over (
                inr (
                  (language, quality) ∷ front,
                  (
                    o,
                    (
                      rest,
                      (
                        ap (λ xs. (language, quality) ∷ xs) split,
                        (
                          result,
                          (
                            exceeds_trans quality o.1 choice.best over (ground arith),
                            ((ground arith, lower), others),
                          ),
                        ),
                      ),
                    ),
                  ),
                ))
          ]
      | inr under ↦ elim (choose_all-Picked offers choice) [
        | inl (same, all) ↦ rw under (inl (same, (refl, all)))
        | inr (front, (o, (rest, (split, (result, (more, (lower, others))))))) ↦ rw under (
            inr (
              (language, quality) ∷ front,
              (
                o,
                (
                  rest,
                  (
                    ap (λ xs. (language, quality) ∷ xs) split,
                    (
                      result,
                      (more, ((exceeds_lt quality o.1 choice.best under more, lower), others)),
                    ),
                  ),
                ),
              ),
            ))
      ]
    ]

unfoldable pub offer : Option ℕ → ℕ → List Offer
offer none quality = []
offer (some language) quality = (language, quality) ∷ []

choose_all-offer :
    (language : Option ℕ) (quality : ℕ) (choice : LanguageChoice)
    → choose_all (offer language quality) choice ≡ considered language quality choice
unfolding choose_all offer considered
choose_all-offer none quality choice = refl
choose_all-offer (some language) quality choice = refl

module _ (lookup : Bytes → Option ℕ) where
  -- What an element offers: the language of its range, if it is well formed, of a quality above 0, and
  -- matches a tag in the table. The quality is what the digits of the parameter say.
  unfoldable pub quality_offers : Option LanguageRange → Option ℕ → List Offer
  quality_offers none quality = []
  quality_offers (some range) none = []
  quality_offers (some range) (some quality) =
      if ltb 0 quality then offer (keyword lookup range) quality else []

  abbrev pub part_offers : Bytes → List Offer
  part_offers part = quality_offers (parse_range part) (element_thousandths part)

  unfoldable pub parts_offers : List Bytes → List Offer
  parts_offers [] = []
  parts_offers (part ∷ parts) = part_offers part ++ parts_offers parts

  unfoldable range_offers : Option LanguageRange → List Offer
  range_offers none = []
  range_offers (some range) =
      if ltb 0 range.quality then offer (keyword lookup range) range.quality else []

  range_offers-quality_offers :
      (parsed : Option LanguageRange) (quality : Option ℕ)
      → ((range : LanguageRange) → parsed ≡ some range → quality ≡ some range.quality)
      → range_offers parsed ≡ quality_offers parsed quality
  unfolding quality_offers range_offers
  range_offers-quality_offers none quality same = refl
  range_offers-quality_offers (some range) quality same = rw (same range refl) refl

  range_offers-part_offers : (part : Bytes) → range_offers (parse_range part) ≡ part_offers part
  range_offers-part_offers part =
      range_offers-quality_offers (parse_range part) (element_thousandths part)
        (parse_range-quality part)

  consider_range-offers :
      (range : Option LanguageRange) (choice : LanguageChoice)
      → consider_range lookup range choice ≡ choose_all (range_offers range) choice
  unfolding consider_range range_offers choose_all
  consider_range-offers none choice = refl
  consider_range-offers (some range) choice = elim (Bool-cases (ltb 0 range.quality)) [
    | inl positive ↦
        rw positive (sym (choose_all-offer (keyword lookup range) range.quality choice))
    | inr zeroth ↦ rw zeroth refl
  ]

  parts_loop-offers :
      (parts : List Bytes) (choice : LanguageChoice)
      → parts_loop lookup parts choice ≡ choose_all (parts_offers parts) choice
  unfolding parts_loop parts_offers choose_all
  parts_loop-offers [] choice = refl
  parts_loop-offers (part ∷ parts) choice =
      parts_loop-offers parts (consider_range lookup (parse_range part) choice)
      ∙ ap (choose_all (parts_offers parts)) (
          consider_range-offers (parse_range part) choice
          ∙ ap (λ offers. choose_all offers choice) (range_offers-part_offers part))
      ∙ sym (choose_all-append (part_offers part) (parts_offers parts) choice)

  module _ (name_kind : Bytes → ℕ) where
    -- The offers of all Accept-Language headers, in their order.
    unfoldable pub headers_offers : List Header → List Offer
    headers_offers [] = []
    headers_offers (h ∷ hs) =
        (if header_is name_kind h accept_language_kind
          then parts_offers (comma_parts h.value)
          else [])
        ++ headers_offers hs

    headers_loop-offers :
        (hs : List Header) (choice : LanguageChoice)
        → headers_loop lookup name_kind hs choice ≡ choose_all (headers_offers hs) choice
    unfolding headers_loop headers_offers choose_all
    headers_loop-offers [] choice = refl
    headers_loop-offers (h ∷ hs) choice =
        elim (Bool-cases (header_is name_kind h accept_language_kind)) [
          | inl language ↦ rw language (
              headers_loop-offers hs (parts_loop lookup (comma_parts h.value) choice)
              ∙ ap (choose_all (headers_offers hs)) (parts_loop-offers (comma_parts h.value) choice)
              ∙ sym (
                  choose_all-append (parts_offers (comma_parts h.value)) (headers_offers hs)
                    choice))
          | inr other ↦ rw other (headers_loop-offers hs choice)
        ]

    no_offers : (offers : List Offer) → All (λ o. exceeds o.1 none ≡ false) offers → offers ≡ []
    no_offers [] all = refl
    no_offers (o ∷ offers) (h, all) = absurd (ground arith)

    -- The language that is selected is English where the Accept-Language headers offer nothing; else it
    -- is of an offer that is better than all before it, and at least as good as all after it.
    pub language_select-offers :
        (request : Request)
        → let offers = headers_offers request.headers in
          let selected = language_select lookup name_kind request in
          ((offers ≡ []) × (selected ≡ english))
          ⊎ ((front : List Offer) × ((quality : ℕ) × ((rest : List Offer) × ((offers
                      ≡ front ++ ((selected, quality) ∷ rest))
                    × (All (λ o. o.1 < quality) front × All (λ o. o.1 ≤ quality) rest)))))
    unfolding language_select Picked
    language_select-offers request =
        let offers = headers_offers request.headers in
        let initial : LanguageChoice = record { selected = english; best = none } in
        let loop : headers_loop lookup name_kind request.headers initial
            ≡ choose_all offers initial =
          headers_loop-offers request.headers initial in
        elim (choose_all-Picked offers initial) [
          | inl (same, all) ↦ inl (no_offers offers all, ap (λ c. c.selected) (loop ∙ same))
          | inr (front, (o, (rest, (split, (result, (more, (lower, others))))))) ↦
              let chosen : language_select lookup name_kind request ≡ o.0 =
                ap (λ c. c.selected) (loop ∙ result) in
              inr (
                front,
                (
                  o.1,
                  (
                    rest,
                    (split ∙ ap (λ l. front ++ ((l, o.1) ∷ rest)) (sym chosen), (lower, others)),
                  ),
                ),
              )
        ]
