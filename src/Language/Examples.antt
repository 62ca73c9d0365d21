-- ===== src/Language/Examples.antt =====
-- A request in two languages.
use ankah.Prelude.{
  arith, refl, inl, ℕ, ◌≤◌, ◌<◌, ◌≡◌, ◌⊎◌, false, List, [], ◌∷◌, ◌++◌, Option, none, some,
  if◌then◌else◌, Bytes, codes, str_eq, All,
}
use ankah.Http.{Request}
use ankah.Language.{english, match_range, language_select}
use ankah.Proxy.Address.{before, contains}
use ankah.Language.Html.{append_bytes, replacement, append_html, render_html}
use ankah.Language.Html.Template.{escaped, Part, printed, page}
use ankah.Language.Html.Pages.{render_html-page}
use ankah.Language.Html.Escapes.{append_html-IsSpecial}
use ankah.Language.Matching.{Longest, match_range-Longest}
use ankah.Language.Choosing.{Offer, headers_offers, language_select-offers}

-- "en" is 0, "ja" 1 and "es" 2.
abbrev table : Bytes → Option ℕ
table tag =
    if str_eq tag (codes "en")
    then some 0
    else if str_eq tag (codes "ja")
    then some 1
    else if str_eq tag (codes "es")
    then some 2
    else none

abbrev kind_of : Bytes → ℕ
kind_of name = if str_eq name (codes "accept-language") then 7 else 1

abbrev request : Request
request = record {
  method = codes "GET";
  target = codes "/";
  headers =
      (record { name = codes "accept-language"; value = codes "en;q=0.4, ja-JP;q=0.9"; kind = 0 })
      ∷ (record { name = codes "accept-language"; value = codes "fr, es-419;q=0.900"; kind = 0 })
      ∷ [];
  websocket = false;
  has_body = false;
  chunked = false;
  content_length = 0;
}

match_range-Longest_example : Longest table (codes "es-419") 6 (match_range table (codes "es-419"))
match_range-Longest_example = match_range-Longest table (codes "es-419")

language_select-offers_example :
    let offers = headers_offers table kind_of request.headers in
    let selected = language_select table kind_of request in
    ((offers ≡ []) × (selected ≡ english))
    ⊎ ((front : List Offer) × ((quality : ℕ) × ((rest : List Offer) × ((offers
                ≡ front ++ ((selected, quality) ∷ rest))
              × (All (λ o. o.1 < quality) front × All (λ o. o.1 ≤ quality) rest)))))
language_select-offers_example = language_select-offers table kind_of request

abbrev texts : Bytes → Option Bytes
texts key = if str_eq key (codes "title") then some (codes "A & B") else none

abbrev heading : Part
heading = record { key = codes "title"; plain = codes "</h1>" }

render_html-page_example :
    render_html texts 60 (codes "<h1>Ankah " ++ printed (heading ∷ []))
    ≡ some (codes "<h1>Ankah " ++ page (heading ∷ []) (codes "A & B" ∷ []))
unfolding page escaped replacement before
render_html-page_example =
    render_html-page texts 60 (codes "<h1>Ankah ") (heading ∷ []) (codes "A & B" ∷ []) refl
      ((refl, (refl, (omega arith, (omega arith, refl)))), tt) (omega arith)

append_html-IsSpecial_example :
    (written : Bytes) × ((codes "<b>1 &lt; 2" ≡ codes "<b>" ++ written)
      × (contains b'<' written ≡ false))
unfolding append_html append_bytes replacement
append_html-IsSpecial_example =
    append_html-IsSpecial 40 b'<' (codes "<b>") (codes "1 < 2") (codes "<b>1 &lt; 2") (inl refl)
      refl
