-- ===== src/Language/Html/Pages.antt =====
-- A page is its template with the texts, escaped, in the place of the directives.
use mathlib.Core.List.{append_assoc, append-nil}
use ankah.Prelude.{
  ap, inl, inr, Bool-cases, ℕ, zero, suc, ◌+◌, ◌≤◌, ◌<◌, ◌≡◌, refl, sym, ◌∙◌, true, false, List, [],
  ◌∷◌, ◌++◌, Option, some, arith, leb, length, length-append, drop, drop_append, Bytes, is_empty,
}
use ankah.Proxy.Address.{contains, before}
use ankah.Language.Html.Tags.{is_plain, is_plain-append, contains-cut}
use mathlib.Core.Path.{subst}
use ankah.Language.Html.{key_size, echo_suffix, directive, render_tag, render_loop, render_html}
use ankah.Language.Html.Template.{
  escaped, Part, printed, IsPart, AreParts, page, append_bytes-fits, append_html-escaped,
  before-append, contains-append, before-printed, begins_with-printed,
}

filled_lem : (text : Bytes) → 0 < length text → is_empty text ≡ false
filled_lem [] lt = absurd (omega (arith, lt))
filled_lem (c ∷ text) lt = refl

module _ (lookup : Bytes → Option Bytes) (capacity : ℕ) where
  directive-printed :
      (part : Part) (parts : List Part) (value : Bytes)
      → IsPart lookup part value
      → directive lookup capacity (printed (part ∷ parts))
        ≡ some (value, part.plain ++ printed parts)
  unfolding directive printed
  directive-printed part parts value (known, (unquoted, (filled, (short, plain)))) =
      let behind : Bytes = part.plain ++ printed parts in
      let end : Bytes = drop 1 echo_suffix ++ behind in
      let cut : before b'"' (part.key ++ (b'"' ∷ end)) ≡ part.key =
        before-append b'"' part.key end unquoted in
      let some_key : is_empty part.key ≡ false = filled_lem part.key filled in
      let short_key : leb key_size (length part.key) ≡ false = ground arith in
      rw
        (
          cut,
          contains-append b'"' part.key end,
          drop_append part.key (b'"' ∷ end),
          some_key,
          short_key,
          known,
        )
        refl

  render_tag-printed :
      (next : Bytes → Bytes → Option Bytes) (part : Part) (parts : List Part) (value output : Bytes)
      → IsPart lookup part value
      → length output + length (escaped value) ≤ capacity
      → render_tag lookup capacity next (printed (part ∷ parts)) output
        ≡ next (part.plain ++ printed parts) (output ++ escaped value)
  unfolding render_tag printed
  render_tag-printed next part parts value output is_part le =
      rw (directive-printed part parts value is_part, append_html-escaped capacity output value le)
        refl

  -- A `<` that begins no directive is copied.
  render_tag-plain :
      (next : Bytes → Bytes → Option Bytes) (plain : Bytes) (parts : List Part) (output : Bytes)
      → is_plain (b'<' ∷ plain) ≡ true
      → length output + 1 ≤ capacity
      → render_tag lookup capacity next ((b'<' ∷ plain) ++ printed parts) output
        ≡ next (plain ++ printed parts) (output ++ b'<' ∷ [])
  unfolding render_tag
  render_tag-plain next plain parts output is le =
      rw (begins_with-printed plain parts is, append_bytes-fits capacity output (b'<' ∷ []) le) refl

  length-printed-lt :
      (part : Part) (parts : List Part)
      → length (part.plain ++ printed parts) < length (printed (part ∷ parts))
  unfolding printed
  length-printed-lt part parts =
      omega (arith, length-append part.key (echo_suffix ++ (part.plain ++ printed parts)))

  -- The rounds that follow, for a text that is shorter.
  abbrev Later : ℕ → Type 0
  Later fuel =
      (plain : Bytes) (parts : List Part) (values : List Bytes) (output : Bytes)
      → length (plain ++ printed parts) < fuel
      → is_plain plain ≡ true
      → AreParts lookup parts values
      → length output + length (plain ++ page parts values) ≤ capacity
      → render_loop lookup capacity fuel (plain ++ printed parts) output
        ≡ some (output ++ (plain ++ page parts values))

  round-directive :
      (fuel : ℕ) (plain : Bytes) (parts : List Part) (values : List Bytes) (output : Bytes)
      → Later fuel
      → length (plain ++ printed parts) < suc fuel
      → contains b'<' plain ≡ false
      → AreParts lookup parts values
      → length output + length (plain ++ page parts values) ≤ capacity
      → render_loop lookup capacity (suc fuel) (plain ++ printed parts) output
        ≡ some (output ++ (plain ++ page parts values))
  unfolding render_loop render_tag printed page
  round-directive fuel plain [] [] output later enough free are le =
      let now : length output + length plain ≤ capacity =
        omega (arith, le, length-append plain (page [] [])) in
      rw
        (
          before-printed plain [] free,
          append_bytes-fits capacity output plain now,
          drop_append plain (printed []),
        )
        (ap (λ x. some (output ++ x)) (sym (append-nil plain)))
  round-directive fuel plain [] (value ∷ values) output later enough free are le = absurd are
  round-directive fuel plain (part ∷ parts) [] output later enough free are le = absurd are
  round-directive fuel plain (part ∷ parts) (value ∷ values) output later enough free (is_part, are)
        le =
      let rest : Bytes = part.plain ++ page parts values in
      let whole : length output + (length plain + (length (escaped value) + length rest))
          ≤ capacity =
        omega (
          arith,
          le,
          length-append plain (escaped value ++ rest),
          length-append (escaped value) rest,
        ) in
      let now : length output + length plain ≤ capacity = omega (arith, whole) in
      let tag : length (output ++ plain) + length (escaped value) ≤ capacity =
        omega (arith, whole, length-append output plain) in
      let room : length ((output ++ plain) ++ escaped value) + length rest ≤ capacity = omega (
        arith,
        whole,
        length-append output plain,
        length-append (output ++ plain) (escaped value),
      ) in
      let shorter : length (part.plain ++ printed parts) < fuel = omega (
        arith,
        enough,
        length-append plain (printed (part ∷ parts)),
        length-printed-lt part parts,
      ) in
      rw
        (
          before-printed plain (part ∷ parts) free,
          append_bytes-fits capacity output plain now,
          drop_append plain (printed (part ∷ parts)),
        )
        (render_tag-printed (render_loop lookup capacity fuel) part parts value (output ++ plain)
            is_part tag
          ∙ later part.plain parts values ((output ++ plain) ++ escaped value) shorter
              is_part.1.1.1.1 are room
          ∙ ap some (
              append_assoc (output ++ plain) (escaped value) rest
              ∙ append_assoc output plain (escaped value ++ rest)))

  round-tag :
      (fuel : ℕ) (front back : Bytes) (parts : List Part) (values : List Bytes) (output : Bytes)
      → Later fuel
      → length ((front ++ (b'<' ∷ back)) ++ printed parts) < suc fuel
      → contains b'<' front ≡ false
      → is_plain (front ++ (b'<' ∷ back)) ≡ true
      → AreParts lookup parts values
      → length output + length ((front ++ (b'<' ∷ back)) ++ page parts values) ≤ capacity
      → render_loop lookup capacity (suc fuel) ((front ++ (b'<' ∷ back)) ++ printed parts) output
        ≡ some (output ++ ((front ++ (b'<' ∷ back)) ++ page parts values))
  unfolding render_loop
  round-tag fuel front back parts values output later enough free is are le =
      let tag : is_plain (b'<' ∷ back) ≡ true = is_plain-append front (b'<' ∷ back) is in
      let rest : Bytes = back ++ page parts values in
      let apart : (front ++ (b'<' ∷ back)) ++ page parts values ≡ front ++ (b'<' ∷ rest) =
        append_assoc front (b'<' ∷ back) (page parts values) in
      let whole : length output + (length front + suc (length rest)) ≤ capacity =
        omega (arith, le, ap length apart, length-append front (b'<' ∷ rest)) in
      let shorter : length (back ++ printed parts) < fuel = omega (
        arith,
        enough,
        ap length (append_assoc front (b'<' ∷ back) (printed parts)),
        length-append front (b'<' ∷ (back ++ printed parts)),
      ) in
      rw
        (
          append_assoc front (b'<' ∷ back) (printed parts),
          before-append b'<' front (back ++ printed parts) free,
          append_bytes-fits capacity output front (omega (arith, whole)),
          drop_append front (b'<' ∷ (back ++ printed parts)),
          apart,
        )
        (render_tag-plain (render_loop lookup capacity fuel) back parts (output ++ front) tag
            (omega (arith, whole, length-append output front))
          ∙ later back parts values ((output ++ front) ++ b'<' ∷ []) shorter (ground (arith, tag))
              are
              (omega (
                arith,
                whole,
                length-append output front,
                length-append (output ++ front) (b'<' ∷ []),
              ))
          ∙ ap some (
              append_assoc (output ++ front) (b'<' ∷ []) rest
              ∙ append_assoc output front (b'<' ∷ rest)))

  render_loop-page : (fuel : ℕ) → Later fuel
  render_loop-page zero plain parts values output enough is are le = absurd (omega (arith, enough))
  render_loop-page (suc fuel) plain parts values output enough is are le =
      elim (Bool-cases (contains b'<' plain)) [
        | inl has ↦
            let (front, (back, (cut, free))) = contains-cut b'<' plain has in
            subst
              (λ p.
                render_loop lookup capacity (suc fuel) (p ++ printed parts) output
                ≡ some (output ++ (p ++ page parts values)))
              (sym cut)
              (round-tag fuel front back parts values output (render_loop-page fuel)
                (subst (λ p. length (p ++ printed parts) < suc fuel) cut enough) free
                (subst (λ p. is_plain p ≡ true) cut is) are
                (subst (λ p. length output + length (p ++ page parts values) ≤ capacity) cut le))
        | inr free ↦
            round-directive fuel plain parts values output (render_loop-page fuel) enough free are
              le
      ]

  -- A template of plain bytes and directives with keys in the table is rendered, if the page fits: each
  -- directive is replaced by the escaped text of its key, and the plain bytes stay, tags included.
  pub render_html-page :
      (plain : Bytes) (parts : List Part) (values : List Bytes)
      → is_plain plain ≡ true
      → AreParts lookup parts values
      → length (plain ++ page parts values) ≤ capacity
      → render_html lookup capacity (plain ++ printed parts) ≡ some (plain ++ page parts values)
  unfolding render_html
  render_html-page plain parts values is are le =
      render_loop-page (suc (length (plain ++ printed parts))) plain parts values [] (omega arith)
        is are (omega (arith, le))
