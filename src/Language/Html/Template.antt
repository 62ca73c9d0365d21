-- ===== src/Language/Html/Template.antt =====
-- Templates and the pages that are to be made of them.
use mathlib.Core.List.{append_assoc, append-nil}
use ankah.Prelude.{
  ap, ℕ, ◌+◌, ◌-◌, ◌≤◌, ◌<◌, ◌≡◌, refl, sym, ◌∙◌, true, false, List, [], ◌∷◌, ◌++◌, Option, some,
  arith, ltb, ◌==◌, if◌then◌else◌, codes, length, length-append, drop, Bytes,
}
use ankah.Proxy.Address.{contains, before}
use ankah.Language.Html.Tags.{is_plain, tag-plain, tag_at_end}
use ankah.Language.Html.{
  marker, begins_with, echo_prefix, echo_suffix, append_bytes, replacement, append_html,
}

-- What stands for a byte on a page: an entity, or the byte itself.
abbrev pub entity : ℕ → Bytes
entity c =
    if c == b'\''
    then codes "&#39;"
    else if c == b'"'
    then codes "&quot;"
    else if c == b'&'
    then codes "&amp;"
    else if c == b'>'
    then codes "&gt;"
    else if c == b'<'
    then codes "&lt;"
    else c ∷ []

pub replacement-entity : (c : ℕ) → replacement c ≡ entity c
unfolding replacement
replacement-entity c = ground arith

unfoldable pub escaped : Bytes → Bytes
escaped [] = []
escaped (c ∷ text) = entity c ++ escaped text

-- A directive and the plain bytes behind it.
pub record Part : Type 0 where
  pub key : Bytes
  pub plain : Bytes

unfoldable pub printed : List Part → Bytes
printed [] = []
printed (part ∷ parts) =
    codes "<!--#echo var=\"" ++ (part.key ++ (codes "\" -->" ++ (part.plain ++ printed parts)))

module _ (lookup : Bytes → Option Bytes) where
  -- The keys are in the table, have 1 to 63 bytes and no quote, and the plain bytes have no `<!--#`.
  abbrev pub IsPart : Part → Bytes → Type 0
  IsPart part value =
      (lookup (before 0 part.key) ≡ some value)
      × ((contains b'"' part.key ≡ false)
          × ((0 < length part.key) × ((length part.key < 64) × (is_plain part.plain ≡ true))))

  -- The parts with their values.
  abbrev pub AreParts : List Part → List Bytes → Type 0
  AreParts [] [] = Unit {0}
  AreParts [] (value ∷ values) = ⊥
  AreParts (part ∷ parts) [] = ⊥
  AreParts (part ∷ parts) (value ∷ values) = IsPart part value × AreParts parts values

unfoldable pub page : List Part → List Bytes → Bytes
page [] values = []
page (part ∷ parts) [] = []
page (part ∷ parts) (value ∷ values) = escaped value ++ (part.plain ++ page parts values)

pub append_bytes-fits :
    (capacity : ℕ) (output text : Bytes)
    → length output + length text ≤ capacity
    → append_bytes capacity output text ≡ some (output ++ text)
unfolding append_bytes
append_bytes-fits capacity output text le =
    let room : ltb (capacity - length output) (length text) ≡ false = ground arith in rw room refl

pub append_html-escaped :
    (capacity : ℕ) (output text : Bytes)
    → length output + length (escaped text) ≤ capacity
    → append_html capacity output text ≡ some (output ++ escaped text)
unfolding append_html escaped
append_html-escaped capacity output [] le = ap some (sym (append-nil output))
append_html-escaped capacity output (c ∷ text) le =
    let first : length output + length (entity c) ≤ capacity =
      omega (arith, le, length-append (entity c) (escaped text)) in
    let more : length (output ++ entity c) + length (escaped text) ≤ capacity =
      omega (arith, le, length-append (entity c) (escaped text), length-append output (entity c)) in
    rw (replacement-entity c, append_bytes-fits capacity output (entity c) first)
      (append_html-escaped capacity (output ++ entity c) text more
        ∙ ap some (append_assoc output (entity c) (escaped text)))

pub before-append : (x : ℕ) (xs ys : Bytes) → contains x xs ≡ false → before x (xs ++ (x ∷ ys)) ≡ xs
unfolding before
before-append x [] ys free = ground arith
before-append x (c ∷ xs) ys free =
    let other : (c == x) ≡ false = ground arith in
    let more : contains x xs ≡ false = ground arith in
    rw other (ap (λ rest. c ∷ rest) (before-append x xs ys more))

pub before-all : (x : ℕ) (xs : Bytes) → contains x xs ≡ false → before x xs ≡ xs
unfolding before
before-all x [] free = refl
before-all x (c ∷ xs) free =
    let other : (c == x) ≡ false = ground arith in
    let more : contains x xs ≡ false = ground arith in
    rw other (ap (λ rest. c ∷ rest) (before-all x xs more))

pub contains-append : (x : ℕ) (xs ys : Bytes) → contains x (xs ++ (x ∷ ys)) ≡ true
contains-append x [] ys = ground arith
contains-append x (c ∷ xs) ys = ground (arith, contains-append x xs ys)

pub before-printed :
    (plain : Bytes) (parts : List Part)
    → contains b'<' plain ≡ false
    → before b'<' (plain ++ printed parts) ≡ plain
unfolding printed
before-printed plain [] free = ap (before b'<') (append-nil plain) ∙ before-all b'<' plain free
before-printed plain (part ∷ parts) free =
    before-append b'<' plain
      (drop 1 echo_prefix ++ (part.key ++ (echo_suffix ++ (part.plain ++ printed parts)))) free

pub begins_with-printed :
    (plain : Bytes) (parts : List Part)
    → is_plain (b'<' ∷ plain) ≡ true
    → begins_with marker ((b'<' ∷ plain) ++ printed parts) ≡ false
unfolding printed
begins_with-printed plain [] is = rw (append-nil plain) (tag_at_end plain is)
begins_with-printed plain (part ∷ parts) is = tag-plain plain _ is
