-- ===== src/Language/Html/Escapes.antt =====
-- A text that is put on a page cannot end an element or an attribute.
use ankah.Prelude.{
  ap₂, ℕ, ◌-◌, ◌≡◌, ◌⊎◌, refl, sym, ◌∙◌, inl, inr, false, ◌||◌, [], ◌∷◌, ◌++◌, some, some-injective,
  arith, ltb, length, Bytes, Bool-cases,
}
use mathlib.Core.List.{append_assoc, append-nil}
use ankah.Proxy.Address.{contains}
use ankah.Language.Html.{append_bytes, append_html}
use ankah.Language.Html.Template.{entity, replacement-entity, escaped}

-- `<`, `>` and the quotes.
abbrev pub IsSpecial : ℕ → Type 0
IsSpecial c = (c ≡ b'<') ⊎ (c ≡ b'>') ⊎ (c ≡ b'"') ⊎ (c ≡ b'\'')

contains_append : (x : ℕ) (xs ys : Bytes) → contains x (xs ++ ys) ≡ (contains x xs || contains x ys)
contains_append x [] ys = refl
contains_append x (c ∷ xs) ys = ground (arith, contains_append x xs ys)

contains-entity : (x c : ℕ) → IsSpecial x → contains x (entity c) ≡ false
contains-entity x c special = ground arith

contains-escaped : (x : ℕ) (text : Bytes) → IsSpecial x → contains x (escaped text) ≡ false
unfolding escaped
contains-escaped x [] special = refl
contains-escaped x (c ∷ text) special =
    contains_append x (entity c) (escaped text)
    ∙ ap₂ ◌||◌ (contains-entity x c special) (contains-escaped x text special)

append_html-some :
    (capacity : ℕ) (output text result : Bytes)
    → append_html capacity output text ≡ some result
    → result ≡ output ++ escaped text
unfolding append_html append_bytes escaped
append_html-some capacity output [] result =
    λ e. sym (some-injective output result e) ∙ sym (append-nil output)
append_html-some capacity output (c ∷ text) result =
    rw (replacement-entity c)
      (elim (Bool-cases (ltb (capacity - length output) (length (entity c)))) [
        | inl long ↦ rw long (ground arith)
        | inr fits ↦ rw fits (λ e.
            append_html-some capacity (output ++ entity c) text result e
            ∙ append_assoc output (entity c) (escaped text))
      ])

-- What is appended for a text has no `<`, no `>` and no quotes, whatever the text is.
pub append_html-IsSpecial :
    (capacity x : ℕ) (output text result : Bytes)
    → IsSpecial x
    → append_html capacity output text ≡ some result
    → (written : Bytes) × ((result ≡ output ++ written) × (contains x written ≡ false))
append_html-IsSpecial capacity x output text result special e = (
  escaped text,
  (append_html-some capacity output text result e, contains-escaped x text special),
)
