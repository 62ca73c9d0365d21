-- ===== src/Language/Html.antt =====
-- src/language.c: pages with the texts of a language. The output is the list of the bytes written so far; a
-- null output, which only counts them, is the same with `length`.
pub mod Tags
pub mod Template
pub mod Pages
pub mod Escapes
use ankah.Prelude.{
  ℕ, zero, suc, ◌+◌, ◌-◌, ◌<◌, ◌≡◌, Bool, true, false, not, ◌&&◌, ◌||◌, List, [], ◌∷◌, ◌++◌, Option,
  none, some, ◌>>=◌, ltb, leb, ◌==◌, if◌then◌else◌, length, take, drop, Bytes, codes, str_eq,
  is_empty,
}
use ankah.Proxy.Address.{contains, before}

abbrev pub key_size : ℕ
key_size = 64

abbrev pub marker : Bytes
marker = codes "<!--#"

abbrev pub echo_prefix : Bytes
echo_prefix = codes "<!--#echo var=\""

abbrev pub echo_suffix : Bytes
echo_suffix = codes "\" -->"

unfoldable pub append_bytes : ℕ → Bytes → Bytes → Option Bytes
append_bytes capacity output text =
    if ltb (capacity - length output) (length text) then none else some (output ++ text)

unfoldable pub replacement : ℕ → Bytes
replacement c =
    if c == b'&'
    then codes "&amp;"
    else if c == b'<'
    then codes "&lt;"
    else if c == b'>'
    then codes "&gt;"
    else if c == b'"'
    then codes "&quot;"
    else if c == b'\''
    then codes "&#39;"
    else c ∷ []

unfoldable pub append_html : ℕ → Bytes → Bytes → Option Bytes
append_html capacity output [] = some output
append_html capacity output (c ∷ text) =
    append_bytes capacity output (replacement c) >>= λ out. append_html capacity out text

abbrev pub begins_with : Bytes → Bytes → Bool
begins_with beginning text = str_eq (take (length beginning) text) beginning

-- `lookup` is the function argument, for the language. `none` is NULL.
module _ (lookup : Bytes → Option Bytes) (capacity : ℕ) where
  -- The text of the directive that the input begins with, and the input behind it. The key ends at its
  -- first NUL for the lookup.
  unfoldable pub directive : Bytes → Option (Bytes × Bytes)
  directive input =
      let name = drop (length echo_prefix) input in
      let key = before b'"' name in
      let end = drop (length key) name in
      if not (begins_with echo_prefix input)
      then none
      else if not (contains b'"' name) || not (begins_with echo_suffix end)
      then none
      else if is_empty key || leb key_size (length key)
      then none
      else (lookup (before 0 key) >>= λ value. some (value, drop (length echo_suffix) end))

  -- What stands behind the plain bytes of a round; `next` is the rest of the loop.
  unfoldable pub render_tag : (Bytes → Bytes → Option Bytes) → Bytes → Bytes → Option Bytes
  render_tag next [] output = some output
  render_tag next (c ∷ rest) output =
      if begins_with marker (c ∷ rest)
      then (directive (c ∷ rest) >>= λ (value, behind).
          append_html capacity output value >>= λ out. next behind out)
      else (append_bytes capacity output (c ∷ []) >>= λ out. next rest out)

  -- Each round takes a byte at least, so that one round more than there are bytes is enough.
  unfoldable pub render_loop : ℕ → Bytes → Bytes → Option Bytes
  render_loop zero input output = none
  render_loop (suc fuel) input output =
      let plain = before b'<' input in
      append_bytes capacity output plain >>= λ out.
      render_tag (render_loop fuel) (drop (length plain) input) out

  unfoldable pub render_html : Bytes → Option Bytes
  render_html input = render_loop (suc (length input)) input []
