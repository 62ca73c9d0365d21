-- ===== src/Dots/Acl.antt =====
-- src/dots_policy.c, `ankah_dots_acl_body`: the access list that is sent to the upstream filter.
mod Examples
use ankah.Prelude.{
  ap, ap₂, subst, ℕ, zero, suc, ◌+◌, ◌-◌, ◌/◌, ◌%◌, ◌≤◌, ◌<◌, ◌≡◌, refl, sym, ◌∙◌, inl, inr, Bool,
  true, false, not, ◌&&◌, ◌||◌, List, [], ◌∷◌, ◌++◌, Option, none, some, some-injective, ltb, leb,
  ◌==◌, if◌then◌else◌, length, all, Bytes, codes, is_empty, is_digit, arith, Bool-cases,
}
use mathlib.Core.Bool.{beq}
use ankah.Pow.Text.{decimal_digits, decimal}
use ankah.Proxy.Address.{contains, before}
use ankah.Dots.Names.{valid_cuid, is_cuid_byte, is_hex_byte}

abbrev pub is_address_byte : ℕ → Bool
is_address_byte c = is_hex_byte c || c == b'.' || c == b':' || c == b'/'

unfoldable pub address_text : Bytes → Bool
address_text text = not (is_empty text) && all is_address_byte text

-- The format with its arguments, piece by piece.
unfoldable pub joined : List Bytes → Bytes
joined [] = []
joined (piece ∷ pieces) = piece ++ joined pieces

abbrev pub acl_pieces : Bool → Bytes → Bytes → Bytes → ℕ → List Bytes
acl_pieces v6 name ip destination port =
    codes "{\"ietf-dots-data-channel:acls\":{\"acl\":[{\"name\":\""
    ∷ name
    ∷ codes "\",\"type\":\""
    ∷ (if v6 then codes "ipv6-acl-type" else codes "ipv4-acl-type")
    ∷ codes
        "\",\"activation-type\":\"immediate\",\"aces\":{\"ace\":[{\"name\":\"block\",\"matches\":{\""
    ∷ (if v6 then codes "ipv6" else codes "ipv4")
    ∷ codes "\":{\"source-"
    ∷ (if v6 then codes "ipv6" else codes "ipv4")
    ∷ codes "-network\":\""
    ∷ ip
    ∷ codes "/"
    ∷ (if v6 then codes "128" else codes "32")
    ∷ codes "\",\"destination-"
    ∷ (if v6 then codes "ipv6" else codes "ipv4")
    ∷ codes "-network\":\""
    ∷ destination
    ∷ codes
        "\",\"protocol\":6},\"tcp\":{\"destination-port-range-or-operator\":{\"operator\":\"eq\",\"port\":"
    ∷ decimal port
    ∷ codes "}}},\"actions\":{\"forwarding\":\"drop\"}}]}}]}}"
    ∷ []

abbrev pub is_acl_refused : Bytes → Bytes → Bytes → ℕ → Bool
is_acl_refused name ip destination port =
    not (address_text ip)
    || contains b'/' ip
    || not (contains b'/' destination)
    || not (address_text destination)
    || not (beq (contains b':' (before b'/' destination)) (contains b':' ip))
    || port == 0
    || ltb 65535 port
    || not (valid_cuid name)

unfoldable pub acl_body : Bytes → Bytes → Bytes → ℕ → ℕ → Option Bytes
acl_body name ip destination port capacity =
    let written = joined (acl_pieces (contains b':' ip) name ip destination port) in
    if is_acl_refused name ip destination port || leb capacity (length written)
    then none
    else some written

-- How often a byte occurs.
unfoldable pub count : ℕ → Bytes → ℕ
count x [] = 0
count x (c ∷ cs) = if c == x then suc (count x cs) else count x cs

count-append : (x : ℕ) (xs ys : Bytes) → count x (xs ++ ys) ≡ count x xs + count x ys
unfolding count
count-append x [] ys = omega arith
count-append x (c ∷ xs) ys = ground (arith, count-append x xs ys)

count-all :
    (x : ℕ) (p : ℕ → Bool) (text : Bytes) → p x ≡ false → all p text ≡ true → count x text ≡ 0
unfolding count
count-all x p [] no_x h = refl
count-all x p (c ∷ cs) no_x h = elim (Bool-cases (c == x)) [
  | inl same ↦
      let e : c ≡ x = ground arith in
      let holds : p c ≡ true = ground (arith, h) in
      let impossible : true ≡ false = sym holds ∙ ap p e ∙ no_x in
      absurd (ground (arith, impossible))
  | inr other ↦ rw other (count-all x p cs no_x (ground arith))
]

count-decimal_digits : (x n value : ℕ) → is_digit x ≡ false → count x (decimal_digits n value) ≡ 0
unfolding count decimal_digits
count-decimal_digits x zero value no_x = refl
count-decimal_digits x (suc n) value no_x = elim (Bool-cases (ltb value 10)) [
  | inl small ↦ rw small (ground arith)
  | inr large ↦
      let rest : count x (decimal_digits n (value / 10)) ≡ 0 =
        count-decimal_digits x n (value / 10) no_x in
      rw large (
        count-append x (decimal_digits n (value / 10)) ((b'0' + value % 10) ∷ [])
        ∙ ground (arith, rest))
]

unfoldable counts : ℕ → List Bytes → ℕ
counts x [] = 0
counts x (piece ∷ pieces) = count x piece + counts x pieces

count-joined : (x : ℕ) (pieces : List Bytes) → count x (joined pieces) ≡ counts x pieces
unfolding counts joined count
count-joined x [] = refl
count-joined x (piece ∷ pieces) =
    count-append x piece (joined pieces) ∙ ap (λ n. count x piece + n) (count-joined x pieces)

valid_cuid-free :
    (x : ℕ) (name : Bytes) → is_cuid_byte x ≡ false → valid_cuid name ≡ true → count x name ≡ 0
unfolding valid_cuid
valid_cuid-free x name no_x h = count-all x is_cuid_byte name no_x (ground (arith, h))

address_text-free :
    (x : ℕ) (text : Bytes) → is_address_byte x ≡ false → address_text text ≡ true → count x text ≡ 0
unfolding address_text
address_text-free x text no_x h = count-all x is_address_byte text no_x (ground (arith, h))

counts-quotes :
    (v6 : Bool) (name ip destination : Bytes) (port : ℕ)
    → count b'"' name ≡ 0
    → count b'"' ip ≡ 0
    → count b'"' destination ≡ 0
    → counts b'"' (acl_pieces v6 name ip destination port) ≡ 54
unfolding counts count
counts-quotes true name ip destination port a b c =
    omega (arith, a, b, c, count-decimal_digits b'"' 20 port refl)
counts-quotes false name ip destination port a b c =
    omega (arith, a, b, c, count-decimal_digits b'"' 20 port refl)

counts-backslashes :
    (v6 : Bool) (name ip destination : Bytes) (port : ℕ)
    → count b'\\' name ≡ 0
    → count b'\\' ip ≡ 0
    → count b'\\' destination ≡ 0
    → counts b'\\' (acl_pieces v6 name ip destination port) ≡ 0
unfolding counts count
counts-backslashes true name ip destination port a b c =
    omega (arith, a, b, c, count-decimal_digits b'\\' 20 port refl)
counts-backslashes false name ip destination port a b c =
    omega (arith, a, b, c, count-decimal_digits b'\\' 20 port refl)

-- Whatever the name, the addresses and the port are, a body that is made fits with its NUL, has the 54
-- quotes of the format and no backslash: no argument ends its string or adds a member.
pub acl_body-count :
    (name ip destination : Bytes) (port capacity : ℕ) (body : Bytes)
    → acl_body name ip destination port capacity ≡ some body
    → (count b'"' body ≡ 54) × ((count b'\\' body ≡ 0) × (length body < capacity))
unfolding acl_body
acl_body-count name ip destination port capacity body =
    let pieces = acl_pieces (contains b':' ip) name ip destination port in
    elim (Bool-cases
      (is_acl_refused name ip destination port || leb capacity (length (joined pieces)))) [
        | inl refused ↦ rw refused (ground arith)
        | inr accepted ↦ rw accepted (λ e.
            let same : joined pieces ≡ body = some-injective (joined pieces) body e in
            let valid : valid_cuid name ≡ true = ground (arith, accepted) in
            let source : address_text ip ≡ true = ground (arith, accepted) in
            let target : address_text destination ≡ true = ground (arith, accepted) in
            let size : length (joined pieces) < capacity = ground (arith, accepted) in
            (
              sym (ap (count b'"') same)
                  ∙ count-joined b'"' pieces
                  ∙ counts-quotes (contains b':' ip) name ip destination port
                      (valid_cuid-free b'"' name refl valid) (address_text-free b'"' ip refl source)
                      (address_text-free b'"' destination refl target),
              (
                sym (ap (count b'\\') same)
                    ∙ count-joined b'\\' pieces
                    ∙ counts-backslashes (contains b':' ip) name ip destination port
                        (valid_cuid-free b'\\' name refl valid)
                        (address_text-free b'\\' ip refl source)
                        (address_text-free b'\\' destination refl target),
                subst (λ b. length b < capacity) same size,
              ),
            ))
      ]
