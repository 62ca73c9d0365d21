-- ===== src/Language/Html/Tags.antt =====
-- Text in which no directive begins.
use ankah.Prelude.{
  ℕ, ◌≡◌, refl, ap, inl, inr, Bool, true, false, not, ◌&&◌, [], ◌∷◌, ◌++◌, arith, ◌==◌, take, Bytes,
  codes, str_eq, Bool-cases,
}
use ankah.Proxy.Address.{contains}
use ankah.Language.Html.{marker, begins_with}

-- The text has no `<!--#`.
abbrev pub is_plain : Bytes → Bool
is_plain [] = true
is_plain (c ∷ cs) = not (str_eq (take 5 (c ∷ cs)) (codes "<!--#")) && is_plain cs

pub is_plain-append : (xs ys : Bytes) → is_plain (xs ++ ys) ≡ true → is_plain ys ≡ true
is_plain-append [] ys plain = plain
is_plain-append (c ∷ xs) ys plain = is_plain-append xs ys (ground arith)

-- No directive begins in the midst of what stands before another one.
pub tag-plain :
    (xs rest : Bytes)
    → is_plain (b'<' ∷ xs) ≡ true
    → begins_with marker ((b'<' ∷ xs) ++ (b'<' ∷ rest)) ≡ false
tag-plain [] rest plain = refl
tag-plain (a ∷ []) rest plain = ground arith
tag-plain (a ∷ b ∷ []) rest plain = ground arith
tag-plain (a ∷ b ∷ c ∷ []) rest plain = ground arith
tag-plain (a ∷ b ∷ c ∷ d ∷ xs) rest plain = ground arith

pub tag_at_end : (xs : Bytes) → is_plain (b'<' ∷ xs) ≡ true → begins_with marker (b'<' ∷ xs) ≡ false
tag_at_end xs plain = ground arith

-- A text is cut at its first `x`.
pub contains-cut :
    (x : ℕ) (xs : Bytes)
    → contains x xs ≡ true
    → (front : Bytes) × ((back : Bytes) × ((xs ≡ front ++ (x ∷ back)) × (contains x front ≡ false)))
contains-cut x [] has = ground arith
contains-cut x (c ∷ xs) has = elim (Bool-cases (c == x)) [
  | inl here ↦ let same : c ≡ x = ground arith in ([], (xs, (ap (λ y. y ∷ xs) same, refl)))
  | inr later ↦
      let (front, (back, (cut, free))) = contains-cut x xs (ground arith) in
      (c ∷ front, (back, (ap (λ ys. c ∷ ys) cut, rw later free)))
]
