-- ===== src/Pow/Text/Fields.antt =====
-- Fields in hexadecimal, and how a text is put together and cut.
use ankah.Prelude.{
  ℕ, zero, suc, ◌*◌, ◌/◌, ◌%◌, ◌<◌, ◌≡◌, refl, sym, ap, ◌∙◌, true, false, ==_iff, [], ◌∷◌, ◌++◌,
  List, some, arith, ◌==◌, length, take, all, All, Bytes, is_digit,
}
use ankah.Prelude.Hex.{is_lower_digit, is_lower_digit-digit_char}
use ankah.Pow.Text.{hex_encode, lower_hex, equal_loop, equal_secret, cut_dot, decimal}
use ankah.Pow.Text.Decimal.{decimal_digits-digits}

abbrev pub AllBytes : List ℕ → Type 0
AllBytes = All (λ b. b < 256)

abbrev pub NoDot : Bytes → Type 0
NoDot = All (λ c. (c == b'.') ≡ false)

All-of {ℓ κ} :
    {A : Type ℓ} {P Q : A → Type κ} → ((a : A) → P a → Q a) → (xs : List A) → All P xs → All Q xs
All-of f [] h = tt
All-of f (x ∷ xs) h = (f x h.0, All-of f xs h.1)

pub cut_dot-append : (xs ys : Bytes) → NoDot xs → cut_dot (xs ++ b'.' ∷ ys) ≡ some (xs, ys)
unfolding cut_dot
cut_dot-append [] ys h = refl
cut_dot-append (x ∷ xs) ys h = ground (arith, h.0, cut_dot-append xs ys h.1)

digit-no_dot : (c : ℕ) → is_digit c ≡ true → (c == b'.') ≡ false
digit-no_dot c h = ground arith

lower_digit-no_dot : (c : ℕ) → is_lower_digit c ≡ true → (c == b'.') ≡ false
lower_digit-no_dot c h = ground arith

pub decimal-NoDot : (v : ℕ) → NoDot (decimal v)
decimal-NoDot v = All-of digit-no_dot (decimal v) (decimal_digits-digits 20 v)

pub length-hex_encode : (bs : List ℕ) → length (hex_encode bs) ≡ 2 * length bs
unfolding hex_encode
length-hex_encode [] = refl
length-hex_encode (b ∷ bs) = omega (arith, length-hex_encode bs)

hex_encode-digits : (bs : List ℕ) → AllBytes bs → All (λ c. is_lower_digit c ≡ true) (hex_encode bs)
unfolding hex_encode
hex_encode-digits [] h = tt
hex_encode-digits (b ∷ bs) h = (
  is_lower_digit-digit_char (b / 16) (omega (arith, h.0)),
  (is_lower_digit-digit_char (b % 16) (omega arith), hex_encode-digits bs h.1),
)

pub hex_encode-NoDot : (bs : List ℕ) → AllBytes bs → NoDot (hex_encode bs)
hex_encode-NoDot bs h = All-of lower_digit-no_dot (hex_encode bs) (hex_encode-digits bs h)

all-take :
    (n : ℕ) (xs : Bytes)
    → All (λ c. is_lower_digit c ≡ true) xs
    → all is_lower_digit (take n xs) ≡ true
all-take zero xs h = refl
all-take (suc n) [] h = refl
all-take (suc n) (x ∷ xs) h = ground (arith, h.0, all-take n xs h.1)

pub lower_hex-hex_encode :
    (bs : List ℕ) (n : ℕ) → AllBytes bs → length bs ≡ n → lower_hex (hex_encode bs) (2 * n) ≡ true
unfolding lower_hex
lower_hex-hex_encode bs n h e =
    let long = (==_iff (length (hex_encode bs)) (2 * n)).1 (omega (arith, length-hex_encode bs)) in
    rw (all-take (2 * n) (hex_encode bs) (hex_encode-digits bs h), long) refl

equal_loop_refl : (xs : Bytes) → equal_loop xs xs true ≡ true
equal_loop_refl [] = refl
equal_loop_refl (x ∷ xs) = ground (arith, equal_loop_refl xs)

pub equal_secret_refl : (xs : Bytes) (n : ℕ) → equal_secret xs xs n ≡ true
unfolding equal_secret
equal_secret_refl xs n = equal_loop_refl (take n xs)

equal_loop-false : (xs ys : Bytes) → equal_loop xs ys false ≡ false
equal_loop-false [] ys = refl
equal_loop-false (x ∷ xs) [] = refl
equal_loop-false (x ∷ xs) (y ∷ ys) = equal_loop-false xs ys

equal_loop_eq : (xs ys : Bytes) → length xs ≡ length ys → equal_loop xs ys true ≡ true → xs ≡ ys
equal_loop_eq [] [] h e = refl
equal_loop_eq [] (y ∷ ys) h e = ground arith
equal_loop_eq (x ∷ xs) [] h e = ground arith
equal_loop_eq (x ∷ xs) (y ∷ ys) h e =
    ground (arith, equal_loop-false xs ys, equal_loop_eq xs ys (omega arith))

take_all : (n : ℕ) (xs : Bytes) → length xs ≡ n → take n xs ≡ xs
take_all zero [] h = refl
take_all zero (x ∷ xs) h = ground arith
take_all (suc n) [] h = ground arith
take_all (suc n) (x ∷ xs) h = ap (◌∷◌ x) (take_all n xs (omega arith))

-- Two texts of the length that is compared are found equal only where they are.
pub equal_secret_eq :
    (xs ys : Bytes) (n : ℕ) → length xs ≡ n → length ys ≡ n → equal_secret xs ys n ≡ true → xs ≡ ys
unfolding equal_secret
equal_secret_eq xs ys n h k =
    rw (take_all n xs h, take_all n ys k) (equal_loop_eq xs ys (h ∙ sym k))
