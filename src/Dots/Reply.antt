-- ===== src/Dots/Reply.antt =====
-- src/dots_policy.c: the body that registers a client, and the status line of a reply.
mod Examples
use ankah.Prelude.{
  ℕ, zero, suc, ◌+◌, ◌-◌, ◌*◌, ◌≤◌, ◌<◌, ◌≡◌, refl, ap, ◌∙◌, Bool, true, false, not, ◌&&◌, ◌||◌,
  inl, inr, List, [], ◌∷◌, ◌++◌, Option, none, some, ltb, leb, ◌==◌, if◌then◌else◌, length, drop,
  Bytes, codes, is_empty, is_digit, within, arith, Bool-cases,
}
use ankah.Dots.Names.{valid_cuid, starts_with, begins}

unfoldable pub client_body : Bytes → ℕ → Option Bytes
client_body cuid capacity =
    let written =
      codes "{\"ietf-dots-data-channel:dots-client\":[{\"cuid\":\"" ++ cuid ++ codes "\"}]}" in
    if not (valid_cuid cuid) || leb capacity (length written) then none else some written

-- The digits that are left to read, and what follows the last one.
unfoldable pub status_loop : ℕ → ℕ → Bytes → Option ℕ
status_loop zero status rest =
    if not (is_empty rest) && not (begins b' ' rest) && not (begins b'\r' rest)
    then none
    else some status
status_loop (suc n) status [] = none
status_loop (suc n) status (c ∷ cs) =
    let rest = status_loop n (status * 10 + (c - b'0')) cs in if is_digit c then rest else none

unfoldable pub status : Bytes → Option ℕ
status response =
    if ltb (length response) 12
      || not (starts_with (codes "HTTP/1.") response)
      || not (begins b' ' (drop 8 response))
    then none
    else status_loop 3 0 (drop 9 response)

-- What may follow the status: nothing, a space or a carriage return.
abbrev pub ends_status : Bytes → Bool
ends_status rest = is_empty rest || begins b' ' rest || begins b'\r' rest

status_loop-digit :
    (n acc d : ℕ) (cs : Bytes)
    → d < 10
    → status_loop (suc n) acc ((b'0' + d) ∷ cs) ≡ status_loop n (acc * 10 + d) cs
unfolding status_loop
status_loop-digit n acc d cs lt = ground arith

status_loop-end :
    (acc : ℕ) (rest : Bytes) → ends_status rest ≡ true → status_loop zero acc rest ≡ some acc
unfolding status_loop
status_loop-end acc [] e = refl
status_loop-end acc (c ∷ cs) e = ground arith

status_loop-digits :
    (a b c : ℕ) (rest : Bytes)
    → a < 10
    → b < 10
    → c < 10
    → ends_status rest ≡ true
    → status_loop 3 0 ((b'0' + a) ∷ (b'0' + b) ∷ (b'0' + c) ∷ rest) ≡ some (a * 100 + b * 10 + c)
status_loop-digits a b c rest la lb lc e =
    status_loop-digit 2 0 a ((b'0' + b) ∷ (b'0' + c) ∷ rest) la
    ∙ status_loop-digit 1 (0 * 10 + a) b ((b'0' + c) ∷ rest) lb
    ∙ status_loop-digit 0 ((0 * 10 + a) * 10 + b) c rest lc
    ∙ status_loop-end (((0 * 10 + a) * 10 + b) * 10 + c) rest e
    ∙ ap some (omega arith)

-- A status line of HTTP/1.x with three digits, after which there is nothing, a space or a carriage
-- return, has the number the digits write as its status.
pub status-line :
    (version a b c : ℕ) (rest : Bytes)
    → a < 10
    → b < 10
    → c < 10
    → ends_status rest ≡ true
    → status (codes "HTTP/1." ++ version ∷ b' ' ∷ (b'0' + a) ∷ (b'0' + b) ∷ (b'0' + c) ∷ rest)
      ≡ some (a * 100 + b * 10 + c)
unfolding status
status-line version a b c rest la lb lc e = ground (arith, status_loop-digits a b c rest la lb lc e)
