-- ===== src/Chunked/Reference.antt =====
-- The decoder against a machine that takes one byte at a time.
use native.Mathlib.Decide.{dec_le}
use ankah.Prelude.{
  ℕ, zero, suc, ◌+◌, ◌-◌, ◌≤◌, ◌<◌, ◌≡◌, refl, ap, ◌∙◌, ◌⊎◌, inl, inr, true, false, ◌||◌, [], ◌∷◌,
  Option, none, some, arith, ltb, leb, ◌==◌, if◌then◌else◌, length, length-append, length-drop,
  drop, Bytes, Bool-cases, Option-cases,
}
use ankah.Chunked.{
  State, chunk_size, chunk_size_lf, chunk_data, chunk_data_cr, chunk_data_lf, chunk_trailer,
  chunk_trailer_lf, Body, Round, refuse, go, amount, data_round, byte_round, is_data, round,
  chunk_line_limit, header_limit,
}

-- What a round makes of the body, where it does not return -1.
abbrev pub body_of : Round → Option Body
body_of (refuse b) = none
body_of (go b rest n) = some b

-- One byte of data.
pub data_byte : ℕ → Body → Option Body
data_byte max b =
    if leb max b.decoded
    then none
    else some (record b {
      remaining = b.remaining - 1;
      decoded = b.decoded + 1;
      state = if b.remaining == 1 then chunk_data_cr else chunk_data;
    })

-- One byte, of data or of the framing. Nothing may follow a complete body.
pub take_byte : ℕ → Body → ℕ → Option Body
unfolding data_byte
take_byte max b byte =
    if b.complete
    then none
    else if is_data b.state
    then data_byte max b
    else body_of (byte_round b.state b byte [])

unfoldable pub feed : ℕ → Body → Bytes → Option Body
feed max b [] = some b
feed max b (byte ∷ rest) = elim (take_byte max b byte) [ none ↦ none | some b' ↦ feed max b' rest ]

-- What holds of a body between rounds.
pub record IsValid (b : Body) : Type 0 where
  pub line_fits : length b.line ≤ chunk_line_limit - 1
  pub trailer_fits : b.trailer_size ≤ header_limit
  pub data_left : b.state ≡ chunk_data → 0 < b.remaining

-- The body after n bytes of data.
abbrev pub advanced : Body → ℕ → Body
advanced b n = record b {
  remaining = b.remaining - n;
  decoded = b.decoded + n;
  state = if b.remaining - n == 0 then chunk_data_cr else chunk_data;
}

take_byte-data :
    (max : ℕ) (b : Body) (x : ℕ)
    → b.state ≡ chunk_data
    → b.complete ≡ false
    → 0 < b.remaining
    → b.decoded < max
    → take_byte max b x ≡ some (advanced b 1)
unfolding take_byte is_data
take_byte-data max b x s c r h = ground arith

take_byte-data_none :
    (max : ℕ) (b : Body) (x : ℕ)
    → b.state ≡ chunk_data
    → b.complete ≡ false
    → max ≤ b.decoded
    → take_byte max b x ≡ none
unfolding take_byte is_data
take_byte-data_none max b x s c h = ground arith

pub feed_cons :
    (max : ℕ) (b b' : Body) (x : ℕ) (xs : Bytes)
    → take_byte max b x ≡ some b'
    → feed max b (x ∷ xs) ≡ feed max b' xs
unfolding feed
feed_cons max b b' x xs e = rw (e, feed)

pub feed_cons_none :
    (max : ℕ) (b : Body) (x : ℕ) (xs : Bytes)
    → take_byte max b x ≡ none
    → feed max b (x ∷ xs) ≡ none
unfolding feed
feed_cons_none max b x xs e = rw (e, feed)

-- The bytes of a chunk one at a time, where none passes the limit.
pub feed-data :
    (n max : ℕ) (b : Body) (bytes : Bytes)
    → b.state ≡ chunk_data
    → b.complete ≡ false
    → 0 < b.remaining
    → n ≤ b.remaining
    → n ≤ length bytes
    → b.decoded + n ≤ max
    → feed max b bytes ≡ feed max (advanced b n) (drop n bytes)
feed-data zero max b bytes s c r h k m = ap (λ x. feed max x bytes) (ground arith)
feed-data (suc n) max b [] s c r h k m = absurd (omega arith)
feed-data (suc zero) max b (x ∷ xs) s c r h k m =
    feed_cons max b (advanced b 1) x xs (take_byte-data max b x s c (omega arith) (omega arith))
feed-data (suc (suc n)) max b (x ∷ xs) s c r h k m =
    feed_cons max b (advanced b 1) x xs (take_byte-data max b x s c (omega arith) (omega arith))
    ∙ feed-data (suc n) max (advanced b 1) xs (ground arith) c (omega arith) (omega arith)
        (omega arith) (omega arith)
    ∙ ap (λ y. feed max y (drop (suc n) xs)) (ground arith)

-- Where the limit falls within the bytes that are there, they are refused.
feed-data_none :
    (xs : Bytes) (n max : ℕ) (b : Body) (x : ℕ)
    → b.state ≡ chunk_data
    → b.complete ≡ false
    → n ≤ b.remaining
    → n ≤ length (x ∷ xs)
    → max < b.decoded + n
    → feed max b (x ∷ xs) ≡ none
feed-data_none [] n max b x s c h k m =
    feed_cons_none max b x [] (take_byte-data_none max b x s c (omega arith))
feed-data_none (y ∷ xs) n max b x s c h k m = elim (dec_le max b.decoded) [
  | yes full ↦ feed_cons_none max b x (y ∷ xs) (take_byte-data_none max b x s c full)
  | no room ↦
      feed_cons max b (advanced b 1) x (y ∷ xs)
        (take_byte-data max b x s c (omega arith) (omega arith))
      ∙ feed-data_none xs (n - 1) max (advanced b 1) y (ground arith) c (omega arith) (omega arith)
          (omega arith)
]

-- What a round that goes on has done.
pub record Went (max : ℕ) (b : Body) (x : ℕ) (rest : Bytes) (b' : Body) (rest' : Bytes) (n : ℕ)
    : Type 0 where
  pub fed : feed max b (x ∷ rest) ≡ feed max b' rest'
  pub valid : IsValid b'
  pub shorter : length rest' ≤ length rest
  pub counted : b'.decoded ≡ b.decoded + n
  pub limited : b.decoded ≤ max → b'.decoded ≤ max
  pub last : (b'.complete ≡ false) ⊎ (rest' ≡ [])

abbrev pub RoundFact : ℕ → Body → ℕ → Bytes → Round → Type 0
RoundFact max b x rest (refuse b') = feed max b (x ∷ rest) ≡ none
RoundFact max b x rest (go b' rest' n) = Went max b x rest b' rest' n

amount_bounds :
    (b : Body) (bytes : Bytes)
    → (amount b bytes ≤ b.remaining)
      × (amount b bytes ≤ length bytes)
      × (0 < b.remaining → 0 < length bytes → 0 < amount b bytes)
unfolding amount
amount_bounds b bytes = ground arith

data_round-fact :
    (max : ℕ) (b : Body) (x : ℕ) (rest : Bytes)
    → IsValid b
    → b.complete ≡ false
    → b.state ≡ chunk_data
    → RoundFact max b x rest (data_round max b (x ∷ rest))
unfolding data_round
data_round-fact max b x rest v c s =
    let n = amount b (x ∷ rest) in
    let bounds = amount_bounds b (x ∷ rest) in
    elim (Bool-cases (ltb max b.decoded || ltb (max - b.decoded) n)) [
      | inl past ↦ rw past (feed-data_none rest n max b x s c bounds.0 bounds.1 (ground arith))
      | inr fits ↦ rw fits (record {
        fed = feed-data n max b (x ∷ rest) s c (v.data_left s) bounds.0 bounds.1 (ground arith);
        valid = ground arith;
        shorter = omega (arith, length-drop n (x ∷ rest), bounds.2 (v.data_left s));
        counted = refl;
        limited = ground arith;
        last = inl c;
      })
    ]

abbrev pub and_then : Option Body → (Body → Option Body) → Option Body
and_then none f = none
and_then (some b) f = f b

pub take_byte-framing :
    (max : ℕ) (b : Body) (x : ℕ) (s : State)
    → b.state ≡ s
    → is_data s ≡ false
    → b.complete ≡ false
    → take_byte max b x ≡ body_of (byte_round s b x [])
unfolding take_byte
take_byte-framing max b x s e d c = simp (c, e, d)

feed_framing :
    (max : ℕ) (b : Body) (x : ℕ) (rest : Bytes) (s : State)
    → b.state ≡ s
    → is_data s ≡ false
    → b.complete ≡ false
    → feed max b (x ∷ rest) ≡ and_then (body_of (byte_round s b x [])) (λ b'. feed max b' rest)
unfolding feed
feed_framing max b x rest s e d c = elim (Option-cases (take_byte max b x)) [
  | inl none_left ↦
      feed_cons_none max b x rest none_left ∙ rw (← take_byte-framing max b x s e d c, none_left)
  | inr (b', taken) ↦
      feed_cons max b b' x rest taken ∙ rw (← take_byte-framing max b x s e d c, taken)
]

pub feed_complete :
    (max : ℕ) (b : Body) (x : ℕ) (rest : Bytes) → b.complete ≡ true → feed max b (x ∷ rest) ≡ none
unfolding take_byte
feed_complete max b x rest c = feed_cons_none max b x rest (rw c)

byte_round-fact :
    (s : State) (max : ℕ) (b : Body) (x : ℕ) (rest : Bytes)
    → IsValid b
    → b.complete ≡ false
    → b.state ≡ s
    → is_data s ≡ false
    → RoundFact max b x rest (byte_round s b x rest)
unfolding byte_round is_data
byte_round-fact chunk_size max b x rest v c s d =
    ground (arith, feed_framing max b x rest chunk_size s refl c, length-append b.line (x ∷ []))
byte_round-fact chunk_size_lf max b x rest v c s d =
    ground (arith, feed_framing max b x rest chunk_size_lf s refl c)
byte_round-fact chunk_data max b x rest v c s d = cc d
byte_round-fact chunk_data_cr max b x rest v c s d =
    ground (arith, feed_framing max b x rest chunk_data_cr s refl c)
byte_round-fact chunk_data_lf max b x rest v c s d =
    ground (arith, feed_framing max b x rest chunk_data_lf s refl c)
byte_round-fact chunk_trailer max b x rest v c s d =
    ground (arith, feed_framing max b x rest chunk_trailer s refl c, length-append b.line (x ∷ []))
byte_round-fact chunk_trailer_lf max b x [] v c s d =
    ground (arith, feed_framing max b x [] chunk_trailer_lf s refl c)
byte_round-fact chunk_trailer_lf max b x (y ∷ rest) v c s d = ground (
  arith,
  feed_framing max b x (y ∷ rest) chunk_trailer_lf s refl c,
  feed_complete max (record b { complete = true }) y rest,
)

is_data-true : (s : State) → is_data s ≡ true → s ≡ chunk_data
unfolding is_data
is_data-true chunk_data h = refl
is_data-true _ h = cc

-- Each round does to the body what the bytes that it takes do one at a time.
pub round-fact :
    (max : ℕ) (b : Body) (x : ℕ) (rest : Bytes)
    → IsValid b
    → b.complete ≡ false
    → RoundFact max b x rest (round max b x rest)
unfolding round
round-fact max b x rest v c = elim (Bool-cases (is_data b.state)) [
  | inl d ↦ rw d (data_round-fact max b x rest v c (is_data-true b.state d))
  | inr d ↦ rw d (byte_round-fact b.state max b x rest v c refl d)
]
