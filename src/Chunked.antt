-- ===== src/Chunked.antt =====
-- src/http.c: the decoder of HTTP/1.1 chunked bodies, `ankah_chunked_body_consume`.
pub mod Line
pub mod Reference
pub mod Agreement
pub mod Frames
mod Examples
use ankah.Prelude.{
  ℕ, zero, suc, ◌+◌, ◌-◌, ◌*◌, ◌/◌, Bool, true, false, not, ◌&&◌, ◌||◌, List, [], ◌∷◌, ◌++◌, Option,
  none, some, ltb, leb, ◌==◌, if◌then◌else◌, length, drop, Bytes, is_empty,
}
use Line.{parse_chunk_size, parse_chunk_trailer}

pub data State : Type 0 where
  chunk_size chunk_size_lf chunk_data chunk_data_cr chunk_data_lf chunk_trailer : State
  chunk_trailer_lf : State

-- `line` holds the first `line_size` bytes of the array.
pub record Body : Type 0 where
  pub remaining : ℕ
  pub decoded : ℕ
  pub trailer_size : ℕ
  pub state : State
  pub complete : Bool
  pub limit_exceeded : Bool
  pub line : Bytes

-- sizeof(body->line)
abbrev pub chunk_line_limit : ℕ
chunk_line_limit = 4096

abbrev pub header_limit : ℕ
header_limit = 16384

pub init : Body
init = record {
  remaining = 0;
  decoded = 0;
  trailer_size = 0;
  state = chunk_size;
  complete = false;
  limit_exceeded = false;
  line = [];
}

-- What one round of the loop does: return -1, or go on with the bytes that are left and the
-- number of decoded bytes that were added.
pub data Round : Type 0 where
  refuse : Body → Round
  go : Body → Bytes → ℕ → Round

-- amount = min(length - offset, remaining)
pub amount : Body → Bytes → ℕ
amount b bytes = if ltb b.remaining (length bytes) then b.remaining else length bytes

-- The round in state CHUNK_DATA, which takes many bytes at once.
pub data_round : ℕ → Body → Bytes → Round
data_round max b bytes =
    let n = amount b bytes in
    if ltb max b.decoded || ltb (max - b.decoded) n
    then refuse (record b { limit_exceeded = true })
    else go
        (record b {
          remaining = b.remaining - n;
          decoded = b.decoded + n;
          state = if b.remaining - n == 0 then chunk_data_cr else chunk_data;
        })
        (drop n bytes) n

-- The round in any other state takes one byte; `rest` is what follows it.
pub byte_round : State → Body → ℕ → Bytes → Round
byte_round chunk_size b byte rest =
    if byte == b'\r'
    then go (record b { state = chunk_size_lf }) rest 0
    else if byte == b'\n' || length b.line == chunk_line_limit - 1
    then refuse b
    else go (record b { line = b.line ++ byte ∷ [] }) rest 0
byte_round chunk_size_lf b byte rest =
    if not (byte == b'\n') then refuse b else elim (parse_chunk_size b.line) [
      | none ↦ refuse b
      | some size ↦
          go
            (record b {
              remaining = size;
              line = [];
              state = if size == 0 then chunk_trailer else chunk_data;
            })
            rest 0
    ]
byte_round chunk_data b byte rest = refuse b
byte_round chunk_data_cr b byte rest =
    if not (byte == b'\r') then refuse b else go (record b { state = chunk_data_lf }) rest 0
byte_round chunk_data_lf b byte rest =
    if not (byte == b'\n') then refuse b else go (record b { state = chunk_size }) rest 0
byte_round chunk_trailer b byte rest =
    if byte == b'\r'
    then go (record b { state = chunk_trailer_lf }) rest 0
    else if byte == b'\n' || length b.line == chunk_line_limit - 1 || b.trailer_size == header_limit
    then refuse b
    else go (record b { line = b.line ++ byte ∷ []; trailer_size = b.trailer_size + 1 }) rest 0
byte_round chunk_trailer_lf b byte rest =
    if not (byte == b'\n')
    then refuse b
    else if is_empty b.line
    then if not (is_empty rest)
      then refuse (record b { complete = true })
      else go (record b { complete = true }) rest 0
    else if parse_chunk_trailer b.line
    then go (record b { line = []; state = chunk_trailer }) rest 0
    else refuse b

pub is_data : State → Bool
is_data chunk_data = true
is_data _ = false

pub round : ℕ → Body → ℕ → Bytes → Round
round max b byte rest =
    if is_data b.state then data_round max b (byte ∷ rest) else byte_round b.state b byte rest

-- `out_of_fuel` is no outcome of the code: `consume` never ends in it (Reference).
pub data Outcome : Type 0 where
  out_of_fuel : Outcome
  refused : Body → Outcome
  consumed : Body → ℕ → Outcome

-- `while (offset < length)`
pub loop : ℕ → ℕ → Body → Bytes → ℕ → Outcome
loop zero max b bytes added = out_of_fuel
loop (suc fuel) max b [] added = consumed b added
loop (suc fuel) max b (byte ∷ rest) added = elim (round max b byte rest) [
  | refuse b' ↦ refused b'
  | go b' rest' n ↦ loop fuel max b' rest' (added + n)
]

-- A round takes a byte, save for one in CHUNK_DATA with nothing remaining.
abbrev pub fuel_for : Bytes → ℕ
fuel_for bytes = 2 + 2 * length bytes

-- -1 is `refused`; 1 and 0 are `consumed`, with the body complete or not.
pub consume : Body → Bytes → ℕ → Outcome
consume b bytes max = if b.complete then refused b else loop (fuel_for bytes) max b bytes 0
