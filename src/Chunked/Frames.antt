-- ===== src/Chunked/Frames.antt =====
-- What a well-formed chunked body decodes to.
use mathlib.Core.List.{append_assoc, append-nil}
use ankah.Prelude.{
  ℕ, ◌+◌, ◌-◌, ◌≤◌, ◌<◌, ◌≡◌, refl, ap, ap₂, sym, ◌∙◌, ◌≢◌, true, false, List, [], ◌∷◌, ◌++◌, some,
  some-injective, arith, length, length-append, drop_append, Bytes, if◌then◌else◌, ◌==◌, All,
}
use ankah.Chunked.Line.{parse_chunk_size}
use ankah.Chunked.{
  State, chunk_size, chunk_size_lf, chunk_data, chunk_data_cr, chunk_data_lf, chunk_trailer,
  chunk_trailer_lf, Body, init, go, byte_round, is_data, Outcome, out_of_fuel, refused, consumed,
  consume, chunk_line_limit,
}
use ankah.Chunked.Reference.{feed, take_byte-framing, feed_cons, feed-data, IsValid, body_of}
use ankah.Chunked.Agreement.{Matches, consume-Matches}

-- A size line that names the length of the payload, which is not empty.
pub record IsChunk (line payload : Bytes) : Type 0 where
  pub plain : All (λ c. (c ≢ b'\r') × (c ≢ b'\n')) line
  pub short : length line ≤ chunk_line_limit - 1
  pub size : parse_chunk_size line ≡ some (length payload)
  pub some_data : 0 < length payload

abbrev pub crlf : Bytes → Bytes
crlf rest = b'\r' ∷ b'\n' ∷ rest

-- The wire form of a list of chunks, given by their size lines and payloads.
abbrev pub encode : List (Bytes × Bytes) → Bytes
encode [] = b'0' ∷ crlf (crlf [])
encode ((line, payload) ∷ cs) = line ++ crlf (payload ++ crlf (encode cs))

abbrev pub total : List (Bytes × Bytes) → ℕ
total [] = 0
total ((line, payload) ∷ cs) = length payload + total cs

abbrev pub AllChunks : List (Bytes × Bytes) → Type 0
AllChunks [] = Unit
AllChunks ((line, payload) ∷ cs) = IsChunk line payload × AllChunks cs

-- A body in mid-stream.
abbrev at : State → ℕ → ℕ → Bytes → Body
at state remaining decoded line = record {
  remaining = remaining;
  decoded = decoded;
  trailer_size = 0;
  state = state;
  complete = false;
  limit_exceeded = false;
  line = line;
}

-- The complete body after `n` bytes of data.
abbrev pub finished : ℕ → Body
finished n = record (at chunk_trailer_lf 0 n []) { complete = true }

module _ (max : ℕ) where
  take_framing :
      (b b' : Body) (x : ℕ) (rest : Bytes) (s : State)
      → b.state ≡ s
      → is_data s ≡ false
      → b.complete ≡ false
      → byte_round s b x [] ≡ go b' [] 0
      → feed max b (x ∷ rest) ≡ feed max b' rest
  take_framing b b' x rest s e d c r =
      feed_cons max b b' x rest (take_byte-framing max b x s e d c ∙ ap body_of r)

  feed_line :
      (line seen rest : Bytes) (r n : ℕ)
      → All (λ c. (c ≢ b'\r') × (c ≢ b'\n')) line
      → length seen + length line ≤ chunk_line_limit - 1
      → feed max (at chunk_size r n seen) (line ++ rest)
        ≡ feed max (at chunk_size r n (seen ++ line)) rest
  unfolding byte_round is_data
  feed_line [] seen rest r n h k =
      ap (λ l. feed max (at chunk_size r n l) rest) (sym (append-nil seen))
  feed_line (c ∷ line) seen rest r n h k =
      take_framing (at chunk_size r n seen) (at chunk_size r n (seen ++ c ∷ [])) c (line ++ rest)
        chunk_size refl refl refl (ground arith)
      ∙ feed_line line (seen ++ c ∷ []) rest r n h.1 (omega (arith, length-append seen (c ∷ [])))
      ∙ ap (λ l. feed max (at chunk_size r n l) rest) (append_assoc seen (c ∷ []) line)

  feed_size :
      (line rest : Bytes) (r n size : ℕ)
      → parse_chunk_size line ≡ some size
      → feed max (at chunk_size r n line) (crlf rest)
        ≡ feed max (at (if size == 0 then chunk_trailer else chunk_data) size n []) rest
  unfolding byte_round is_data
  feed_size line rest r n size e =
      take_framing (at chunk_size r n line) (at chunk_size_lf r n line) b'\r' (b'\n' ∷ rest)
        chunk_size refl refl refl refl
      ∙ take_framing (at chunk_size_lf r n line) _ b'\n' rest chunk_size_lf refl refl refl
          (ground arith)

  feed_payload :
      (payload rest : Bytes) (n : ℕ)
      → 0 < length payload
      → n + length payload ≤ max
      → feed max (at chunk_data (length payload) n []) (payload ++ crlf rest)
        ≡ feed max (at chunk_size 0 (n + length payload) []) rest
  unfolding byte_round is_data
  feed_payload payload rest n h k =
      feed-data (length payload) max (at chunk_data (length payload) n []) (payload ++ crlf rest)
        refl refl h (omega arith) (omega (arith, length-append payload (crlf rest))) k
      ∙ ap₂ (feed max) (ground arith) (drop_append payload (crlf rest))
      ∙ take_framing (at chunk_data_cr 0 (n + length payload) [])
          (at chunk_data_lf 0 (n + length payload) []) b'\r' (b'\n' ∷ rest) chunk_data_cr refl refl
          refl refl
      ∙ take_framing (at chunk_data_lf 0 (n + length payload) [])
          (at chunk_size 0 (n + length payload) []) b'\n' rest chunk_data_lf refl refl refl refl

  feed_chunk :
      (line payload rest : Bytes) (n : ℕ)
      → IsChunk line payload
      → n + length payload ≤ max
      → feed max (at chunk_size 0 n []) (line ++ crlf (payload ++ crlf rest))
        ≡ feed max (at chunk_size 0 (n + length payload) []) rest
  feed_chunk line payload rest n c k =
      feed_line line [] (crlf (payload ++ crlf rest)) 0 n c.plain (omega (arith, c.short))
      ∙ feed_size line (payload ++ crlf rest) 0 n (length payload) c.size
      ∙ ap (λ s. feed max (at s (length payload) n []) (payload ++ crlf rest))
          (ground (arith, c.some_data))
      ∙ feed_payload payload rest n c.some_data k

  feed_end : (n : ℕ) → feed max (at chunk_size 0 n []) (encode []) ≡ some (finished n)
  unfolding byte_round is_data feed parse_chunk_size
  feed_end n =
      feed_line (b'0' ∷ []) [] (crlf (crlf [])) 0 n ((omega arith, omega arith), tt) (omega arith)
      ∙ feed_size (b'0' ∷ []) (crlf []) 0 n 0 refl
      ∙ take_framing (at chunk_trailer 0 n []) (at chunk_trailer_lf 0 n []) b'\r' (b'\n' ∷ [])
          chunk_trailer refl refl refl refl
      ∙ take_framing (at chunk_trailer_lf 0 n []) (finished n) b'\n' [] chunk_trailer_lf refl refl
          refl refl

  feed-encode :
      (cs : List (Bytes × Bytes)) (n : ℕ)
      → AllChunks cs
      → n + total cs ≤ max
      → feed max (at chunk_size 0 n []) (encode cs) ≡ some (finished (n + total cs))
  feed-encode [] n h k = feed_end n ∙ ap (λ m. some (finished m)) (omega arith)
  feed-encode ((line, payload) ∷ cs) n h k =
      feed_chunk line payload (encode cs) n h.0 (omega arith)
      ∙ feed-encode cs (n + length payload) h.1 (omega arith)
      ∙ ap (λ m. some (finished m)) (omega arith)

Matches-consumed :
    (max start : ℕ) (r : Outcome) (b : Body)
    → Matches max r (some b) start
    → r ≡ consumed b (b.decoded - start)
Matches-consumed max start out_of_fuel b h = absurd h
Matches-consumed max start (refused b') b h = cc
Matches-consumed max start (consumed b' n) b h = ground (arith, some-injective b b' h.0)

init-IsValid : IsValid init
unfolding init
init-IsValid = record { line_fits = omega arith; trailer_fits = omega arith; data_left = λ e. cc e }

-- A well-formed body of any number of chunks is consumed whole, is complete, and decodes to as many
-- bytes as its payloads hold, if they are within the limit.
pub consume-encode :
    (cs : List (Bytes × Bytes)) (max : ℕ)
    → AllChunks cs
    → total cs ≤ max
    → consume init (encode cs) max ≡ consumed (finished (total cs)) (total cs)
unfolding init
consume-encode cs max h k =
    let fed : feed max init (encode cs) ≡ some (finished (total cs)) =
      feed-encode max cs 0 h (omega arith) ∙ ap (λ m. some (finished m)) (omega arith) in
    Matches-consumed max 0 (consume init (encode cs) max) (finished (total cs))
      (rw fed at (consume-Matches init (encode cs) max init-IsValid refl))
    ∙ ap (consumed (finished (total cs))) (omega arith)
