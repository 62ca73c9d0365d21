-- ===== src/Chunked/Examples.antt =====
-- Chunked bodies on the wire.
use ankah.Prelude.{
  List, ◌≢◌, ◌≡◌, refl, [], ◌∷◌, ◌++◌, map, some, arith, codes, ne_of_str_eq, false, true,
}
use ankah.Chunked.Line.{parse_chunk_size, parse_chunk_trailer}
use ankah.Chunked.Line.Size.{HexDigit, hex_digit, parse_chunk_size-digits}
use ankah.Chunked.{
  Body, init, refused, consumed, consume, loop, round, data_round, byte_round, is_data, amount,
  chunk_data,
}
use ankah.Chunked.Reference.{feed, IsValid}
use ankah.Chunked.Agreement.{Matches, SameOutcome, then_consume, consume-Matches, consume-append}
use ankah.Chunked.Frames.{IsChunk, encode, finished, consume-encode}

-- In the midst of a chunk of 5 bytes, 2 of them read.
abbrev midway : Body
midway = record {
  remaining = 3;
  decoded = 2;
  trailer_size = 0;
  state = chunk_data;
  complete = false;
  limit_exceeded = false;
  line = [];
}

midway-IsValid : IsValid midway
midway-IsValid = record {
  line_fits = omega arith;
  trailer_fits = omega arith;
  data_left = λ e. omega arith;
}

two_chunks :
    consume init (codes "5;a=b\r\nhello\r\n1\r\n!\r\n0\r\nX: y\r\n\r\n") 6
    ≡ consumed (record (finished 6) { trailer_size = 4 }) 6
unfolding consume init loop round data_round byte_round is_data amount parse_chunk_size
    parse_chunk_trailer
two_chunks = refl

past_limit :
    consume init (codes "5\r\nhello\r\n") 4
    ≡ refused (record midway { remaining = 5; decoded = 0; limit_exceeded = true })
unfolding consume init loop round data_round byte_round is_data amount parse_chunk_size
past_limit = refl

forbidden_trailer : parse_chunk_trailer (codes "Content-Length: 3") ≡ false
unfolding parse_chunk_trailer
forbidden_trailer = refl

consume-Matches_example :
    Matches 9 (consume midway (codes "llo\r\n") 9) (feed 9 midway (codes "llo\r\n")) 2
consume-Matches_example = consume-Matches midway (codes "llo\r\n") 9 midway-IsValid refl

consume-append_example :
    SameOutcome
      (consume midway (codes "llo\r\n") 9)
      (then_consume (consume midway (codes "ll") 9) (codes "o\r\n") 9)
consume-append_example =
    consume-append midway (codes "ll") (codes "o\r\n") 9 midway-IsValid refl (ne_of_str_eq _ _ refl)

-- "1F"
abbrev one_f : List HexDigit
one_f = record { digit = 1; upper = false } ∷ record { digit = 15; upper = true } ∷ []

one_f_ne : one_f ≢ []
one_f_ne e = ground arith

parse_chunk_size-digits_example : parse_chunk_size (map hex_digit one_f ++ codes ";ext") ≡ some 31
parse_chunk_size-digits_example =
    parse_chunk_size-digits one_f (codes ";ext") one_f_ne (omega arith) (refl, omega arith)

hello-IsChunk : IsChunk (codes "5") (codes "hello")
unfolding parse_chunk_size
hello-IsChunk = record {
  plain = ((omega arith, omega arith), tt);
  short = omega arith;
  size = refl;
  some_data = omega arith;
}

consume-encode_example :
    consume init (encode ((codes "5", codes "hello") ∷ [])) 8 ≡ consumed (finished 5) 5
consume-encode_example =
    consume-encode ((codes "5", codes "hello") ∷ []) 8 (hello-IsChunk, tt) (omega arith)
