-- ===== src/Http/Examples.antt =====
-- Two cookies with another header between them.
use ankah.Prelude.{ℕ, ◌≡◌, refl, false, List, [], ◌∷◌, some, ◌>>=◌, Bytes, codes}
use ankah.Http.{Header, Request}
use ankah.Http.Cookies.{
  measured, measure_loop, join_loop, kept_loop, header_is, joined_headers, request_coalesce_cookies,
}
use ankah.Http.Cookies.Kept.{coalesced, request_coalesce_cookies-coalesced}

-- A table that knows no name: every header here is classified.
abbrev no_name : Bytes → ℕ
no_name name = 1

abbrev cookie : Bytes → Header
cookie value = record { name = codes "cookie"; value = value; kind = 12 }

abbrev accept : Header
accept = record { name = codes "accept"; value = codes "*/*"; kind = 1 }

abbrev with_headers : List Header → Request
with_headers headers = record {
  method = codes "GET";
  target = codes "/";
  headers = headers;
  websocket = false;
  has_body = false;
  chunked = false;
  content_length = 0;
}

abbrev split_cookies : Request
split_cookies =
    with_headers (cookie (codes "a=1") ∷ accept ∷ cookie (codes "b=2") ∷ cookie (codes "c=3") ∷ [])

one_cookie :
    request_coalesce_cookies no_name split_cookies
    ≡ some (with_headers (cookie (codes "a=1; b=2; c=3") ∷ accept ∷ []))
unfolding request_coalesce_cookies measure_loop measured join_loop kept_loop joined_headers
    header_is
one_cookie = refl

request_coalesce_cookies-coalesced_example : request_coalesce_cookies no_name split_cookies ≡ (
    coalesced no_name split_cookies.headers >>= λ hs. some (record split_cookies { headers = hs }))
request_coalesce_cookies-coalesced_example =
    request_coalesce_cookies-coalesced no_name split_cookies
