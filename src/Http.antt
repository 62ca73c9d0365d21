-- ===== src/Http.antt =====
-- include/ankah/http.h: a parsed request, as the other parts read it.
pub mod Cookies
mod Examples
use ankah.Prelude.{ℕ, ◌+◌, ◌*◌, Bool, List, Bytes}

-- `kind` is the cached class of the name, a number of src/header_names.h.
pub record Header : Type 0 where
  pub name : Bytes
  pub value : Bytes
  pub kind : ℕ

-- `headers` holds the first `count` elements of the array.
pub record Request : Type 0 where
  pub method : Bytes
  pub target : Bytes
  pub headers : List Header
  pub websocket : Bool
  pub has_body : Bool
  pub chunked : Bool
  pub content_length : ℕ

abbrev pub max_headers : ℕ
max_headers = 64

abbrev pub max_field : ℕ
max_field = 128

abbrev pub max_value : ℕ
max_value = 4096

abbrev pub max_target : ℕ
max_target = 2048

-- sizeof(ankah_request) on an LP64 target: the method, the target, 64 headers of 128 + 4096 + 1
-- bytes, four ints and a size_t.
abbrev pub request_size : ℕ
request_size = 16 + max_target + max_headers * (max_field + max_value + 1) + 4 * 4 + 8
