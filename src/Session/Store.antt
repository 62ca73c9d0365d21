-- ===== src/Session/Store.antt =====
-- src/session.c and include/ankah/session.h: the state.
use ankah.Prelude.{ℕ, ◌*◌, Bool, false, List, [], Option, none, get_or, set, replicate, Bytes}
use ankah.Prelude.Words.{add64}
use ankah.Http.{Request}

-- `saved_request`, `body` and `payload` are set and cleared together: `saved_request` is `none`
-- where they are null. `body` holds the bytes that were written to the buffer of `body_size` bytes.
pub record Session : Type 0 where
  pub host : Bytes
  pub id : Bytes
  pub token : Bytes
  pub challenge : Bytes
  pub target : Bytes
  pub peer_ip : Bytes
  pub issued : ℕ
  pub solved_until : ℕ
  pub body_until : ℕ
  pub saved_request : Option Request
  pub body : Bytes
  pub body_size : ℕ
  pub received : ℕ
  pub active : Bool
  pub is_post : Bool
  pub issued_with_proof : Bool
  pub consumption_pending : Bool

-- memset(session, 0, sizeof(*session))
abbrev pub zeroed : Session
zeroed = record {
  host = [];
  id = [];
  token = [];
  challenge = [];
  target = [];
  peer_ip = [];
  issued = 0;
  solved_until = 0;
  body_until = 0;
  saved_request = none;
  body = [];
  body_size = 0;
  received = 0;
  active = false;
  is_post = false;
  issued_with_proof = false;
  consumption_pending = false;
}

-- The static variables.
pub record Store : Type 0 where
  pub sessions : List Session
  pub pending_bytes : ℕ
  pub mutation : ℕ
  pub queued_mutation : ℕ

abbrev pub max_sessions : ℕ
max_sessions = 4096

abbrev pub max_pending_bytes : ℕ
max_pending_bytes = 64 * 1024 * 1024

abbrev pub post_replay_max : ℕ
post_replay_max = 2 * 1024 * 1024

abbrev pub max_anonymous_unsolved : ℕ
max_anonymous_unsolved = 3072

abbrev pub max_anonymous_unsolved_per_ip : ℕ
max_anonymous_unsolved_per_ip = 64

-- A pointer to a session is its index. No operation is given an index outside the table.
abbrev pub at : Store → ℕ → Session
at st i = get_or st.sessions i zeroed

abbrev pub put : ℕ → Session → Store → Store
put i s st = record st { sessions = set st.sessions i s }

-- ++mutation
abbrev pub touch : Store → Store
touch st = record st { mutation = add64 st.mutation 1 }

-- Before any call, with a table of `n` sessions.
abbrev pub initial : ℕ → Store
initial n = record {
  sessions = replicate n zeroed;
  pending_bytes = 0;
  mutation = 0;
  queued_mutation = 0;
}
