-- ===== src/Abuse.antt =====
-- src/abuse_policy.c: counts the offences of each address, and says when one is to be reported.
pub mod Paths
pub mod Signal
pub mod Measure
pub mod Offence
pub mod Upkeep
mod Examples
use Prim.Native.Nat.{bit_and, bit_or, bit_xor}
use mathlib.Core.Option
use ankah.Prelude.{
  ℕ, zero, suc, ◌+◌, ◌-◌, ◌*◌, ◌/◌, ◌%◌, ◌^◌, Bool, true, false, not, ◌&&◌, ◌||◌, List, [], ◌∷◌,
  ◌++◌, Option, none, some, ◌>>=◌, ltb, leb, ◌==◌, if◌then◌else◌, length, drop, get_or, keep_if,
  set, replicate, Bytes, str_eq, is_empty,
}
use ankah.Prelude.Words.{add64}
use ankah.Slots.{choose, index, entry_at}

pub data Profile : Type 0 where
  off conservative strict : Profile

-- The model has no event beyond the last, which the function ignores.
pub data Event : Type 0 where
  invalid_proof client_rate scan body_stall : Event

abbrev pub is_scan : Event → Bool
is_scan invalid_proof = false
is_scan client_rate = false
is_scan scan = true
is_scan body_stall = false

abbrev pub same_event : Event → Event → Bool
same_event invalid_proof invalid_proof = true
same_event client_rate client_rate = true
same_event scan scan = true
same_event body_stall body_stall = true
same_event _ _ = false

-- An array with an element for each event.
abbrev pub update {ℓ} : {A : Type ℓ} → (Event → A) → Event → A → Event → A
update f e v e' = if same_event e e' then v else f e'

abbrev pub capacity : ℕ
capacity = 4096

abbrev pub max_times : ℕ
max_times = 40

abbrev pub second : ℕ
second = 1000000000

-- The lists hold the first `count` elements of the arrays of times and of hashes.
pub record Entry : Type 0 where
  pub ip : Bytes
  pub seen_ns : ℕ
  pub signal_ns : ℕ
  pub times : Event → List ℕ
  pub path_hashes : List ℕ
  pub paths : List ℕ
  pub signaled : Bool

pub record Policy : Type 0 where
  pub entries : List Entry
  pub profile : Profile
  pub signals : Event → ℕ

abbrev pub no_paths : List ℕ
no_paths = 0 ∷ 0 ∷ 0 ∷ 0 ∷ []

abbrev pub blank : Bytes → Entry
blank ip = record {
  ip = ip;
  seen_ns = 0;
  signal_ns = 0;
  times = λ e. [];
  path_hashes = [];
  paths = no_paths;
  signaled = false;
}

unfoldable pub abuse_create : Policy
abuse_create = record {
  entries = replicate capacity (blank []);
  profile = conservative;
  signals = λ e. 0;
}

pub abuse_set_profile : Policy → Profile → Policy
abuse_set_profile policy profile = record policy { profile = profile }

pub abuse_signal_count : Policy → Event → ℕ
abuse_signal_count policy event = policy.signals event

-- `while (value) { value &= value - 1; ++count; }`; `none` is no outcome of the code (Paths).
unfoldable pub bits_loop : ℕ → ℕ → ℕ → Option ℕ
bits_loop zero value count = none
bits_loop (suc fuel) value count = elim (value == 0) [
  | true ↦ some count
  | false ↦ bits_loop fuel (bit_and value (value - 1)) (suc count)
]

-- The digits 1 of all words, counted on from `count`. A word has 64 digits.
unfoldable pub path_bits : List ℕ → ℕ → Option ℕ
path_bits [] count = some count
path_bits (value ∷ values) count = bits_loop 65 value count >>= λ count. path_bits values count

-- `hash` ends up below 2 ^ 32, and `& 255` takes the lowest eight digits.
unfoldable pub hash_loop : ℕ → Bytes → ℕ
hash_loop hash [] = hash
hash_loop hash (c ∷ cs) =
    let rest = hash_loop (bit_xor hash c * 16777619 % 2 ^ 32) cs in if c == b'?' then hash else rest

unfoldable pub hash_path : Bytes → ℕ
hash_path path = let hash = hash_loop 2166136261 path in bit_xor hash (hash / 2 ^ 16) % 256

-- `paths[bit / 64] |= 1 << (bit % 64)`, and the loop over all hashes.
unfoldable pub mark : List ℕ → ℕ → List ℕ
mark paths bit = set paths (bit / 64) (bit_or (get_or paths (bit / 64) 0) (2 ^ (bit % 64)))

unfoldable pub mark_all : List ℕ → List ℕ → List ℕ
mark_all paths [] = paths
mark_all paths (bit ∷ bits) = mark_all (mark paths bit) bits

pub limit : Profile → Event → ℕ
limit strict invalid_proof = 4
limit strict client_rate = 4
limit strict scan = 20
limit strict body_stall = 2
limit _ invalid_proof = 8
limit _ client_rate = 8
limit _ scan = 40
limit _ body_stall = 3

pub path_limit : Profile → ℕ
path_limit strict = 16
path_limit _ = 32

pub window : Event → ℕ
window invalid_proof = 60 * second
window client_rate = 60 * second
window scan = 30 * second
window body_stall = 600 * second

abbrev pub is_fresh : ℕ → ℕ → ℕ → Bool
is_fresh now span time = leb time now && ltb (now - time) span

-- The hashes that stand beside the times that are kept.
unfoldable pub kept_hashes : ℕ → ℕ → List ℕ → List ℕ → List ℕ
kept_hashes now span [] hashes = []
kept_hashes now span (t ∷ ts) [] = []
kept_hashes now span (t ∷ ts) (h ∷ hs) =
    if is_fresh now span t then h ∷ kept_hashes now span ts hs else kept_hashes now span ts hs

-- What is kept after the shift that makes room for one more.
pub make_room {ℓ} : {A : Type ℓ} → ℕ → List A → List A
make_room count kept = if count == max_times then drop 1 kept else kept

-- The event is written into the entry of its address.
pub note : ℕ → Event → Bytes → Entry → Entry
note now event path entry =
    let kept = keep_if (is_fresh now (window event)) (entry.times event) in
    let noted = record entry {
      times = update entry.times event (make_room (length kept) kept ++ now ∷ []);
    } in
    let hashes =
      make_room (length kept) (kept_hashes now (window event) (entry.times event) entry.path_hashes)
      ++ hash_path path ∷ [] in
    if is_scan event
    then record noted { path_hashes = hashes; paths = mark_all no_paths hashes }
    else noted

abbrev pub is_cooling : ℕ → Entry → Bool
is_cooling now entry =
    entry.signaled && leb entry.signal_ns now && ltb (now - entry.signal_ns) (60 * second)

-- The bits of the paths count for a scan only.
pub few_paths : Profile → Event → Entry → Option Bool
few_paths profile event entry =
    if is_scan event
    then (path_bits entry.paths 0 >>= λ bits. some (ltb bits (path_limit profile)))
    else some false

-- The condition of the last `return 0`.
pub is_quiet : Profile → Event → ℕ → Entry → Option Bool
is_quiet profile event now entry = few_paths profile event entry >>= λ few.
    some (ltb (length (entry.times event)) (limit profile event) || few || is_cooling now entry)

-- `if (!candidate->ip[0]) oldest = candidate; else if (oldest->ip[0] && …) oldest = candidate;`
pub replaces : Entry → Entry → Bool
replaces candidate oldest =
    is_empty candidate.ip || not (is_empty oldest.ip) && ltb candidate.seen_ns oldest.seen_ns

-- The condition of the first return.
pub is_ignored : Policy → Bytes → Bool
is_ignored policy ip =
    (elim policy.profile [ off ↦ true | conservative ↦ false | strict ↦ false ])
    || is_empty ip
    || leb 64 (length ip)

-- A scan without a path is only seen.
abbrev pub is_pathless : Event → Option Bytes → Bool
is_pathless event none = is_scan event
is_pathless event (some path) = false

-- The two ends of the function, with the slot of the entry: the Boolean is true where it returns 1.
abbrev pub outcome : Policy → ℕ → Event → ℕ → Entry → Bool → Policy × Bool
outcome policy at event now entry true =
    (record policy { entries = set policy.entries at entry }, false)
outcome policy at event now entry false = (
  record policy {
    entries = set policy.entries at (record entry { signaled = true; signal_ns = now });
    signals = update policy.signals event (add64 (policy.signals event) 1);
  },
  true,
)

pub report : Policy → ℕ → Event → ℕ → Entry → Option (Policy × Bool)
report policy at event now entry = is_quiet policy.profile event now entry >>= λ quiet.
    some (outcome policy at event now entry quiet)

pub abuse_record : Policy → Bytes → Event → Option Bytes → ℕ → Option (Policy × Bool)
abuse_record policy ip event path now =
    let choice = choose (λ c. str_eq c.ip ip) replaces policy.entries in
    let seen = record (entry_at choice policy.entries (blank ip)) { seen_ns = now } in
    if is_ignored policy ip
    then some (policy, false)
    else if is_pathless event path
    then some (record policy { entries = set policy.entries (index choice) seen }, false)
    else report policy (index choice) event now (note now event (Option.get_or path []) seen)
