-- ===== src/Abuse/Signal.antt =====
-- An offence as the code counts it, and whether it is reported.
use mathlib.Core.Option
use ankah.Prelude.{
  ℕ, zero, suc, ◌-◌, ◌≤◌, ◌<◌, ◌≡◌, refl, ◌∙◌, ◌≢◌, inl, inr, Bool-cases, Bool, true, false, not,
  ◌||◌, List, [], ◌∷◌, ◌++◌, Option, some, arith, ltb, ◌==◌, if◌then◌else◌, length, length-append,
  length-drop, length-keep_if-le, drop, keep_if, All, All-append, Bytes, is_empty, str_eq,
}
use ankah.Slots.{choose, index, entry_at}
use ankah.Slots.Victim.{Ranked}
use ankah.Slots.Keyed.{lookup, Distinct, lookup_or_fresh}
use ankah.Slots.Touch.{entry_at-lookup}
use ankah.Abuse.{
  Event, invalid_proof, client_rate, scan, body_stall, Profile, is_scan, max_times, Entry, Policy,
  no_paths, blank, few_paths, hash_path, mark_all, limit, path_limit, window, is_fresh, kept_hashes,
  make_room, note, is_cooling, is_quiet, replaces, is_ignored, is_pathless, outcome, report,
  abuse_record,
}
use ankah.Abuse.Paths.{distinct, AreBytes, path_bits-distinct}

abbrev pub key : Entry → Bytes
key c = c.ip

abbrev pub rank : Entry → ℕ
rank c = if is_empty c.ip then 0 else suc c.seen_ns

pub replaces-Ranked : Ranked replaces rank
unfolding replaces
replaces-Ranked = record { wins = λ c o h. ground arith; loses = λ c o h. ground arith }

-- The arrays of an entry: at most 40 times for each event, and a hash for each time of a scan.
pub record Fits (e : Entry) : Type 0 where
  pub bounded : (v : Event) → length (e.times v) ≤ max_times
  pub paired : length e.path_hashes ≡ length (e.times scan)
  pub bytes : AreBytes e.path_hashes

pub blank-Fits : (ip : Bytes) → Fits (blank ip)
blank-Fits ip = record { bounded = λ v. omega arith; paired = refl; bytes = tt }

pub record IsValid (policy : Policy) : Type 0 where
  pub slots : 0 < length policy.entries
  pub separate : Distinct key policy.entries
  pub fitting : All Fits policy.entries

-- The entry of an address, a fresh one if it has none.
abbrev pub entry_of : Policy → Bytes → Entry
entry_of policy ip = Option.get_or (lookup key policy.entries ip) (blank ip)

-- The last 40 of a list.
abbrev pub latest {ℓ} : {A : Type ℓ} → List A → List A
latest xs = drop (length xs - max_times) xs

-- The times of the event that count, with the one that comes now, and the hashes of their paths.
abbrev pub counted : ℕ → Event → Entry → List ℕ
counted now event e = latest (keep_if (is_fresh now (window event)) (e.times event) ++ now ∷ [])

abbrev pub visited : ℕ → Bytes → Entry → List ℕ
visited now path e =
    latest (kept_hashes now (window scan) (e.times scan) e.path_hashes ++ hash_path path ∷ [])

make_room-latest {ℓ} :
    {A : Type ℓ} (kept : List A) (x : A)
    → length kept ≤ max_times
    → make_room (length kept) kept ++ x ∷ [] ≡ latest (kept ++ x ∷ [])
unfolding make_room
make_room-latest [] x le = refl
make_room-latest (c ∷ cs) x le = elim (Bool-cases (suc (length cs) == max_times)) [
  | inl full ↦
      let over : suc (length (cs ++ x ∷ [])) - max_times ≡ 1 =
        ground (arith, length-append cs (x ∷ [])) in
      rw (full, over)
  | inr room ↦
      let under : suc (length (cs ++ x ∷ [])) - max_times ≡ 0 =
        ground (arith, length-append cs (x ∷ [])) in
      rw (room, under)
]

pub length-kept_hashes :
    (now span : ℕ) (ts hs : List ℕ)
    → length hs ≡ length ts
    → length (kept_hashes now span ts hs) ≡ length (keep_if (is_fresh now span) ts)
unfolding kept_hashes
length-kept_hashes now span [] hs e = refl
length-kept_hashes now span (t ∷ ts) [] e = absurd (omega arith)
length-kept_hashes now span (t ∷ ts) (h ∷ hs) e = ground (arith, length-kept_hashes now span ts hs)

kept_hashes-AreBytes :
    (now span : ℕ) (ts hs : List ℕ) → AreBytes hs → AreBytes (kept_hashes now span ts hs)
unfolding kept_hashes
kept_hashes-AreBytes now span [] hs b = tt
kept_hashes-AreBytes now span (t ∷ ts) [] b = tt
kept_hashes-AreBytes now span (t ∷ ts) (h ∷ hs) b =
    ground (arith, kept_hashes-AreBytes now span ts hs b.1)

drop-AreBytes : (n : ℕ) (hs : List ℕ) → AreBytes hs → AreBytes (drop n hs)
drop-AreBytes zero hs b = b
drop-AreBytes (suc n) [] b = tt
drop-AreBytes (suc n) (h ∷ hs) b = drop-AreBytes n hs b.1

pub length-latest-le : (xs : List ℕ) → length (latest xs) ≤ max_times
length-latest-le xs = omega (arith, length-drop (length xs - max_times) xs)

hash_path-lt : (path : Bytes) → hash_path path < 256
unfolding hash_path
hash_path-lt path = omega arith

module _ (profile : Profile) (path : Bytes) (now : ℕ) (e : Entry) (fits : Fits e) where
  kept_bounded :
      (event : Event) → length (keep_if (is_fresh now (window event)) (e.times event)) ≤ max_times
  kept_bounded event = omega (
    arith,
    length-keep_if-le {0} (is_fresh now (window event)) (e.times event),
    fits.bounded event,
  )

  pub note-times : (event : Event) → (note now event path e).times event ≡ counted now event e
  unfolding note
  note-times invalid_proof = make_room-latest _ now (kept_bounded invalid_proof)
  note-times client_rate = make_room-latest _ now (kept_bounded client_rate)
  note-times scan = make_room-latest _ now (kept_bounded scan)
  note-times body_stall = make_room-latest _ now (kept_bounded body_stall)

  pub note-path_hashes : (note now scan path e).path_hashes ≡ visited now path e
  unfolding note
  note-path_hashes =
      let same = length-kept_hashes now (window scan) (e.times scan) e.path_hashes fits.paired in
      rw (← same) (make_room-latest _ (hash_path path) (rw same (kept_bounded scan)))

  note-paths : (note now scan path e).paths ≡ mark_all no_paths (note now scan path e).path_hashes
  unfolding note
  note-paths = refl

  pub visited-AreBytes : AreBytes (visited now path e)
  visited-AreBytes = drop-AreBytes _ _ (
      All-append (λ h. h < 256) _ (hash_path path ∷ [])
        (kept_hashes-AreBytes now (window scan) (e.times scan) e.path_hashes fits.bytes)
        (hash_path-lt path, tt))

  few_paths-note :
      (event : Event)
      → few_paths profile event (note now event path e)
        ≡ some (
            if is_scan event
            then ltb (distinct (visited now path e)) (path_limit profile)
            else false)
  unfolding few_paths
  few_paths-note invalid_proof = refl
  few_paths-note client_rate = refl
  few_paths-note scan =
      rw (note-paths, note-path_hashes, path_bits-distinct (visited now path e) visited-AreBytes)
        refl
  few_paths-note body_stall = refl

  is_cooling-note : (event : Event) → is_cooling now (note now event path e) ≡ is_cooling now e
  unfolding note
  is_cooling-note invalid_proof = refl
  is_cooling-note client_rate = refl
  is_cooling-note scan = refl
  is_cooling-note body_stall = refl

  -- The condition of the last return, over what the entry was before.
  unfoldable pub quiet : Event → Bool
  quiet event =
      ltb (length (counted now event e)) (limit profile event)
      || (if is_scan event then ltb (distinct (visited now path e)) (path_limit profile) else false)
      || is_cooling now e

  is_quiet-note :
      (event : Event) → is_quiet profile event now (note now event path e) ≡ some (quiet event)
  unfolding is_quiet quiet
  is_quiet-note event = rw (few_paths-note event, note-times event, is_cooling-note event) refl

outcome-signal :
    (policy : Policy) (at : ℕ) (event : Event) (now : ℕ) (e : Entry) (b : Bool)
    → (outcome policy at event now e b).1 ≡ not b
outcome-signal policy at event now e true = refl
outcome-signal policy at event now e false = refl

-- The entry of an address that is seen now.
abbrev pub touched : ℕ → Entry → Entry
touched now e = record e { seen_ns = now }

pub touched-Fits : (now : ℕ) (e : Entry) → Fits e → Fits (touched now e)
touched-Fits now e f = record { bounded = f.bounded; paired = f.paired; bytes = f.bytes }

pub signaled-Fits :
    (now : ℕ) (e : Entry) → Fits e → Fits (record e { signaled = true; signal_ns = now })
signaled-Fits now e f = record { bounded = f.bounded; paired = f.paired; bytes = f.bytes }

module _ (policy : Policy) (ip : Bytes) (event : Event) (path : Option Bytes) (now : ℕ)
    (v : IsValid policy) (ok : is_ignored policy ip ≡ false) where
  unfoldable pub slot : ℕ
  slot = index (choose (λ c. str_eq c.ip ip) replaces policy.entries)

  unfoldable pub found_entry : Entry
  found_entry =
      entry_at (choose (λ c. str_eq c.ip ip) replaces policy.entries) policy.entries (blank ip)

  pub ip_ne : ip ≢ []
  unfolding is_ignored
  ip_ne e = ground arith

  pub found_entry-entry_of : found_entry ≡ entry_of policy ip
  unfolding found_entry
  found_entry-entry_of =
      entry_at-lookup key replaces rank replaces-Ranked policy.entries ip ip_ne v.separate v.slots
        (blank ip)

  pub found_entry-Fits : Fits found_entry
  found_entry-Fits =
      rw found_entry-entry_of
        (lookup_or_fresh key Fits policy.entries ip (blank ip) v.fitting (blank-Fits ip))

  module _ (pathed : is_pathless event path ≡ false) where
    unfoldable pub path_text : Bytes
    path_text = Option.get_or path []

    abuse_record_lem :
        abuse_record policy ip event path now
        ≡ report policy slot event now (note now event path_text (touched now found_entry))
    unfolding abuse_record slot found_entry path_text
    abuse_record_lem = rw (ok, pathed)

    unfoldable pub is_quiet_now : Bool
    is_quiet_now = quiet policy.profile path_text now found_entry found_entry-Fits event

    unfoldable pub result : Policy × Bool
    result =
        outcome policy slot event now (note now event path_text (touched now found_entry))
          is_quiet_now

    pub abuse_record-result : abuse_record policy ip event path now ≡ some result
    unfolding report quiet result is_quiet_now
    abuse_record-result =
        abuse_record_lem
        ∙ rw
            (is_quiet-note policy.profile path_text now (touched now found_entry)
              (touched-Fits now found_entry found_entry-Fits) event)
            refl

    pub result-signal : result.1 ≡ not is_quiet_now
    unfolding result
    result-signal = outcome-signal policy slot event now _ is_quiet_now
