-- ===== src/Abuse/Measure.antt =====
-- What makes an offence one to report, in seconds and numbers of offences, and how the code computes it.
use ankah.Prelude.{
  ℕ, ◌+◌, ◌-◌, ◌*◌, ◌≤◌, ◌<◌, ◌≡◌, refl, ap, ◌↔◌, ◌⊎◌, inl, inr, Bool-cases, Bool, true, false,
  ◌&&◌, ◌||◌, List, [], ◌∷◌, ◌++◌, arith, ltb, leb, if◌then◌else◌, length, drop, keep_if, Bytes,
}
use ankah.Abuse.{
  Event, invalid_proof, client_rate, scan, body_stall, Profile, off, conservative, strict, is_scan,
  same_event, Entry, hash_path, limit, path_limit, window, is_fresh, kept_hashes, is_cooling,
}
use ankah.Abuse.Paths.{distinct}
use ankah.Abuse.Signal.{counted, visited}

-- The offences and the different paths that it takes.
abbrev pub enough : Profile → Event → ℕ
enough off invalid_proof = 8
enough off client_rate = 8
enough off scan = 40
enough off body_stall = 3
enough conservative invalid_proof = 8
enough conservative client_rate = 8
enough conservative scan = 40
enough conservative body_stall = 3
enough strict invalid_proof = 4
enough strict client_rate = 4
enough strict scan = 20
enough strict body_stall = 2

abbrev pub enough_paths : Profile → Event → ℕ
enough_paths strict scan = 16
enough_paths off scan = 32
enough_paths conservative scan = 32
enough_paths profile invalid_proof = 0
enough_paths profile client_rate = 0
enough_paths profile body_stall = 0

-- The seconds in which they count.
abbrev pub seconds : Event → ℕ
seconds invalid_proof = 60
seconds client_rate = 60
seconds scan = 30
seconds body_stall = 600

abbrev pub is_recent : ℕ → Event → ℕ → Bool
is_recent now event time = leb time now && ltb now (time + seconds event * 1000000000)

abbrev pub last_forty : List ℕ → List ℕ
last_forty xs = drop (length xs - 40) xs

-- The times that count, with the one that comes now.
abbrev pub offences : ℕ → Event → Entry → List ℕ
offences now event e = last_forty (keep_if (is_recent now event) (e.times event) ++ now ∷ [])

abbrev pub recent_hashes : ℕ → List ℕ → List ℕ → List ℕ
recent_hashes now [] hashes = []
recent_hashes now (t ∷ ts) [] = []
recent_hashes now (t ∷ ts) (h ∷ hs) =
    if is_recent now scan t then h ∷ recent_hashes now ts hs else recent_hashes now ts hs

-- The hashes of the paths of the scans that count.
abbrev pub paths : ℕ → Bytes → Entry → List ℕ
paths now path e =
    last_forty (recent_hashes now (e.times scan) e.path_hashes ++ hash_path path ∷ [])

-- Enough offences in the window, for a scan enough different paths, and no report in the minute before.
pub record Signals (profile : Profile) (event : Event) (path : Bytes) (now : ℕ) (e : Entry)
    : Type 0 where
  pub often : enough profile event ≤ length (offences now event e)
  pub wide : enough_paths profile event ≤ distinct (paths now path e)
  pub rested : (e.signaled ≡ false) ⊎ (now < e.signal_ns) ⊎ (e.signal_ns + 60 * 1000000000 ≤ now)

-- What an offence leaves of the entry of its address, and whether it is reported.
pub record Recorded (profile : Profile) (event : Event) (path : Bytes) (now : ℕ)
    (before after : Entry) (reported : Bool) : Type 0 where
  pub signal : (reported ≡ true) ↔ Signals profile event path now before
  pub seen : after.seen_ns ≡ now
  pub times :
      (v : Event)
      → after.times v ≡ (if same_event event v then offences now event before else before.times v)
  pub hashes :
      after.path_hashes ≡ (if is_scan event then paths now path before else before.path_hashes)
  pub signaled : after.signaled ≡ (reported || before.signaled)
  pub signal_ns : after.signal_ns ≡ (if reported then now else before.signal_ns)

pub limit-enough : (profile : Profile) (event : Event) → limit profile event ≡ enough profile event
unfolding limit
limit-enough off invalid_proof = refl
limit-enough off client_rate = refl
limit-enough off scan = refl
limit-enough off body_stall = refl
limit-enough conservative invalid_proof = refl
limit-enough conservative client_rate = refl
limit-enough conservative scan = refl
limit-enough conservative body_stall = refl
limit-enough strict invalid_proof = refl
limit-enough strict client_rate = refl
limit-enough strict scan = refl
limit-enough strict body_stall = refl

is_fresh-is_recent :
    (now : ℕ) (event : Event) (time : ℕ)
    → is_fresh now (window event) time ≡ is_recent now event time
unfolding window
is_fresh-is_recent now invalid_proof time = ground arith
is_fresh-is_recent now client_rate time = ground arith
is_fresh-is_recent now scan time = ground arith
is_fresh-is_recent now body_stall time = ground arith

keep_if-same : (p q : ℕ → Bool) (xs : List ℕ) → ((x : ℕ) → p x ≡ q x) → keep_if p xs ≡ keep_if q xs
keep_if-same p q [] same = refl
keep_if-same p q (x ∷ xs) same = ground (arith, same x, keep_if-same p q xs same)

pub counted-offences :
    (now : ℕ) (event : Event) (e : Entry) → counted now event e ≡ offences now event e
counted-offences now event e =
    ap (λ ts. last_forty (ts ++ now ∷ []))
      (keep_if-same (is_fresh now (window event)) (is_recent now event) (e.times event)
        (is_fresh-is_recent now event))

kept_hashes-recent_hashes :
    (now : ℕ) (ts hs : List ℕ) → kept_hashes now (window scan) ts hs ≡ recent_hashes now ts hs
unfolding kept_hashes
kept_hashes-recent_hashes now [] hs = refl
kept_hashes-recent_hashes now (t ∷ ts) [] = refl
kept_hashes-recent_hashes now (t ∷ ts) (h ∷ hs) =
    rw (is_fresh-is_recent now scan t, kept_hashes-recent_hashes now ts hs) refl

pub visited-paths : (now : ℕ) (path : Bytes) (e : Entry) → visited now path e ≡ paths now path e
visited-paths now path e =
    ap (λ hs. last_forty (hs ++ hash_path path ∷ []))
      (kept_hashes-recent_hashes now (e.times scan) e.path_hashes)

pub same_event_refl : (event : Event) → same_event event event ≡ true
same_event_refl event = ground arith

pub path_limit-enough_paths :
    (profile : Profile) (event : Event) (n : ℕ)
    → (if is_scan event then ltb n (path_limit profile) else false)
      ≡ ltb n (enough_paths profile event)
unfolding path_limit
path_limit-enough_paths off scan n = refl
path_limit-enough_paths conservative scan n = refl
path_limit-enough_paths strict scan n = refl
path_limit-enough_paths profile invalid_proof n = ground arith
path_limit-enough_paths profile client_rate n = ground arith
path_limit-enough_paths profile body_stall n = ground arith

pub cooled :
    (now : ℕ) (e : Entry)
    → is_cooling now e ≡ false
    → (e.signaled ≡ false) ⊎ (now < e.signal_ns) ⊎ (e.signal_ns + 60 * 1000000000 ≤ now)
cooled now e h = elim (Bool-cases e.signaled) [
  | inl before ↦ elim (Bool-cases (leb e.signal_ns now)) [
    | inl past ↦ inr (inr (ground (arith, h)))
    | inr ahead ↦ inr (inl (ground (arith, h)))
  ]
  | inr never ↦ inl never
]

pub rested :
    (now : ℕ) (e : Entry)
    → (e.signaled ≡ false) ⊎ (now < e.signal_ns) ⊎ (e.signal_ns + 60 * 1000000000 ≤ now)
    → is_cooling now e ≡ false
rested now e (inl never) = rw never refl
rested now e (inr (inl ahead)) = ground arith
rested now e (inr (inr past)) = ground arith

pub signals_loud :
    (a b c d : ℕ) (cooling : Bool)
    → b ≤ a
    → d ≤ c
    → cooling ≡ false
    → (ltb a b || ltb c d || cooling) ≡ false
signals_loud a b c d cooling le le' rest = ground arith
