-- ===== src/Abuse/Offence.antt =====
-- When an offence is reported, and what is kept of it.
use mathlib.Core.Option
use mathlib.Core.Path.{subst}
use ankah.Prelude.{
  ℕ, ◌≡◌, refl, ap, sym, ◌∙◌, ◌↔◌, inl, inr, Bool-cases, Bool, true, false, not, ◌||◌, [], Option,
  some, arith, ltb, if◌then◌else◌, length, set, Bytes,
}
use ankah.Slots.Keyed.{key-lookup}
use ankah.Slots.Touch.{touch-lookup_self}
use ankah.Abuse.{
  Event, invalid_proof, client_rate, scan, body_stall, Profile, is_scan, same_event, Entry, Policy,
  limit, note, is_cooling, replaces, is_ignored, is_pathless, outcome, abuse_record, blank,
}
use ankah.Abuse.Paths.{distinct}
use ankah.Abuse.Upkeep.{note-other, same_event-eq, note-ip}
use ankah.Abuse.Signal.{
  key, rank, replaces-Ranked, Fits, IsValid, entry_of, counted, visited, note-times,
  note-path_hashes, touched, touched-Fits, quiet, slot, found_entry, found_entry-entry_of,
  found_entry-Fits, ip_ne, path_text, is_quiet_now, result, abuse_record-result, result-signal,
}
use ankah.Abuse.Measure.{
  enough, enough_paths, offences, paths, Signals, Recorded, limit-enough, counted-offences,
  visited-paths, path_limit-enough_paths, cooled, rested, signals_loud, same_event_refl,
}

module _ (profile : Profile) (path : Bytes) (now : ℕ) (e : Entry) (fits : Fits e) where
  quiet_lem :
      (event : Event)
      → quiet profile path now e fits event ≡ (
          ltb (length (offences now event e)) (enough profile event)
          || ltb (distinct (paths now path e)) (enough_paths profile event)
          || is_cooling now e)
  unfolding quiet
  quiet_lem event =
      rw (← counted-offences now event e, ← limit-enough profile event, ← visited-paths now path e)
        (ap
          (λ few.
            ltb (length (counted now event e)) (limit profile event) || few || is_cooling now e)
          (path_limit-enough_paths profile event (distinct (visited now path e))))

  quiet-Signals :
      (event : Event)
      → quiet profile path now e fits event ≡ false
      → Signals profile event path now e
  quiet-Signals event = rw (quiet_lem event) (λ q. record {
    often = ground (arith, q);
    wide = ground (arith, q);
    rested = cooled now e (ground (arith, q));
  })

  Signals-quiet :
      (event : Event)
      → Signals profile event path now e
      → quiet profile path now e fits event ≡ false
  Signals-quiet event s =
      rw (quiet_lem event) (signals_loud _ _ _ _ _ s.often s.wide (rested now e s.rested))

  -- The entry that is stored, as the function is quiet or not.
  unfoldable left : Event → Bool → Entry
  left event b =
      let noted = note now event path (touched now e) in
      if b then noted else record noted { signaled = true; signal_ns = now }

  note-report :
      (event : Event)
      → ((note now event path (touched now e)).seen_ns ≡ now)
        × (((note now event path (touched now e)).signaled ≡ e.signaled)
            × ((note now event path (touched now e)).signal_ns ≡ e.signal_ns))
  unfolding note
  note-report invalid_proof = (refl, (refl, refl))
  note-report client_rate = (refl, (refl, refl))
  note-report scan = (refl, (refl, refl))
  note-report body_stall = (refl, (refl, refl))

  note-offences :
      (event v : Event)
      → (note now event path e).times v
        ≡ (if same_event event v then offences now event e else e.times v)
  note-offences event v = elim (Bool-cases (same_event event v)) [
    | inl same ↦
        subst
          (λ w.
            (note now event path e).times w
            ≡ (if same_event event w then offences now event e else e.times w))
          (same_event-eq path now e fits event v same)
          (rw (same_event_refl event)
            (note-times profile path now e fits event ∙ counted-offences now event e))
    | inr other ↦ rw other (note-other path now e fits event v other)
  ]

  note-paths :
      (event : Event)
      → (note now event path e).path_hashes
        ≡ (if is_scan event then paths now path e else e.path_hashes)
  unfolding note
  note-paths invalid_proof = refl
  note-paths client_rate = refl
  note-paths scan = note-path_hashes profile path now e fits ∙ visited-paths now path e
  note-paths body_stall = refl

outcome-entries :
    (policy : Policy) (at : ℕ) (event : Event) (now : ℕ) (e : Entry) (b : Bool)
    → (outcome policy at event now e b).0.entries
      ≡ set policy.entries at (if b then e else record e { signaled = true; signal_ns = now })
outcome-entries policy at event now e true = refl
outcome-entries policy at event now e false = refl

negated_iff : (b : Bool) (A : Type 0) → (b ≡ false → A) → (A → b ≡ false) → (not b ≡ true) ↔ A
negated_iff true A f g = ((λ e. ground arith), (λ a. ground (arith, g a)))
negated_iff false A f g = ((λ e. f refl), (λ a. refl))

module _ (profile : Profile) (path : Bytes) (now : ℕ) (e : Entry) (fits : Fits e)
    (event : Event) where
  left-signal :
      (b : Bool)
      → quiet profile path now e fits event ≡ b
      → (not b ≡ true) ↔ Signals profile event path now e
  left-signal b same =
      negated_iff b (Signals profile event path now e)
        (λ h. quiet-Signals profile path now e fits event (same ∙ h))
        (λ s. sym same ∙ Signals-quiet profile path now e fits event s)

  left-Recorded :
      (b : Bool)
      → quiet profile path now e fits event ≡ b
      → Recorded profile event path now e (left profile path now e fits event b) (not b)
  unfolding left
  left-Recorded true same = record {
    signal = left-signal true same;
    seen = (note-report profile path now e fits event).0;
    times = note-offences profile path now (touched now e) (touched-Fits now e fits) event;
    hashes = note-paths profile path now (touched now e) (touched-Fits now e fits) event;
    signaled = (note-report profile path now e fits event).1.0;
    signal_ns = (note-report profile path now e fits event).1.1;
  }
  left-Recorded false same = record {
    signal = left-signal false same;
    seen = (note-report profile path now e fits event).0;
    times = note-offences profile path now (touched now e) (touched-Fits now e fits) event;
    hashes = note-paths profile path now (touched now e) (touched-Fits now e fits) event;
    signaled = refl;
    signal_ns = refl;
  }

  left-ip : (b : Bool) → (left profile path now e fits event b).ip ≡ e.ip
  unfolding left
  left-ip true = note-ip path now (touched now e) (touched-Fits now e fits) event
  left-ip false = note-ip path now (touched now e) (touched-Fits now e fits) event

module _ (policy : Policy) (ip : Bytes) (event : Event) (path : Option Bytes) (now : ℕ)
    (v : IsValid policy) (ok : is_ignored policy ip ≡ false)
    (pathed : is_pathless event path ≡ false) where
  stored : Entry
  stored =
      left policy.profile (Option.get_or path []) now (found_entry policy ip event path now v ok)
        (found_entry-Fits policy ip event path now v ok) event
        (is_quiet_now policy ip event path now v ok pathed)

  result-entries :
      (result policy ip event path now v ok pathed).0.entries
      ≡ set policy.entries (slot policy ip event path now v ok) stored
  unfolding result stored left path_text
  result-entries =
      outcome-entries policy (slot policy ip event path now v ok) event now _
        (is_quiet_now policy ip event path now v ok pathed)

  stored-ip : stored.ip ≡ ip
  unfolding stored
  stored-ip =
      left-ip policy.profile (Option.get_or path []) now (found_entry policy ip event path now v ok)
        (found_entry-Fits policy ip event path now v ok) event
        (is_quiet_now policy ip event path now v ok pathed)
      ∙ ap (λ e. e.ip) (found_entry-entry_of policy ip event path now v ok)
      ∙ key-lookup key policy.entries ip (blank ip) refl

  entry_of-result : entry_of (result policy ip event path now v ok pathed).0 ip ≡ stored
  unfolding slot
  entry_of-result = rw result-entries (
      ap (λ o. Option.get_or o (blank ip))
        (touch-lookup_self key replaces rank replaces-Ranked policy.entries ip
          (ip_ne policy ip event path now v ok) v.separate v.slots stored stored-ip))

  quiet_now :
      quiet policy.profile
        (Option.get_or path [])
        now
        (found_entry policy ip event path now v ok)
        (found_entry-Fits policy ip event path now v ok)
        event
      ≡ is_quiet_now policy ip event path now v ok pathed
  unfolding is_quiet_now path_text
  quiet_now = refl

  -- An offence of an address that is not ignored is kept in its entry: its time behind the times within
  -- the window, at most 40, for a scan the hash of its path likewise, the times of other events as they
  -- were, and the time now as the last seen. It is reported exactly when the times are as many as the
  -- profile asks for, for a scan with enough different hashes of paths, and the entry has no report within
  -- the 60 seconds before; then the time now is that of the last report, which else stays.
  pub abuse_record-signal :
      (r : Policy × Bool) × (abuse_record policy ip event path now ≡ some r)
      × Recorded policy.profile event
          (Option.get_or path [])
          now
          (entry_of policy ip)
          (entry_of r.0 ip)
          r.1
  unfolding stored
  abuse_record-signal = (
    result policy ip event path now v ok pathed,
    abuse_record-result policy ip event path now v ok pathed,
    rw
        (
          entry_of-result,
          result-signal policy ip event path now v ok pathed,
          ← found_entry-entry_of policy ip event path now v ok,
        )
        (left-Recorded policy.profile (Option.get_or path []) now
          (found_entry policy ip event path now v ok)
          (found_entry-Fits policy ip event path now v ok) event
          (is_quiet_now policy ip event path now v ok pathed) quiet_now),
  )
