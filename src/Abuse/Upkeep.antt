-- ===== src/Abuse/Upkeep.antt =====
-- What an offence leaves of the table.
use mathlib.Core.Path.{subst}
use ankah.Prelude.{
  ℕ, ◌-◌, ◌≤◌, ◌≡◌, refl, sym, ap, ◌∙◌, inl, inr, Bool-cases, Bool, true, false, List, [], ◌∷◌,
  ◌++◌, Option, some, arith, length, length-append, length-drop, length-set, set, keep_if, All-set,
  Bytes,
}
use ankah.Slots.Keyed.{key-lookup}
use ankah.Slots.Touch.{touch-Distinct}
use ankah.Abuse.{
  Event, conservative, invalid_proof, client_rate, scan, body_stall, same_event, max_times, Entry,
  Policy, blank, window, is_fresh, kept_hashes, hash_path, note, replaces, is_ignored, is_pathless,
  outcome, abuse_record,
}
use ankah.Abuse.Paths.{AreBytes}
use ankah.Abuse.Signal.{
  key, rank, replaces-Ranked, Fits, IsValid, latest, counted, visited, length-kept_hashes,
  length-latest-le, touched, touched-Fits, signaled-Fits, note-times, note-path_hashes,
  visited-AreBytes, slot, found_entry, ip_ne, found_entry-entry_of, found_entry-Fits, path_text,
  is_quiet_now, result, abuse_record-result,
}

length-latest-eq :
    (xs ys : List ℕ) → length xs ≡ length ys → length (latest xs) ≡ length (latest ys)
length-latest-eq xs ys same =
    length-drop (length xs - max_times) xs ∙ rw same (sym (length-drop (length ys - max_times) ys))

module _ (path : Bytes) (now : ℕ) (e : Entry) (fits : Fits e) where
  pub note-other :
      (event v : Event) → same_event event v ≡ false → (note now event path e).times v ≡ e.times v
  unfolding note
  note-other invalid_proof v other = rw other
  note-other client_rate v other = rw other
  note-other scan v other = rw other
  note-other body_stall v other = rw other

  pub same_event-eq : (event v : Event) → same_event event v ≡ true → event ≡ v
  same_event-eq event v h = ground arith

  note-bounded : (event v : Event) → length ((note now event path e).times v) ≤ max_times
  note-bounded event v = elim (Bool-cases (same_event event v)) [
    | inl same ↦
        subst (λ w. length ((note now event path e).times w) ≤ max_times)
          (same_event-eq event v same)
          (rw (note-times conservative path now e fits event)
            (length-latest-le (keep_if (is_fresh now (window event)) (e.times event) ++ now ∷ [])))
    | inr other ↦ rw (note-other event v other) (fits.bounded v)
  ]

  pub note-ip : (event : Event) → (note now event path e).ip ≡ e.ip
  unfolding note
  note-ip invalid_proof = refl
  note-ip client_rate = refl
  note-ip scan = refl
  note-ip body_stall = refl

  visited-paired : length (visited now path e) ≡ length (counted now scan e)
  visited-paired =
      let hashes = kept_hashes now (window scan) (e.times scan) e.path_hashes in
      let times = keep_if (is_fresh now (window scan)) (e.times scan) in
      length-latest-eq (hashes ++ hash_path path ∷ []) (times ++ now ∷ []) (
        omega (
          arith,
          length-append hashes (hash_path path ∷ []),
          length-append times (now ∷ []),
          length-kept_hashes now (window scan) (e.times scan) e.path_hashes fits.paired,
        ))

  note-paired :
      (event : Event)
      → length (note now event path e).path_hashes ≡ length ((note now event path e).times scan)
  unfolding note
  note-paired invalid_proof = fits.paired
  note-paired client_rate = fits.paired
  note-paired scan =
      ap length (note-path_hashes conservative path now e fits)
      ∙ visited-paired
      ∙ ap length (sym (note-times conservative path now e fits scan))
  note-paired body_stall = fits.paired

  note-AreBytes : (event : Event) → AreBytes (note now event path e).path_hashes
  unfolding note
  note-AreBytes invalid_proof = fits.bytes
  note-AreBytes client_rate = fits.bytes
  note-AreBytes scan =
      subst AreBytes (sym (note-path_hashes conservative path now e fits))
        (visited-AreBytes conservative path now e fits)
  note-AreBytes body_stall = fits.bytes

  note-Fits : (event : Event) → Fits (note now event path e)
  note-Fits event = record {
    bounded = note-bounded event;
    paired = note-paired event;
    bytes = note-AreBytes event;
  }

module _ (policy : Policy) (ip : Bytes) (event : Event) (path : Option Bytes) (now : ℕ)
    (v : IsValid policy) where
  module _ (ok : is_ignored policy ip ≡ false) where
    at : ℕ
    at = slot policy ip event path now v ok

    -- The entry that the call goes on with.
    seen : Entry
    seen = touched now (found_entry policy ip event path now v ok)

    seen-Fits : Fits seen
    unfolding seen
    seen-Fits = touched-Fits now _ (found_entry-Fits policy ip event path now v ok)

    seen-ip : seen.ip ≡ ip
    unfolding seen
    seen-ip =
        ap (λ e. e.ip) (found_entry-entry_of policy ip event path now v ok)
        ∙ key-lookup key policy.entries ip (blank ip) refl

    set-IsValid :
        (b : Entry)
        → key b ≡ ip
        → Fits b
        → IsValid (record policy { entries = set policy.entries at b })
    unfolding at slot
    set-IsValid b named fits = record {
      slots = omega (arith, length-set {0} policy.entries at b, v.slots);
      separate =
          touch-Distinct key replaces rank replaces-Ranked policy.entries ip
            (ip_ne policy ip event path now v ok) v.separate v.slots b named;
      fitting = All-set Fits policy.entries at b v.fitting fits;
    }

    outcome-IsValid :
        (b : Entry) (quiet : Bool)
        → key b ≡ ip
        → Fits b
        → IsValid (outcome policy at event now b quiet).0
    outcome-IsValid b true named fits = set-IsValid b named fits
    outcome-IsValid b false named fits =
        let valid =
          set-IsValid (record b { signaled = true; signal_ns = now }) named
            (signaled-Fits now b fits) in
        record { slots = valid.slots; separate = valid.separate; fitting = valid.fitting }

  -- Every call leaves a table in which no address has two slots and no array has overflowed, and in
  -- which each scan has the hash of its path.
  pub abuse_record-IsValid :
      (r : Policy × Bool) × (abuse_record policy ip event path now ≡ some r) × IsValid r.0
  unfolding abuse_record result at seen slot found_entry
  abuse_record-IsValid = elim (Bool-cases (is_ignored policy ip)) [
    | inl ignored ↦ ((policy, false), rw ignored, v)
    | inr ok ↦ elim (Bool-cases (is_pathless event path)) [
      | inl pathless ↦ (
        (record policy { entries = set policy.entries (at ok) (seen ok) }, false),
        rw (ok, pathless),
        set-IsValid ok (seen ok) (seen-ip ok) (seen-Fits ok),
      )
      | inr pathed ↦ (
        result policy ip event path now v ok pathed,
        abuse_record-result policy ip event path now v ok pathed,
        outcome-IsValid ok
            (note now event (path_text policy ip event path now v ok pathed) (seen ok))
            (is_quiet_now policy ip event path now v ok pathed)
            (note-ip _ now (seen ok) (seen-Fits ok) event ∙ seen-ip ok)
            (note-Fits _ now (seen ok) (seen-Fits ok) event),
      )
    ]
  ]
