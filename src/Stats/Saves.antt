-- ===== src/Stats/Saves.antt =====
-- The last snapshot is kept, whatever becomes of the saves after it.
use ankah.Prelude.{
  ap, ap₂, ℕ, suc, ◌%◌, ◌≡◌, ◌⊎◌, refl, sym, ◌∙◌, subst, inl, inr, Bool, true, false, List, [], ◌∷◌,
  Option, none, some, arith, ◌==◌, if◌then◌else◌, length, Bytes, codes, Bool-cases,
}
use ankah.Stats.{Stats}
use ankah.Stats.Snapshot.{Saved, saved_of}
use ankah.Stats.Codec.{digest_size}
use ankah.Stats.History.{Reach}
use ankah.Stats.Restore.{stored, Fits}
use ankah.Stats.Files.{Disk, IsDisk, later_snapshot, read_slot, stats_save, stats_restore, resumed}
use ankah.Stats.Kept.{Did, stats_save-Did}
use ankah.Stats.Slots.{after_next, slot}
use ankah.Stats.Latest.{
  generation_of, Among, Older, generation_of-Older, undone_other, Picks, later_snapshot-Picks,
}

module _ {Files : Type 0} (sha256 : Bytes → Option Bytes)
    (sized : (text digest : Bytes) → sha256 text ≡ some digest → length digest ≡ digest_size)
    (disk : Disk Files) (laws : IsDisk disk) (path : Bytes) where
  -- Saves one after another, from two slots without a snapshot: the files, the generation, the last
  -- snapshot that a save reported, and those of the failed saves after it.
  pub data Saves : Files → ℕ → Option (ℕ × Saved) → List Saved → Type 0 where
    fresh :
        (files : Files)
        → slot sha256 disk path files 0 ≡ none
        → slot sha256 disk path files 1 ≡ none
        → Saves files 0 none []
    done :
        {files after : Files} {generation next : ℕ} {last : Option (ℕ × Saved)} {tried : List Saved}
        (wall : ℕ) (stats : Stats)
        → Saves files generation last tried
        → Reach stats
        → Fits (suc generation) wall (saved_of stats)
        → stats_save sha256 disk files path wall stats generation ≡ (true, (after, next))
        → Saves after next (some (suc generation, stored (saved_of stats))) []
    undone :
        {files after : Files} {generation next : ℕ} {last : Option (ℕ × Saved)} {tried : List Saved}
        (wall : ℕ) (stats : Stats)
        → Saves files generation last tried
        → Reach stats
        → Fits (suc generation) wall (saved_of stats)
        → stats_save sha256 disk files path wall stats generation ≡ (false, (after, next))
        → Saves after next last (stored (saved_of stats) ∷ tried)

  record Held (files : Files) (generation : ℕ) (last : Option (ℕ × Saved)) (tried : List Saved)
      : Type 0 where
    numbered : generation ≡ generation_of last
    own : slot sha256 disk path files generation ≡ last
    other : Older generation tried (slot sha256 disk path files (suc generation))

  done-Held :
      {files after : Files} {generation next : ℕ} {last : Option (ℕ × Saved)} {tried : List Saved}
      (new : Saved)
      → Held files generation last tried
      → Did sha256 sized disk laws path files generation
          (some (suc generation, new))
          (true, (after, next))
      → Held after next (some (suc generation, new)) []
  done-Held {files} {after} {generation} {next} {last} {tried} new held (number, (keep, wrote)) =
      let before : slot sha256 disk path after (suc (suc generation)) ≡ last =
        ap (λ suffix. (read_slot sha256 disk after path suffix).1) (after_next generation)
        ∙ keep
        ∙ held.own in
      subst (λ n. Held after n (some (suc generation, new)) []) (sym number)
        (record {
          numbered = refl;
          own = wrote;
          other =
              subst (Older (suc generation) []) (sym before)
                (subst (λ n. Older (suc n) [] last) (sym held.numbered) (generation_of-Older last));
        })

  undone-Held :
      {files after : Files} {generation next : ℕ} {last : Option (ℕ × Saved)} {tried : List Saved}
      (new : Saved)
      → Held files generation last tried
      → Did sha256 sized disk laws path files generation
          (some (suc generation, new))
          (false, (after, next))
      → Held after next last (new ∷ tried)
  undone-Held {files} {after} {generation} {next} {last} {tried} new held (number, (keep, wrote)) =
      subst (λ n. Held after n last (new ∷ tried)) (sym number)
        (record {
          numbered = held.numbered;
          own = keep ∙ held.own;
          other =
              undone_other generation new tried (slot sha256 disk path files (suc generation))
                (slot sha256 disk path after (suc generation)) held.other wrote;
        })

  Saves-Held :
      {files : Files} {generation : ℕ} {last : Option (ℕ × Saved)} {tried : List Saved}
      → Saves files generation last tried
      → Held files generation last tried
  Saves-Held (fresh files zeroth first) = record {
    numbered = refl;
    own = zeroth;
    other = subst (Older 0 []) (sym first) tt;
  }
  Saves-Held (done {files} {after} {generation} {next} {last} wall stats saves reach fits saved) =
      done-Held (stored (saved_of stats)) (Saves-Held saves) (
        subst
          (Did sha256 sized disk laws path files generation
            (some (suc generation, stored (saved_of stats))))
          saved (stats_save-Did sha256 sized disk laws path files wall generation stats reach fits))
  Saves-Held
        (undone {files} {after} {generation} {next} {last} {tried} wall stats saves reach fits
          saved) =
      undone-Held (stored (saved_of stats)) (Saves-Held saves) (
        subst
          (Did sha256 sized disk laws path files generation
            (some (suc generation, stored (saved_of stats))))
          saved (stats_save-Did sha256 sized disk laws path files wall generation stats reach fits))

  slot-parity :
      (files : Files) (generation : ℕ) (odd : Bool)
      → (generation % 2 == 1) ≡ odd
      → slot sha256 disk path files generation
        ≡ (read_slot sha256 disk files path (if odd then codes ".1" else codes ".0")).1
  slot-parity files generation odd e =
      ap (λ b. (read_slot sha256 disk files path (if b then codes ".1" else codes ".0")).1) e

  later_snapshot-slots :
      {files : Files} {generation : ℕ} {last : Option (ℕ × Saved)} {tried : List Saved}
      → Held files generation last tried
      → Picks generation last tried
          (later_snapshot (slot sha256 disk path files 0) (slot sha256 disk path files 1))
  later_snapshot-slots {files} {generation} {last} {tried} held =
      let next : Option (ℕ × Saved) = slot sha256 disk path files (suc generation) in
      let (last_first, next_first) : Picks generation last tried (later_snapshot last next)
          × Picks generation last tried (later_snapshot next last) =
        subst
          (λ n.
            Picks n last tried (later_snapshot last next)
            × Picks n last tried (later_snapshot next last))
          (sym held.numbered)
          (later_snapshot-Picks tried last next
            (subst (λ n. Older n tried next) held.numbered held.other)) in
      elim (Bool-cases (generation % 2 == 1)) [
        | inl odd ↦
            let second : slot sha256 disk path files 1 ≡ last =
              sym (slot-parity files generation true odd) ∙ held.own in
            let first : slot sha256 disk path files 0 ≡ next =
              sym (slot-parity files (suc generation) false (ground arith)) in
            subst (Picks generation last tried) (sym (ap₂ later_snapshot first second)) next_first
        | inr even ↦
            let first : slot sha256 disk path files 0 ≡ last =
              sym (slot-parity files generation false even) ∙ held.own in
            let second : slot sha256 disk path files 1 ≡ next =
              sym (slot-parity files (suc generation) true (ground arith)) in
            subst (Picks generation last tried) (sym (ap₂ later_snapshot first second)) last_first
      ]

  -- Whatever becomes of the saves after the last one that is reported, a restore resumes with that
  -- snapshot, or with a later one whose save failed only after it was written. It starts anew only where
  -- no save was reported. It takes that a target is replaced at once or stays as it is, that other files
  -- stay, and that sha256 gives 32 bytes; the numbers saved are within their types.
  pub stats_restore-Saves :
      {files : Files} {generation : ℕ} {last : Option (ℕ × Saved)} {tried : List Saved} (wall : ℕ)
      → Saves files generation last tried
      → let state = (stats_restore sha256 disk files path wall).1 in
        (state ≡ resumed wall last)
        ⊎ ((saved : Saved) × (Among saved tried
              × (state ≡ resumed wall (some (suc generation, saved)))))
  unfolding stats_restore Picks
  stats_restore-Saves wall saves = elim (later_snapshot-slots (Saves-Held saves)) [
    | inl e ↦ inl (ap (resumed wall) e)
    | inr (saved, (among, e)) ↦ inr (saved, (among, ap (resumed wall) e))
  ]
