-- ===== src/Stats/Kept.antt =====
-- What a save does to the files, for each way it ends.
use ankah.Prelude.{
  ℕ, suc, ◌-◌, ◌^◌, ◌≤◌, ◌≡◌, refl, subst, inl, inr, Bool, not, ◌||◌, Option, none, some, arith,
  ◌==◌, if◌then◌else◌, length, Bytes, codes, Bool-cases,
}
use ankah.Stats.{Stats}
use ankah.Stats.Snapshot.{Saved, saved_of}
use ankah.Stats.Codec.{digest_size, encode_snapshot, decode_snapshot}
use ankah.Stats.History.{Reach}
use ankah.Stats.Restore.{stored, Fits}
use ankah.Stats.RoundTrip.{decode_snapshot-encode_snapshot, length-encode_snapshot}
use ankah.Stats.Files.{
  snapshot_max_size, Disk, IsDisk, snapshot_path, slot_suffix, replace_with, stats_save,
}
use ankah.Stats.Slots.{slot, Wrote, slot-others, slot-written}

module _ {Files : Type 0} (sha256 : Bytes → Option Bytes)
    (sized : (text digest : Bytes) → sha256 text ≡ some digest → length digest ≡ digest_size)
    (disk : Disk Files) (laws : IsDisk disk) (path : Bytes) where
  -- A save that fails leaves the slots, or has written all the same; one that does not has written.
  abbrev pub Did : Files → ℕ → Option (ℕ × Saved) → Bool × (Files × ℕ) → Type 0
  Did files generation written (ok, (after, next)) =
      (next ≡ (if ok then suc generation else generation))
      × ((slot sha256 disk path after generation ≡ slot sha256 disk path files generation)
          × Wrote ok (slot sha256 disk path files (suc generation))
              (slot sha256 disk path after (suc generation)) written)

  abbrev Encodes : Option Bytes → Option (ℕ × Saved) → Type 0
  Encodes image written =
      (bytes : Bytes)
      → image ≡ some bytes
      → (length bytes ≤ snapshot_max_size) × (decode_snapshot sha256 bytes ≡ written)

  replace_with-Did :
      (files : Files) (generation : ℕ) (temporary next image : Option Bytes)
      (written : Option (ℕ × Saved))
      → snapshot_path path (codes ".tmp") ≡ temporary
      → snapshot_path path (slot_suffix (suc generation)) ≡ next
      → Encodes image written
      → Did files generation written
          (replace_with sha256 disk files generation temporary next image)
  unfolding replace_with
  replace_with-Did files generation none next image written a b encodes = (refl, (refl, inl refl))
  replace_with-Did files generation (some temp) none image written a b encodes =
      (refl, (refl, inl refl))
  replace_with-Did files generation (some temp) (some target) none written a b encodes =
      (refl, (refl, inl refl))
  replace_with-Did files generation (some temp) (some target) (some bytes) written a b encodes =
      let (ok, after) = disk.replace files temp target bytes in
      let (size, decoded) = encodes bytes refl in
      (
        refl,
        (
          slot-others sha256 disk path laws files after ok generation temp target bytes a b refl,
          subst
              (Wrote ok (slot sha256 disk path files (suc generation))
                (slot sha256 disk path after (suc generation)))
              decoded
              (slot-written sha256 disk path laws files after ok (suc generation) temp target bytes
                b refl size),
        ),
      )

  pub stats_save-Did :
      (files : Files) (wall generation : ℕ) (stats : Stats)
      → Reach stats
      → Fits (suc generation) wall (saved_of stats)
      → Did files generation
          (some (suc generation, stored (saved_of stats)))
          (stats_save sha256 disk files path wall stats generation)
  unfolding stats_save
  stats_save-Did files wall generation stats reach fits =
      elim (Bool-cases (not stats.enabled || generation == 2 ^ 64 - 1)) [
        | inl refused ↦ rw refused (refl, (refl, inl refl))
        | inr allowed ↦ rw allowed (
            replace_with-Did files generation (snapshot_path path (codes ".tmp"))
              (snapshot_path path (slot_suffix (suc generation)))
              (encode_snapshot sha256 (suc generation) wall stats)
              (some (suc generation, stored (saved_of stats))) refl refl
              (λ bytes e. (
                length-encode_snapshot sha256 sized (suc generation) wall bytes reach fits e,
                decode_snapshot-encode_snapshot sha256 sized (suc generation) wall bytes reach
                    (omega arith) fits e,
              )))
      ]
