-- ===== src/Stats/Slots.antt =====
-- What a save does to the two files.
use ankah.Prelude.{
  ℕ, suc, ◌%◌, ◌≤◌, ◌≡◌, ◌≢◌, ◌⊎◌, refl, sym, ap, ◌∙◌, inl, inr, Bool, true, false, ◌&&◌, ◌++◌,
  Option, none, some, some-injective, arith, ltb, ◌==◌, length, drop, drop_append, Bytes, codes,
  str_eq, ne_of_str_eq, Bool-cases, Option-cases,
}
use ankah.Stats.Snapshot.{Saved}
use ankah.Stats.Codec.{decode_snapshot}
use ankah.Stats.Files.{
  ReadResult, path_max, snapshot_max_size, Disk, IsDisk, snapshot_path, slot_suffix, decoded_slot,
  read_candidate, read_slot,
}

append_ne : (base a b : Bytes) → str_eq a b ≡ false → base ++ a ≢ base ++ b
append_ne base a b differ e =
    let same : a ≡ b = sym (drop_append base a) ∙ ap (drop (length base)) e ∙ drop_append base b in
    ne_of_str_eq a b differ same

snapshot_path-eq :
    (base suffix path : Bytes) → snapshot_path base suffix ≡ some path → base ++ suffix ≡ path
unfolding snapshot_path
snapshot_path-eq base suffix path =
    elim (Bool-cases (ltb 0 (length (base ++ suffix)) && ltb (length (base ++ suffix)) path_max)) [
      | inl fits ↦ rw fits (some-injective (base ++ suffix) path)
      | inr long ↦ rw long (ground arith)
    ]

snapshot_path_ne :
    (base a b left right : Bytes)
    → str_eq a b ≡ false
    → snapshot_path base a ≡ some left
    → snapshot_path base b ≡ some right
    → left ≢ right
snapshot_path_ne base a b left right differ l r e =
    append_ne base a b differ
      (snapshot_path-eq base a left l ∙ e ∙ sym (snapshot_path-eq base b right r))

next_suffix_ne :
    (generation : ℕ) → str_eq (slot_suffix generation) (slot_suffix (suc generation)) ≡ false
next_suffix_ne generation = elim (Bool-cases (generation % 2 == 1)) [
  | inl odd ↦ let even : (suc generation % 2 == 1) ≡ false = ground arith in rw (odd, even) refl
  | inr even ↦ let odd : (suc generation % 2 == 1) ≡ true = ground arith in rw (even, odd) refl
]

tmp_suffix_ne : (generation : ℕ) → str_eq (slot_suffix generation) (codes ".tmp") ≡ false
tmp_suffix_ne generation = ground arith

pub after_next : (generation : ℕ) → slot_suffix (suc (suc generation)) ≡ slot_suffix generation
after_next generation =
    let same : suc (suc generation) % 2 ≡ generation % 2 = omega arith in rw same refl

-- What a save may do to the slot of its generation.
abbrev pub Wrote : Bool → Option (ℕ × Saved) → Option (ℕ × Saved) → Option (ℕ × Saved) → Type 0
Wrote true before after written = after ≡ written
Wrote false before after written = (after ≡ before) ⊎ (after ≡ written)

module _ {Files : Type 0} (sha256 : Bytes → Option Bytes) (disk : Disk Files) (path : Bytes) where
  -- The snapshot in the slot of a generation.
  abbrev pub slot : Files → ℕ → Option (ℕ × Saved)
  slot files generation = (read_slot sha256 disk files path (slot_suffix generation)).1

  abbrev content : ReadResult → Option (ℕ × Saved)
  content result = (decoded_slot sha256 disk result).1

  slot-content :
      (files : Files) (generation : ℕ) (own : Bytes)
      → snapshot_path path (slot_suffix generation) ≡ some own
      → slot files generation ≡ content (disk.read_optional files own snapshot_max_size)
  unfolding read_slot read_candidate
  slot-content files generation own here = ap (λ o. (read_candidate sha256 disk files o).1) here

  slot-none :
      (files : Files) (generation : ℕ)
      → snapshot_path path (slot_suffix generation) ≡ none
      → slot files generation ≡ none
  unfolding read_slot read_candidate
  slot-none files generation long = ap (λ o. (read_candidate sha256 disk files o).1) long

  module _ (laws : IsDisk disk) where
    pub slot-others :
        (files after : Files) (ok : Bool) (generation : ℕ) (temp target image : Bytes)
        → snapshot_path path (codes ".tmp") ≡ some temp
        → snapshot_path path (slot_suffix (suc generation)) ≡ some target
        → disk.replace files temp target image ≡ (ok, after)
        → slot after generation ≡ slot files generation
    slot-others files after ok generation temp target image temporary next replaced =
        elim (Option-cases (snapshot_path path (slot_suffix generation))) [
          | inl long ↦ slot-none after generation long ∙ sym (slot-none files generation long)
          | inr (own, here) ↦
              let from_temp : own ≢ temp =
                snapshot_path_ne path (slot_suffix generation) (codes ".tmp") own temp
                  (tmp_suffix_ne generation) here temporary in
              let from_target : own ≢ target =
                snapshot_path_ne path (slot_suffix generation) (slot_suffix (suc generation)) own
                  target (next_suffix_ne generation) here next in
              slot-content after generation own here
              ∙ ap content (
                  laws.others files after ok temp target image own snapshot_max_size replaced
                    from_temp from_target)
              ∙ sym (slot-content files generation own here)
        ]

    pub slot-written :
        (files after : Files) (ok : Bool) (generation : ℕ) (temp target image : Bytes)
        → snapshot_path path (slot_suffix generation) ≡ some target
        → disk.replace files temp target image ≡ (ok, after)
        → length image ≤ snapshot_max_size
        → Wrote ok (slot files generation) (slot after generation) (decode_snapshot sha256 image)
    unfolding decoded_slot
    slot-written files after true generation temp target image here replaced size =
        slot-content after generation target here
        ∙ ap content (laws.written files after temp target image snapshot_max_size replaced size)
    slot-written files after false generation temp target image here replaced size =
        elim (laws.unfinished files after temp target image snapshot_max_size replaced size) [
          | inl before ↦ inl (
              slot-content after generation target here
              ∙ ap content before
              ∙ sym (slot-content files generation target here))
          | inr written ↦ inr (slot-content after generation target here ∙ ap content written)
        ]
