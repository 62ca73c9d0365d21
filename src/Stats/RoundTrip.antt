-- ===== src/Stats/RoundTrip.antt =====
-- decode_snapshot on what encode_snapshot gives.
use ankah.Prelude.{
  ap, sym, ◌∙◌, ℕ, ◌-◌, ◌+◌, ◌*◌, ◌≤◌, ◌<◌, ◌≡◌, subst, inl, inr, true, ◌++◌, Option, some,
  some-injective, arith, length, length-append, drop_append, take_append, Bytes, str_eq_refl,
  Option-cases,
}
use ankah.Stats.{Stats, stat_hours, stat_days}
use ankah.Stats.Rings.{length-aged}
use ankah.Stats.Validity.{IsValid}
use ankah.Stats.History.{Reach, Reach-IsValid, Reach-totals_valid}
use ankah.Stats.Snapshot.{Saved, saved_of, totals_valid}
use ankah.Stats.Codec.{
  digest_size, header_values, snapshot_body, expected_size, encode_snapshot, decode_snapshot,
}
use ankah.Stats.Restore.{
  stored, Fits, saved_rows-snapshot_rows, length-snapshot_body, header-snapshot_body,
  magic-snapshot_body, is_header-header_values, totals_valid-stored,
}

length_after_body :
    (generation wall : ℕ) (saved : Saved) (digest : Bytes)
    → Fits generation wall saved
    → length digest ≡ digest_size
    → length (snapshot_body generation wall saved ++ digest)
      ≡ expected_size (header_values generation wall saved)
length_after_body generation wall saved digest fits size = omega (
  arith,
  length-append (snapshot_body generation wall saved) digest,
  length-snapshot_body generation wall saved fits,
  size,
)

module _ (sha256 : Bytes → Option Bytes) (generation wall : ℕ) (saved : Saved) where
  decode_snapshot-body :
      (digest : Bytes)
      → sha256 (snapshot_body generation wall saved) ≡ some digest
      → length digest ≡ digest_size
      → Fits generation wall saved
      → 0 < generation
      → length saved.hour_rows ≤ stat_hours
      → length saved.day_rows ≤ stat_days
      → totals_valid saved ≡ true
      → decode_snapshot sha256 (snapshot_body generation wall saved ++ digest)
        ≡ some (generation, stored saved)
  unfolding decode_snapshot
  decode_snapshot-body digest hashed size fits numbered hours days valid =
      let body : Bytes = snapshot_body generation wall saved in
      let whole : length (body ++ digest) ≡ expected_size (header_values generation wall saved) =
        length_after_body generation wall saved digest fits size in
      let cut : expected_size (header_values generation wall saved) - digest_size ≡ length body =
        omega (arith, whole, length-append body digest, size) in
      rw
        (
          header-snapshot_body generation wall saved digest fits,
          magic-snapshot_body generation wall saved digest,
          whole,
          is_header-header_values generation wall saved numbered hours days,
          cut,
          take_append body digest,
          drop_append body digest,
          hashed,
          str_eq_refl digest,
          saved_rows-snapshot_rows generation wall saved digest fits,
          totals_valid-stored saved,
          valid,
        )
        (ground arith)

hours_room : {stats : Stats} → IsValid stats → length (saved_of stats).hour_rows ≤ stat_hours
unfolding saved_of
hours_room {stats} v =
    let ring = v.hours_ring in
    omega (arith, length-aged stats.hours stats.hours.count, ring.counted, v.hours_size)

days_room : {stats : Stats} → IsValid stats → length (saved_of stats).day_rows ≤ stat_days
unfolding saved_of
days_room {stats} v =
    let ring = v.days_ring in
    omega (arith, length-aged stats.days stats.days.count, ring.counted, v.days_size)

-- The state of a history, from empty counters or from those of a snapshot that was decoded, saved with a generation other than 0 and with numbers within their types, is
-- restored: the generation, the times, the totals of the fields, the evicted days and the rows of both
-- rings come back. It takes that sha256 gives 32 bytes where it does not fail.
pub decode_snapshot-encode_snapshot :
    (sha256 : Bytes → Option Bytes)
    → ((text digest : Bytes) → sha256 text ≡ some digest → length digest ≡ digest_size)
    → (generation wall : ℕ) {stats : Stats} (image : Bytes) → Reach stats
    → 0 < generation
    → Fits generation wall (saved_of stats)
    → encode_snapshot sha256 generation wall stats ≡ some image
    → decode_snapshot sha256 image ≡ some (generation, stored (saved_of stats))
unfolding encode_snapshot
decode_snapshot-encode_snapshot sha256 sized generation wall {stats} image reach numbered fits =
    let body : Bytes = snapshot_body generation wall (saved_of stats) in
    let v = Reach-IsValid reach in
    elim (Option-cases (sha256 body)) [
      | inl failed ↦ rw failed (ground arith)
      | inr (digest, hashed) ↦ rw hashed (λ e.
          subst (λ x. decode_snapshot sha256 x ≡ some (generation, stored (saved_of stats)))
            (some-injective (body ++ digest) image e)
            (decode_snapshot-body sha256 generation wall (saved_of stats) digest hashed
              (sized body digest hashed) fits numbered (hours_room v) (days_room v)
              (Reach-totals_valid reach)))
    ]

-- What is encoded is read by a restore.
pub length-encode_snapshot :
    (sha256 : Bytes → Option Bytes)
    → ((text digest : Bytes) → sha256 text ≡ some digest → length digest ≡ digest_size)
    → (generation wall : ℕ) {stats : Stats} (image : Bytes) → Reach stats
    → Fits generation wall (saved_of stats)
    → encode_snapshot sha256 generation wall stats ≡ some image
    → length image ≤ 80 + (4 + stat_hours + stat_days) * 360 + digest_size
unfolding encode_snapshot
length-encode_snapshot sha256 sized generation wall {stats} image reach fits =
    let body : Bytes = snapshot_body generation wall (saved_of stats) in
    let v = Reach-IsValid reach in
    elim (Option-cases (sha256 body)) [
      | inl failed ↦ rw failed (ground arith)
      | inr (digest, hashed) ↦ rw hashed (λ e.
          let whole : length image
              ≡ expected_size (header_values generation wall (saved_of stats)) =
            ap length (sym (some-injective (body ++ digest) image e))
            ∙ length_after_body generation wall (saved_of stats) digest fits
                (sized body digest hashed) in
          omega (arith, whole, hours_room v, days_room v))
    ]
