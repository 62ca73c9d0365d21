-- ===== src/Stats/Latest.antt =====
-- What the slot beside the last snapshot may hold, and which of the two is restored.
use ankah.Prelude.{
  ap, ℕ, suc, ◌<◌, ◌≡◌, ◌⊎◌, refl, sym, subst, inl, inr, true, false, List, [], ◌∷◌, Option, none,
  some, arith, ltb,
}
use ankah.Stats.Snapshot.{Saved}
use ankah.Stats.Files.{later_snapshot}
use ankah.Stats.Slots.{Wrote}

-- The generation of the last snapshot, 0 before the first one.
abbrev pub generation_of : Option (ℕ × Saved) → ℕ
generation_of none = 0
generation_of (some (generation, saved)) = generation

abbrev pub Among : Saved → List Saved → Type 0
Among saved [] = ⊥
Among saved (other ∷ rest) = (saved ≡ other) ⊎ Among saved rest

abbrev pub Older : ℕ → List Saved → Option (ℕ × Saved) → Type 0
Older generation tried none = Unit {0}
Older generation tried (some (n, saved)) =
    (n < generation) ⊎ ((n ≡ suc generation) × Among saved tried)

pub Older-weaken :
    (generation : ℕ) (saved : Saved) (tried : List Saved) (o : Option (ℕ × Saved))
    → Older generation tried o
    → Older generation (saved ∷ tried) o
Older-weaken generation saved tried none older = tt
Older-weaken generation saved tried (some (n, s)) (inl lt) = inl lt
Older-weaken generation saved tried (some (n, s)) (inr (e, among)) = inr (e, inr among)

pub generation_of-Older : (last : Option (ℕ × Saved)) → Older (suc (generation_of last)) [] last
generation_of-Older none = tt
generation_of-Older (some (n, saved)) = inl (omega arith)

pub undone_other :
    (generation : ℕ) (new : Saved) (tried : List Saved) (before after : Option (ℕ × Saved))
    → Older generation tried before
    → Wrote false before after (some (suc generation, new))
    → Older generation (new ∷ tried) after
undone_other generation new tried before after older (inl same) =
    subst (Older generation (new ∷ tried)) (sym same)
      (Older-weaken generation new tried before older)
undone_other generation new tried before after older (inr wrote) =
    subst (Older generation (new ∷ tried)) (sym wrote) (inr (refl, inl refl))

-- Which of the last snapshot and the other one is restored.
unfoldable pub Picks : ℕ → Option (ℕ × Saved) → List Saved → Option (ℕ × Saved) → Type 0
Picks generation last tried chosen =
    (chosen ≡ last)
    ⊎ ((saved : Saved) × (Among saved tried × (chosen ≡ some (suc generation, saved))))

pub later_snapshot-Picks :
    (tried : List Saved) (last other : Option (ℕ × Saved))
    → Older (generation_of last) tried other
    → Picks (generation_of last) last tried (later_snapshot last other)
      × Picks (generation_of last) last tried (later_snapshot other last)
unfolding later_snapshot Picks
later_snapshot-Picks tried none none older = (inl refl, inl refl)
later_snapshot-Picks tried (some (g, saved)) none older = (inl refl, inl refl)
later_snapshot-Picks tried none (some (n, s)) (inl lt) = absurd (omega (arith, lt))
later_snapshot-Picks tried none (some (n, s)) (inr (same, among)) =
    let pick : Picks 0 none tried (some (n, s)) = inr (s, (among, ap (λ m. some (m, s)) same)) in
    (pick, pick)
later_snapshot-Picks tried (some (g, saved)) (some (n, s)) (inl lt) =
    let before : ltb n g ≡ true = ground arith in
    let after : ltb g n ≡ false = ground arith in (rw after (inl refl), rw before (inl refl))
later_snapshot-Picks tried (some (g, saved)) (some (n, s)) (inr (same, among)) =
    let before : ltb n g ≡ false = ground arith in
    let after : ltb g n ≡ true = ground arith in
    let pick : Picks g (some (g, saved)) tried (some (n, s)) =
      inr (s, (among, ap (λ m. some (m, s)) same)) in
    (rw after pick, rw before pick)
