-- ===== src/Slots.antt =====
-- The bounded tables of addresses in src/dots_policy.c, src/abuse_policy.c and src/rate.c choose a
-- slot by one loop: stop at the entry that matches, and else keep the best entry to evict.
pub mod Victim
pub mod Keyed
pub mod Touch
use ankah.Prelude.{ℕ, suc, Bool, List, [], ◌∷◌, if◌then◌else◌, get_or}

-- Which slot the loop ends with, and whether it matched.
pub data Choice : Type 0 where
  found evict : ℕ → Choice

abbrev pub index : Choice → ℕ
index (found i) = i
index (evict i) = i

module _ {ℓ} {A : Type ℓ} (is_match : A → Bool) (replaces : A → A → Bool) where
  -- `for (; i < N; ++i) { if (match) break; if (candidate replaces oldest) oldest = candidate; }`
  unfoldable pub scan : List A → ℕ → ℕ → A → Choice
  scan [] i at oldest = evict at
  scan (c ∷ cs) i at oldest =
      if is_match c
      then found i
      else scan cs (suc i) (if replaces c oldest then i else at)
          (if replaces c oldest then c else oldest)

  -- The loop from the first entry, `oldest = &entries[0]`.
  unfoldable pub choose : List A → Choice
  choose [] = evict 0
  choose (c ∷ cs) = scan (c ∷ cs) 0 0 c

-- The entry that the caller goes on with: the one that matched, or a fresh one in the slot.
abbrev pub entry_at {ℓ} : {A : Type ℓ} → Choice → List A → A → A
entry_at (found i) t fresh = get_or t i fresh
entry_at (evict i) t fresh = fresh
