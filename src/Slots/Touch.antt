-- ===== src/Slots/Touch.antt =====
-- One use of a table of addresses: choose a slot for `ip`, then write an entry of `ip` into it.
use mathlib.Core.Option
use ankah.Prelude.{
  ℕ, zero, suc, ◌≤◌, ◌<◌, ◌≡◌, refl, sym, ◌∙◌, ◌≢◌, inl, inr, Bool, List, [], ◌∷◌, none, some,
  if◌then◌else◌, get_elem?, get_or, set, length, All, Bool-cases, Bytes, str_eq, str_eq_iff,
  str_eq_refl, str_eq_ne,
}
use ankah.Slots.{Choice, found, evict, index, choose, entry_at}
use ankah.Slots.Victim.{Ranked, Chosen, Chosen-slot, choose-Chosen}
use ankah.Slots.Keyed.{
  lookup, Distinct, FreeBut, FreeBut-of_Absent, FreeBut-of_Distinct, lookup_of_Absent, lookup-set,
  Distinct-set, lookup_of_get_elem?,
}

get_or-get_elem? {ℓ} :
    {A : Type ℓ} (t : List A) (i : ℕ) (d a : A) → get_elem? t i ≡ some a → get_or t i d ≡ a
get_or-get_elem? [] i d a e = cc
get_or-get_elem? (x ∷ t) zero d a e = cc
get_or-get_elem? (x ∷ t) (suc i) d a e = get_or-get_elem? t i d a e

-- What became of another address `k`: nothing, or its entry `a`, of the least rank, was evicted
-- for an address that had no entry.
pub data Fate {ℓ} {A : Type ℓ} (key : A → Bytes) (rank : A → ℕ) (t t' : List A) (ip k : Bytes)
    : Type ℓ where
  kept : lookup key t' k ≡ lookup key t k → Fate key rank t t' ip k
  evicted :
      (a : A)
      → lookup key t ip ≡ none
      → lookup key t k ≡ some a
      → All (λ c. rank a ≤ rank c) t
      → lookup key t' k ≡ none
      → Fate key rank t t' ip k

module _ {ℓ} {A : Type ℓ} (key : A → Bytes) (replaces : A → A → Bool) (rank : A → ℕ)
    (ranked : Ranked replaces rank) (t : List A) (ip : Bytes) (ne : ip ≢ []) (d : Distinct key t)
    (some_slot : 0 < length t) where
  abbrev pub slot : Choice
  slot = choose (λ c. str_eq (key c) ip) replaces t

  chosen : Chosen (λ c. str_eq (key c) ip) rank t slot
  chosen = choose-Chosen (λ c. str_eq (key c) ip) replaces rank ranked t some_slot

  FreeBut-of_Chosen :
      (c : Choice) → Chosen (λ x. str_eq (key x) ip) rank t c → FreeBut key (index c) ip t
  FreeBut-of_Chosen (found i) (a, e, m) =
      FreeBut-of_Distinct key i ip t ne d e ((str_eq_iff (key a) ip).0 m)
  FreeBut-of_Chosen (evict i) (a, e, miss, _) = FreeBut-of_Absent key i ip t miss

  entry_of_Chosen :
      (c : Choice) (fresh : A)
      → Chosen (λ x. str_eq (key x) ip) rank t c
      → entry_at c t fresh ≡ Option.get_or (lookup key t ip) fresh
  entry_of_Chosen (found i) fresh (a, e, m) =
      rw (lookup_of_get_elem? key t i ip ne d e ((str_eq_iff (key a) ip).0 m))
        (get_or-get_elem? t i fresh a e)
  entry_of_Chosen (evict i) fresh (a, e, miss, _) = rw (lookup_of_Absent key ip t miss)

  -- The caller goes on with the entry of `ip`, or with a fresh one if it has none.
  pub entry_at-lookup : (fresh : A) → entry_at slot t fresh ≡ Option.get_or (lookup key t ip) fresh
  entry_at-lookup fresh = entry_of_Chosen slot fresh chosen

  module _ (b : A) (named : key b ≡ ip) where
    pub touch-Distinct : Distinct key (set t (index slot) b)
    touch-Distinct = Distinct-set key b (index slot) t d (rw named (FreeBut-of_Chosen slot chosen))

    pub touch-lookup_self : lookup key (set t (index slot) b) ip ≡ some b
    touch-lookup_self =
        let (a, e) = Chosen-slot _ rank t slot chosen in
        lookup-set key b (index slot) t ip ne d (rw named (FreeBut-of_Chosen slot chosen)) e
        ∙ rw (named, str_eq_refl ip)

    module _ (k : Bytes) (nk : k ≢ []) (other : k ≢ ip) where
      Fate-of_Chosen :
          (c : Choice)
          → Chosen (λ x. str_eq (key x) ip) rank t c
          → Fate key rank t (set t (index c) b) ip k
      Fate-of_Chosen (found i) h =
          let holds = (str_eq_iff (key h.0) ip).0 h.2 in
          kept (
            lookup-set key b i t k nk d (rw named (FreeBut-of_Chosen (found i) h)) h.1
            ∙ rw (named, holds, str_eq_ne ip k (λ p. other (sym p))))
      Fate-of_Chosen (evict i) h =
          let written : lookup key (set t i b) k
              ≡ (if str_eq (key h.0) k then none else lookup key t k) =
            lookup-set key b i t k nk d (rw named (FreeBut-of_Chosen (evict i) h)) h.1
            ∙ rw (named, str_eq_ne ip k (λ p. other (sym p))) refl in
          elim (Bool-cases (str_eq (key h.0) k)) [
            | inl hit ↦
                evicted h.0 (lookup_of_Absent key ip t h.2)
                  (lookup_of_get_elem? key t i k nk d h.1 ((str_eq_iff (key h.0) k).0 hit)) h.3
                  (written ∙ rw hit)
            | inr miss ↦ kept (written ∙ rw miss)
          ]

      pub touch-Fate : Fate key rank t (set t (index slot) b) ip k
      touch-Fate = Fate-of_Chosen slot chosen
