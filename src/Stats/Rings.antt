-- ===== src/Stats/Rings.antt =====
-- A ring holds the latest rows, in order.
use mathlib.Core.Option
use native.Mathlib.Nat.{mod-eq_of_lt, mod-eq-sub-mod, mod_self}
use ankah.Prelude.{
  ℕ, zero, suc, ◌+◌, ◌-◌, ◌%◌, ◌≤◌, ◌<◌, ◌≡◌, ◌≢◌, refl, sym, ap, ap₂, ◌∙◌, inl, inr, true, false,
  List, [], ◌∷◌, ◌++◌, none, some, arith, ltb, leb, ◌==◌, if◌then◌else◌, Bool-cases, length,
  length-set, get_or-set_self, get_or-set_ne, get_elem?, get_or, set,
}
use ankah.Stats.{Row, empty, Ring, ring_push, ring_age, aged, contents}

pub record IsRing (ring : Ring) : Type 0 where
  pub room : 0 < ring.capacity
  pub full_size : length ring.rows ≡ ring.capacity
  pub placed : ring.head < ring.capacity
  pub counted : ring.count ≤ ring.capacity

-- The place of the row of an age, without the remainder.
abbrev pub place : ℕ → ℕ → ℕ → ℕ
place head capacity age = if ltb age head then head - 1 - age else head + capacity - 1 - age

pub place_lem :
    (head capacity age : ℕ)
    → head < capacity
    → age < capacity
    → (head + capacity - 1 - age) % capacity ≡ place head capacity age
place_lem head capacity age h a = elim (Bool-cases (ltb age head)) [
  | inl before ↦
      let over : capacity ≤ head + capacity - 1 - age = ground arith in
      let left : head + capacity - 1 - age - capacity ≡ head - 1 - age = ground arith in
      mod-eq-sub-mod over ∙ rw (before, left) (mod-eq_of_lt (ground arith))
  | inr beyond ↦ rw beyond (mod-eq_of_lt (ground arith))
]

next_lem :
    (head capacity : ℕ)
    → head < capacity
    → (head + 1) % capacity ≡ (if suc head == capacity then 0 else suc head)
next_lem head capacity h = elim (Bool-cases (suc head == capacity)) [
  | inl last ↦ let end : head + 1 ≡ capacity = ground arith in rw (last, end) (mod_self capacity)
  | inr more ↦ rw more (mod-eq_of_lt (ground arith) ∙ omega arith)
]

abbrev aged_row : Ring → ℕ → Row
aged_row ring age = get_or ring.rows ((ring.head + ring.capacity - 1 - age) % ring.capacity) empty

get_or-get_elem? :
    (rows : List Row) (i : ℕ) → Option.get_or (get_elem? rows i) empty ≡ get_or rows i empty
get_or-get_elem? [] i = refl
get_or-get_elem? (row ∷ rows) zero = refl
get_or-get_elem? (row ∷ rows) (suc i) = get_or-get_elem? rows i

-- The rows of the first ages, whatever the count.
aged_rows : Ring → ℕ → List Row
aged_rows ring zero = []
aged_rows ring (suc age) = aged_row ring age ∷ aged_rows ring age

aged-eq : (ring : Ring) (n : ℕ) → n ≤ ring.count → aged ring n ≡ aged_rows ring n
unfolding aged aged_rows ring_age
aged-eq ring zero le = refl
aged-eq ring (suc age) le =
    let held : leb ring.count age ≡ false = ground arith in
    rw (
      held,
      aged-eq ring age (omega arith),
      get_or-get_elem? ring.rows ((ring.head + ring.capacity - 1 - age) % ring.capacity),
    )

contents-eq : (ring : Ring) → contents ring ≡ aged_rows ring ring.count
contents-eq ring = aged-eq ring ring.count (omega arith)

pub length-aged : (ring : Ring) (n : ℕ) → length (aged ring n) ≡ n
unfolding aged
length-aged ring zero = refl
length-aged ring (suc n) = ap suc (length-aged ring n)

module _ (ring : Ring) (row : Row) (v : IsRing ring) where
  pub ring_push-IsRing : IsRing (ring_push ring row).0
  unfolding ring_push
  ring_push-IsRing = elim (Bool-cases (ring.count == ring.capacity)) [
    | inl full ↦ rw full (record {
      room = v.room;
      full_size = length-set ring.rows ring.head row ∙ v.full_size;
      placed = ground (arith, next_lem ring.head ring.capacity v.placed);
      counted = v.counted;
    })
    | inr more ↦ rw more (record {
      room = v.room;
      full_size = length-set ring.rows ring.head row ∙ v.full_size;
      placed = ground (arith, next_lem ring.head ring.capacity v.placed);
      counted = ground arith;
    })
  ]

  pushed : Ring
  pushed = (ring_push ring row).0

  push-rows : pushed.rows ≡ set ring.rows ring.head row
  unfolding pushed ring_push
  push-rows = ground arith

  push-head : pushed.head ≡ (if suc ring.head == ring.capacity then 0 else suc ring.head)
  unfolding pushed ring_push
  push-head = ground (arith, next_lem ring.head ring.capacity v.placed)

  push-capacity : pushed.capacity ≡ ring.capacity
  unfolding pushed ring_push
  push-capacity = ground arith

  place_pushed :
      (age : ℕ)
      → age < ring.capacity
      → (pushed.head + pushed.capacity - 1 - age) % pushed.capacity
        ≡ place pushed.head ring.capacity age
  place_pushed age lt =
      rw push-capacity (place_lem pushed.head ring.capacity age (ground (arith, push-head)) lt)

  place-zero : place pushed.head ring.capacity 0 ≡ ring.head
  place-zero = ground (arith, push-head)

  place-suc :
      (age : ℕ)
      → suc age < ring.capacity
      → place pushed.head ring.capacity (suc age) ≡ place ring.head ring.capacity age
  place-suc age lt = ground (arith, push-head)

  place-ne : (age : ℕ) → suc age < ring.capacity → ring.head ≢ place ring.head ring.capacity age
  place-ne age lt e = ground arith

  aged_row-push_zero : aged_row pushed 0 ≡ row
  aged_row-push_zero =
      rw (place_pushed 0 v.room, place-zero, push-rows)
        (get_or-set_self ring.rows ring.head row empty (omega (arith, v.full_size, v.placed)))

  aged_row-push_suc :
      (age : ℕ) → suc age < ring.capacity → aged_row pushed (suc age) ≡ aged_row ring age
  aged_row-push_suc age lt =
      rw
        (
          place_pushed (suc age) lt,
          place-suc age lt,
          push-rows,
          place_lem ring.head ring.capacity age v.placed (omega arith),
        )
        (get_or-set_ne ring.rows ring.head (place ring.head ring.capacity age) row empty
          (place-ne age lt))

  aged_rows-push :
      (n : ℕ) → n < ring.capacity → aged_rows pushed (suc n) ≡ aged_rows ring n ++ row ∷ []
  unfolding aged_rows
  aged_rows-push zero lt = rw aged_row-push_zero
  aged_rows-push (suc n) lt = ap₂ ◌∷◌ (aged_row-push_suc n lt) (aged_rows-push n (omega arith))

  push-count : pushed.count ≡ (if ring.count == ring.capacity then ring.count else suc ring.count)
  unfolding pushed ring_push
  push-count = ground arith

  push-displaced :
      (ring_push ring row).1
      ≡ (if ring.count == ring.capacity then some (get_or ring.rows ring.head empty) else none)
  unfolding ring_push
  push-displaced = ground arith

  contents-pushed :
      (n : ℕ)
      → n < ring.capacity
      → pushed.count ≡ suc n
      → contents pushed ≡ aged_rows ring n ++ row ∷ []
  contents-pushed n lt size = contents-eq pushed ∙ ap (aged_rows pushed) size ∙ aged_rows-push n lt

  pub ring_push-capacity : (ring_push ring row).0.capacity ≡ ring.capacity
  unfolding pushed
  ring_push-capacity = push-capacity

  -- A ring that is not full gets one more row.
  pub contents-push_room :
      ring.count < ring.capacity
      → (contents (ring_push ring row).0 ≡ contents ring ++ row ∷ [])
        × ((ring_push ring row).0.count ≡ suc ring.count)
        × ((ring_push ring row).1 ≡ none)
  unfolding pushed
  contents-push_room lt =
      let room : ring.count == ring.capacity ≡ false = ground arith in
      let size : pushed.count ≡ suc ring.count = push-count ∙ rw room in
      (
        contents-pushed ring.count lt size ∙ ap (λ rows. rows ++ row ∷ []) (sym (contents-eq ring)),
        size,
        push-displaced ∙ rw room,
      )

  -- A full ring gives up its oldest row.
  pub contents-push_full :
      ring.count ≡ ring.capacity
      → (old : Row) × (rest : List Row) × (contents ring ≡ old ∷ rest)
        × (contents (ring_push ring row).0 ≡ rest ++ row ∷ [])
        × ((ring_push ring row).0.count ≡ ring.count)
        × ((ring_push ring row).1 ≡ some old)
  unfolding pushed aged_rows
  contents-push_full full =
      let last : ℕ = ring.capacity - 1 in
      let whole : ring.count ≡ suc last = omega (arith, v.room) in
      let is_full : ring.count == ring.capacity ≡ true = ground arith in
      let size : pushed.count ≡ ring.count = push-count ∙ rw is_full in
      (
        aged_row ring last,
        aged_rows ring last,
        contents-eq ring ∙ ap (aged_rows ring) whole,
        contents-pushed last (omega (arith, v.room)) (size ∙ whole),
        size,
        push-displaced
            ∙ rw is_full (
                ap (λ i. some (get_or ring.rows i empty))
                  (sym (
                    place_lem ring.head ring.capacity last v.placed (omega (arith, v.room))
                    ∙ ground (arith, v.room)))),
      )
