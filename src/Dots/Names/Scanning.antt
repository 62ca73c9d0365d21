-- ===== src/Dots/Names/Scanning.antt =====
-- What the search for names returns.
use ankah.Prelude.{
  ℕ, zero, suc, ◌+◌, ◌≤◌, ◌<◌, ◌≡◌, refl, inl, inr, true, false, ◌||◌, List, [], ◌∷◌, ◌++◌, arith,
  Option, none, some, some-injective, >>=-eq-some, ltb, ◌==◌, length, length-drop, drop, all, All,
  Bytes, codes, subst, Bool-cases, Option-cases, is_empty,
}
use ankah.Dots.Names.{
  is_cuid_byte, valid_cuid, name_bytes, acl_name, skip_space, starts_with, until_quote, before_nul,
  accepted, scan_round, scan_loop, scan_names,
}

length-skip_space : (b : Bytes) → length (skip_space b) ≤ length b
unfolding skip_space
length-skip_space [] = omega arith
length-skip_space (c ∷ cs) = ground (arith, length-skip_space cs)

length-until_quote : (b : Bytes) → length (until_quote b).1 ≤ length b
unfolding until_quote
length-until_quote [] = omega arith
length-until_quote (c ∷ cs) = ground (arith, length-until_quote cs)

-- A round gets on.
length-scan_round :
    (prefix : Bytes) (c : ℕ) (cs : Bytes) → length (scan_round prefix c cs).1 ≤ length cs
unfolding scan_round
length-scan_round prefix c cs =
    let colon = skip_space (drop 5 cs) in
    let open_quote = skip_space (drop 1 colon) in
    ground (
      arith,
      length-drop 5 cs,
      length-skip_space (drop 5 cs),
      length-drop 1 colon,
      length-skip_space (drop 1 colon),
      length-drop 1 open_quote,
      length-until_quote (drop 1 open_quote),
      length-drop 1 (until_quote (drop 1 open_quote)).1,
    )

-- A name that is stored: it is a valid cuid and has the prefix.
abbrev pub IsFound : Bytes → Bytes → Type 0
IsFound prefix name = (valid_cuid name ≡ true) × (starts_with prefix name ≡ true)

abbrev pub NoNul : Bytes → Type 0
NoNul = All (λ c. (c == 0) ≡ false)

starts_with-before_nul :
    (prefix value : Bytes)
    → NoNul prefix
    → starts_with prefix value ≡ true
    → starts_with prefix (before_nul value) ≡ true
starts_with-before_nul [] value h e = refl
starts_with-before_nul (c ∷ cs) [] h e = cc
starts_with-before_nul (c ∷ cs) (d ∷ ds) h e = ground (arith, h.0, starts_with-before_nul cs ds h.1)

accepted-IsFound :
    (prefix value name : Bytes)
    → NoNul prefix
    → accepted prefix value ≡ some name
    → IsFound prefix name
unfolding accepted
accepted-IsFound prefix value name h e =
    let same : before_nul value ≡ name = ground arith in
    subst (IsFound prefix) same (ground arith, starts_with-before_nul prefix value h (ground arith))

scan_round-IsFound :
    (prefix : Bytes) (c : ℕ) (cs name : Bytes)
    → NoNul prefix
    → (scan_round prefix c cs).0 ≡ some name
    → IsFound prefix name
unfolding scan_round
scan_round-IsFound prefix c cs name h e =
    let value = (until_quote (drop 1 (skip_space (drop 1 (skip_space (drop 5 cs)))))).0 in
    ground (arith, accepted-IsFound prefix value name h)

-- Names enough, and each as it should be.
abbrev pub Found : Bytes → ℕ → Option (List Bytes) → Type 0
Found prefix max r =
    (names : List Bytes) × (r ≡ some names) × (length names ≤ max) × All (IsFound prefix) names

module _ (prefix : Bytes) (h : NoNul prefix) where
  Found-cons :
      (max : ℕ) (name : Bytes) (r : Option (List Bytes))
      → IsFound prefix name
      → Found prefix max r
      → Found prefix (suc max) (elim r [ none ↦ none | some names ↦ some (name ∷ names) ])
  Found-cons max name r ok (names, e, le, all) =
      (name ∷ names, rw e refl, omega (arith, le), (ok, all))

  scan_loop-Found :
      (fuel max : ℕ) (body : Bytes)
      → length body < fuel
      → Found prefix max (scan_loop fuel prefix max body)
  unfolding scan_loop
  scan_loop-Found zero max body lt = elim lt [ ]
  scan_loop-Found (suc fuel) zero body lt = ([], refl, omega arith, tt)
  scan_loop-Found (suc fuel) (suc max) [] lt = ([], refl, omega arith, tt)
  scan_loop-Found (suc fuel) (suc max) (c ∷ cs) lt =
      let shorter : length (scan_round prefix c cs).1 < fuel =
        omega (arith, length-scan_round prefix c cs) in
      elim (Bool-cases (ltb (length (c ∷ cs)) 6)) [
        | inl short ↦ rw (short, scan_loop) ([], refl, omega arith, tt)
        | inr long ↦ elim (Option-cases (scan_round prefix c cs).0) [
          | inl no_name ↦
              rw (long, scan_loop)
                (rw no_name (scan_loop-Found fuel (suc max) (scan_round prefix c cs).1 shorter))
          | inr (name, e) ↦
              rw (long, scan_loop)
                (rw e (
                  Found-cons max name (scan_loop fuel prefix max (scan_round prefix c cs).1)
                    (scan_round-IsFound prefix c cs name h e)
                    (scan_loop-Found fuel max (scan_round prefix c cs).1 shorter)))
        ]
      ]

-- The search of a reply for names ends, and stores at most `max` of them, each a valid cuid with the
-- prefix, for a prefix without NUL.
pub scan_names-Found :
    (body prefix : Bytes) (max : ℕ) → NoNul prefix → Found prefix max (scan_names body prefix max)
unfolding scan_names
scan_names-Found body prefix max h =
    scan_loop-Found prefix h (suc (length body)) max body (omega arith)

name_bytes-cuid :
    (ip bytes : Bytes)
    → name_bytes ip ≡ some bytes
    → (all is_cuid_byte bytes ≡ true) × (length bytes ≡ length ip)
unfolding name_bytes
name_bytes-cuid [] bytes = λ e.
    subst (λ b. (all is_cuid_byte b ≡ true) × (length b ≡ 0)) (some-injective [] bytes e)
      (refl, refl)
name_bytes-cuid (c ∷ cs) bytes = elim (Option-cases (name_bytes cs)) [
  | inl refused ↦ λ e. ground (arith, refused)
  | inr (ds, e') ↦ λ e. ground (arith, name_bytes-cuid cs ds e')
]

ankah-cuid :
    (bytes : Bytes)
    → all is_cuid_byte bytes ≡ true
    → length bytes < 58
    → valid_cuid (codes "ankah-" ++ bytes) ≡ true
unfolding valid_cuid
ankah-cuid bytes cuid short = ground arith

-- The name of an access list for an address of less than 58 bytes, if it has one: it fits the buffer
-- with its NUL, it is as long as the address and six bytes, and it is a valid cuid.
pub acl_name-valid_cuid :
    (ip : Bytes) (capacity : ℕ) (name : Bytes)
    → length ip < 58
    → acl_name ip capacity ≡ some name
    → (length name + 1 ≤ capacity) × (length name ≡ length ip + 6) × (valid_cuid name ≡ true)
unfolding acl_name
acl_name-valid_cuid ip capacity name short =
    elim (Bool-cases (is_empty ip || ltb capacity (length ip + 7))) [
      | inl refused ↦ rw refused (λ e. ground (arith, e))
      | inr fits ↦ rw fits (λ e.
          let (bytes, named, e') =
            >>=-eq-some (name_bytes ip) (λ bytes. some (codes "ankah-" ++ bytes)) e in
          let (cuid, size) = name_bytes-cuid ip bytes named in
          subst
            (λ name.
              (length name + 1 ≤ capacity)
              × (length name ≡ length ip + 6)
              × (valid_cuid name ≡ true))
            (some-injective (codes "ankah-" ++ bytes) name e')
            (
              ground (arith, size),
              omega (arith, size),
              ankah-cuid bytes cuid (omega (arith, size)),
            ))
    ]
