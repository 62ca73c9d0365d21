-- ===== src/Abuse/Examples.antt =====
-- Runs of the abuse policy on two slots.
use ankah.Prelude.{
  ℕ, ◌*◌, ◌≡◌, refl, inl, inr, Bool, false, List, [], ◌∷◌, none, some, arith, Bytes, codes,
}
use ankah.Abuse.{
  Event, body_stall, scan, strict, second, Policy, blank, no_paths, hash_path, hash_loop, path_bits,
  bits_loop, mark_all, mark, is_ignored, is_pathless, abuse_record,
}
use ankah.Abuse.Signal.{IsValid, Fits, entry_of}
use ankah.Abuse.Measure.{Recorded}
use ankah.Abuse.Offence.{abuse_record-signal}
use ankah.Abuse.Upkeep.{abuse_record-IsValid}

abbrev an_ip : Bytes
an_ip = codes "192.0.2.1"

abbrev stalls : Event → List ℕ
stalls body_stall = 5 * second ∷ []
stalls _ = []

abbrev a_policy : Policy
a_policy = record {
  entries = record (blank an_ip) { seen_ns = 5 * second; times = stalls } ∷ blank [] ∷ [];
  profile = strict;
  signals = λ e. 0;
}

-- FNV-1a, folded to a byte; the query does not count.
test_hash_path : hash_path (codes "/a?x=1") ≡ hash_path (codes "/a")
unfolding hash_path hash_loop
test_hash_path = refl

test_path_bits : path_bits (mark_all no_paths (3 ∷ 255 ∷ 3 ∷ [])) 0 ≡ some 2
unfolding path_bits bits_loop mark_all mark
test_path_bits = refl

stalls-Fits : Fits (record (blank an_ip) { seen_ns = 5 * second; times = stalls })
stalls-Fits = record { bounded = λ v. ground arith; paired = refl; bytes = tt }

blank-Fits : Fits (blank [])
blank-Fits = record { bounded = λ v. ground arith; paired = refl; bytes = tt }

a_policy-IsValid : IsValid a_policy
a_policy-IsValid = record {
  slots = omega arith;
  separate = (inr (refl, tt), (inl refl, tt));
  fitting = (stalls-Fits, (blank-Fits, tt));
}

not_ignored : is_ignored a_policy an_ip ≡ false
unfolding is_ignored
not_ignored = refl

not_pathless : is_pathless body_stall none ≡ false
not_pathless = refl

abuse_record-signal_example :
    (r : Policy × Bool) × (abuse_record a_policy an_ip body_stall none (60 * second) ≡ some r)
    × Recorded strict body_stall [] (60 * second) (entry_of a_policy an_ip) (entry_of r.0 an_ip) r.1
abuse_record-signal_example =
    abuse_record-signal a_policy an_ip body_stall none (60 * second) a_policy-IsValid not_ignored
      not_pathless

abuse_record-IsValid_example :
    (r : Policy × Bool) × (abuse_record a_policy an_ip scan (some (codes "/a")) (60 * second)
      ≡ some r)
    × IsValid r.0
abuse_record-IsValid_example =
    abuse_record-IsValid a_policy an_ip scan (some (codes "/a")) (60 * second) a_policy-IsValid
