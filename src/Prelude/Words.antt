-- ===== src/Prelude/Words.antt =====
-- Machine integers of an LP64 target: values are plain numbers, and a wrap is written out.
use Prim.Native.Nat.{ℕ, ◌+◌, ◌-◌, ◌*◌, ◌%◌, ◌^◌}

-- `uint64_t` and `size_t` wrap here.
abbrev pub word_mod : ℕ
word_mod = 2 ^ 64

abbrev pub size_max : ℕ
size_max = 2 ^ 64 - 1

abbrev pub add64 : ℕ → ℕ → ℕ
add64 a b = (a + b) % word_mod

abbrev pub sub64 : ℕ → ℕ → ℕ
sub64 a b = (a + word_mod - b) % word_mod

abbrev pub mul64 : ℕ → ℕ → ℕ
mul64 a b = (a * b) % word_mod
