-- ===== src/Prelude/Words.antt =====
-- `uintptr_t` and `size_t` on x86-64: 64 bits, with the wrap-around written out.
use Prim.Native.Nat.{ℕ, ◌+◌, ◌-◌, ◌*◌, ◌%◌, ◌^◌, ◌<◌}

abbrev pub word_mod : ℕ
word_mod = 2 ^ 64

-- UINTPTR_MAX
abbrev pub word_max : ℕ
word_max = 2 ^ 64 - 1

abbrev pub add64 : ℕ → ℕ → ℕ
add64 a b = (a + b) % word_mod

abbrev pub sub64 : ℕ → ℕ → ℕ
sub64 a b = (a + word_mod - b) % word_mod

abbrev pub mul64 : ℕ → ℕ → ℕ
mul64 a b = a * b % word_mod

-- `~a`
abbrev pub not64 : ℕ → ℕ
not64 a = word_max - a

abbrev pub IsWord : ℕ → Type 0
IsWord a = a < word_mod
