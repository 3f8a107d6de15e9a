-- ===== src/Mm/EarlyAlloc/Cover.antt =====
-- mm/early_alloc.cc: how many free blocks have a byte.
use davix.Prelude.{ℕ, ◌+◌, ◌≤◌, ◌<◌, ◌≡◌, ◌&&◌, List, [], ◌∷◌, ◌++◌, ltb, leb, if◌then◌else◌, arith}
use davix.Prelude.Words.{word_mod}
use davix.Mm.EarlyAlloc.{Block}

-- Whether the byte `x` is one of the `size` bytes at `addr`.
abbrev pub has_byte : ℕ → ℕ → ℕ → ℕ
has_byte addr size x = if leb addr x && ltb x (addr + size) then 1 else 0

abbrev pub cover : List Block → ℕ → ℕ
cover [] x = 0
cover (b ∷ blocks) x = has_byte b.addr b.size x + cover blocks x

pub cover-append : (cs bs : List Block) (x : ℕ) → cover (cs ++ bs) x ≡ cover cs x + cover bs x
cover-append [] bs x = omega arith
cover-append (b ∷ cs) bs x = omega (arith, cover-append cs bs x)

-- The block is not empty and lies in the address space.
pub record IsBlock (b : Block) : Type 0 where
  pub filled : 0 < b.size
  pub inside : b.addr + b.size ≤ word_mod
