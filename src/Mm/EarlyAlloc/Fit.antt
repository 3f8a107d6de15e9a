-- ===== src/Mm/EarlyAlloc/Fit.antt =====
-- mm/early_alloc.cc: a block in which the allocation fits, and how it is split.
use davix.Prelude.{
  ℕ, ◌+◌, ◌-◌, ◌≤◌, ◌<◌, ◌≡◌, ◌⊎◌, inl, inr, refl, sym, false, ◌||◌, none, some, [], ◌∷◌, ltb, ◌==◌,
  if◌then◌else◌, arith, Bool-cases, ==→eq, ==→ne,
}
use davix.Prelude.Words.{word_mod, word_max, IsWord, add64, sub64}
use davix.Dsl.Align.{align_up}
use davix.Mm.EarlyAlloc.{Block, first_in, last_in, fit, front_of, tail_of}
use davix.Mm.EarlyAlloc.Cover.{has_byte, cover, IsBlock}

-- The place of an allocation in a block and the limits.
pub record Fits (size align low high : ℕ) (b : Block) (p : ℕ) : Type 0 where
  pub rounded : p ≡ align_up (first_in low b) align
  pub ge_addr : b.addr ≤ p
  pub ge_low : low ≤ p
  pub le_last : p + size ≤ last_in high b + 1

-- The last byte of a block.
pub last_in-lt :
    (high : ℕ) (b : Block)
    → IsBlock b
    → (last_in high b < b.addr + b.size) × (last_in high b ≤ high)
last_in-lt high b h = ground (arith, h.filled, h.inside)

-- The tests of the loop, of an aligned start and an end that are words.
checks :
    (start end start_aligned size p : ℕ)
    → 0 < start
    → IsWord end
    → (if ltb end start
        then none
        else if ltb end start_aligned || ltb start_aligned start
        then none
        else if ltb (add64 (sub64 end start_aligned) 1) size
        then none
        else some start_aligned)
      ≡ some p
    → (start_aligned ≡ p) × (start ≤ p) × (p + size ≤ end + 1)
checks start end start_aligned size p pos word e = elim (Bool-cases (ltb end start)) [
  | inl f ↦ absurd (ground (arith, e, f))
  | inr f ↦ elim (Bool-cases (ltb end start_aligned || ltb start_aligned start)) [
    | inl g ↦ absurd (ground (arith, e, f, g))
    | inr g ↦ elim (Bool-cases (ltb (add64 (sub64 end start_aligned) 1) size)) [
      | inl k ↦ absurd (ground (arith, e, f, g, k))
      | inr k ↦ ground (arith, e, f, g, k)
    ]
  ]
]

pub fit-Fits :
    (size align low high : ℕ) (b : Block) (p : ℕ)
    → IsBlock b
    → 0 < low
    → IsWord high
    → fit size align low high b ≡ some p
    → Fits size align low high b p
unfolding fit
fit-Fits size align low high b p h pos word e =
    let last = last_in-lt high b h in
    let c =
      checks (first_in low b) (last_in high b) (align_up (first_in low b) align) size p
        (ground (arith, pos)) (ground (arith, last, word)) e in
    record {
      rounded = sym c.0;
      ge_addr = ground (arith, c);
      ge_low = ground (arith, c);
      le_last = c.2;
    }

tail_of-exact :
    (size high p : ℕ) (b : Block)
    → p + size ≡ last_in high b + 1
    → last_in high b < word_mod
    → tail_of size high p b ≡ record { addr = add64 p size; size = word_max } ∷ []
tail_of-exact size high p b e lt =
    let apart : (add64 p size == last_in high b) ≡ false = ground (arith, e, lt) in
    let all : sub64 (last_in high b) (add64 p size) ≡ word_max = ground (arith, e, lt) in
    rw (apart, all) refl

tail-cover :
    (size high p x : ℕ) (b : Block)
    → p + size ≤ last_in high b
    → last_in high b < word_mod
    → cover (tail_of size high p b) x ≤ has_byte (p + size) (last_in high b - (p + size)) x
tail-cover size high p x b le lt = elim (Bool-cases (add64 p size == last_in high b)) [
  | inl e ↦ rw e (omega arith)
  | inr e ↦
      let at_end : add64 p size ≡ p + size = omega (arith, le, lt) in
      let left : sub64 (last_in high b) (p + size) ≡ last_in high b - (p + size) =
        omega (arith, le, lt) in
      rw (e, at_end, left) (omega arith)
]

front-cover :
    (low p x : ℕ) (b : Block)
    → first_in low b ≤ p
    → p < word_mod
    → cover (front_of low p b) x ≤ has_byte b.addr (p - first_in low b) x
front-cover low p x b le lt = elim (Bool-cases (p == first_in low b)) [
  | inl e ↦ rw e (omega arith)
  | inr e ↦
      let left : sub64 p (first_in low b) ≡ p - first_in low b = ground (arith, le, lt) in
      rw (e, left) (omega arith)
]

-- The three parts of a block do not overlap.
parts-cover :
    (addr size n front p last x : ℕ)
    → addr + front ≤ p
    → p + size ≤ last
    → last < addr + n
    → has_byte (p + size) (last - (p + size)) x + has_byte addr front x + has_byte p size x
      ≤ has_byte addr n x
parts-cover addr size n front p last x h k l = ground (arith, h, k, l)

-- Where the allocation ends with the block, a block of 2^64 - 1 bytes is made; otherwise no byte is in more of the
-- allocation and the blocks that are left than it was in the block.
pub split-cover :
    (size align low high : ℕ) (b : Block) (p : ℕ)
    → IsBlock b
    → IsWord high
    → 0 < size
    → Fits size align low high b p
    → ((p + size ≡ last_in high b + 1)
        × (tail_of size high p b ≡ record { addr = add64 p size; size = word_max } ∷ []))
      ⊎ ((x : ℕ)
          → cover (tail_of size high p b) x + cover (front_of low p b) x + has_byte p size x
            ≤ has_byte b.addr b.size x)
split-cover size align low high b p h word pos f =
    let last = last_in-lt high b h in
    elim (Bool-cases ((p + size) == (last_in high b + 1))) [
      | inl e ↦
          let same = ==→eq (p + size) (last_in high b + 1) e in
          inl (same, tail_of-exact size high p b same (omega (arith, last, h.inside)))
      | inr e ↦ inr (λ x.
          let inside : p + size ≤ last_in high b =
            omega (arith, ==→ne (p + size) (last_in high b + 1) e, f.le_last) in
          omega (
            arith,
            tail-cover size high p x b inside (omega (arith, last, h.inside)),
            front-cover low p x b (ground (arith, f.ge_addr, f.ge_low))
                (omega (arith, last, h.inside, inside, pos)),
            parts-cover b.addr size b.size (p - first_in low b) p (last_in high b) x
                (ground (arith, f.ge_addr, f.ge_low)) inside last.0,
          ))
    ]
