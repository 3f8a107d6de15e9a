-- ===== src/Mm/EarlyAlloc/Free.antt =====
-- mm/early_alloc.cc: `early_free_phys`.
use davix.Prelude.{
  ℕ, ◌+◌, ◌-◌, ◌*◌, ◌/◌, ◌≤◌, ◌<◌, ◌≡◌, ◌⊎◌, inl, inr, refl, true, false, ◌&&◌, List, max, leb, ltb,
  ◌==◌, if◌then◌else◌, arith, Bool-cases, ltb→lt, All,
}
use davix.Prelude.Words.{word_mod, IsWord, add64, sub64}
use davix.Dsl.Align.{align_up, align_down}
use davix.Dsl.Align.Laws.{align_up_lem, align_down_lem}
use davix.Mm.EarlyAlloc.{Block, minalign, early_free_phys}
use davix.Mm.EarlyAlloc.Cover.{has_byte, cover, IsBlock}

-- Whether the unit of 32 bytes of the byte `x` lies in the memory, and is not the one at the address 0.
abbrev pub has_unit : ℕ → ℕ → ℕ → ℕ
has_unit addr size x =
    if leb (max addr 32) (x / 32 * 32) && leb (x / 32 * 32 + 32) (addr + size) then 1 else 0

-- The first unit, unless there is none in the address space.
first_unit :
    (addr : ℕ)
    → IsWord addr
    → ((align_up (max addr 32) 32 ≡ (max addr 32 + 31) / 32 * 32)
        × ((max addr 32 + 31) / 32 * 32 < word_mod))
      ⊎ ((align_up (max addr 32) 32 ≡ 0) × (word_mod < addr + 32))
first_unit addr word = elim (Bool-cases (ltb (max addr 32 + 31) word_mod)) [
  | inl e ↦ inl (
    omega (arith, align_up_lem 5 (max addr 32) (omega arith), ltb→lt (max addr 32 + 31) word_mod e),
    omega (arith, ltb→lt (max addr 32 + 31) word_mod e),
  )
  | inr e ↦
      inr (
        ground (arith, align_up_lem 5 (max addr 32) (omega arith), e, word),
        ground (arith, e, word),
      )
]

module _ (addr size skipped x : ℕ) (pos : 0 < size) (word : IsWord size)
    (inside : addr + size ≤ word_mod) (s : skipped ≡ sub64 (align_up (max addr 32) 32) addr) where
  -- The memory ends before the first unit.
  nothing_left : leb size skipped ≡ true → has_unit addr size x ≡ 0
  nothing_left e = elim (first_unit addr (omega (arith, pos, inside))) [
    | inl f ↦ ground (arith, f, s, e, inside)
    | inr f ↦ ground (arith, f, s, e, inside)
  ]

  -- The bytes of the units from the first on.
  units_left :
      leb size skipped ≡ false
      → (add64 addr skipped ≡ addr + skipped)
        × (skipped < size)
        × (align_down (size - skipped) 32 ≤ size - skipped)
        × (has_byte (addr + skipped) (align_down (size - skipped) 32) x ≡ has_unit addr size x)
  units_left e =
      let lt : skipped < size = ground (arith, e) in
      let down = align_down_lem 5 (size - skipped) (omega arith) (omega (arith, word)) in
      elim (first_unit addr (omega (arith, pos, inside))) [
        | inl f ↦
            let up : addr + skipped ≡ (max addr 32 + 31) / 32 * 32 = ground (arith, f, s, inside) in
            (
              omega (arith, lt, inside),
              lt,
              omega (arith, down),
              rw (up, down) (ground (arith, up, lt)),
            )
        | inr f ↦ absurd (ground (arith, f, s, e, inside))
      ]

-- The free list has exactly the whole units of the memory in addition, each once.
pub record IsFreed (addr size : ℕ) (free_list after : List Block) : Type 0 where
  pub blocks_ok : All IsBlock after
  pub covered : (x : ℕ) → cover after x ≡ cover free_list x + has_unit addr size x

-- For memory that is not empty and lies in the address space, and a free list of blocks that are not empty and lie in it:
-- `early_free_phys` gives a list of such blocks, and a byte is in exactly one more block when the aligned unit of 32 bytes
-- around it lies in the memory and not at the address 0, and in as many blocks as before otherwise. So the memory is
-- freed but for the parts of a unit at its two ends.
pub early_free_phys-IsFreed :
    (addr size : ℕ) (free_list : List Block)
    → 0 < size
    → IsWord size
    → addr + size ≤ word_mod
    → All IsBlock free_list
    → IsFreed addr size free_list (early_free_phys addr size free_list)
unfolding early_free_phys
early_free_phys-IsFreed addr size free_list pos word inside h =
    let skipped = sub64 (align_up (max addr minalign) minalign) addr in
    elim (Bool-cases (leb size skipped)) [
      | inl e ↦ rw e (record {
        blocks_ok = h;
        covered = λ x. omega (arith, nothing_left addr size skipped x pos word inside refl e);
      })
      | inr e ↦
          let left = λ (x : ℕ). units_left addr size skipped x pos word inside refl e in
          let (same, some_left, le, at_zero) = left 0 in
          elim (Bool-cases (align_down (size - skipped) minalign == 0)) [
            | inl f ↦
                rw (e, f) (record { blocks_ok = h; covered = λ x. ground (arith, (left x).3, f) })
            | inr f ↦
                rw (e, f, same)
                  (record {
                    blocks_ok = (
                      record {
                        filled = ground (arith, f);
                        inside = omega (arith, le, inside, some_left);
                      },
                      h,
                    );
                    covered = λ x. omega (arith, (left x).3);
                  })
          ]
    ]
