-- ===== src/Mm/EarlyAlloc/Room.antt =====
-- mm/early_alloc.cc: an allocation is found when a block has room for it.
use davix.Prelude.{
  ℕ, zero, suc, ◌+◌, ◌*◌, ◌/◌, ◌%◌, ◌^◌, ◌≤◌, ◌<◌, ◌≡◌, ◌≢◌, inl, inr, refl, sym, ap, ◌∙◌, Option,
  none, some, List, [], ◌∷◌, max, ◌==◌, false, arith, All,
}
use davix.Prelude.Words.{IsWord, add64}
use davix.Dsl.Align.{align_up}
use davix.Dsl.Align.Laws.{align_up_lem, align_down_lem, align_up_least, pow-add, pow_pos}
use davix.Mm.EarlyAlloc.{
  Block, minalign, first_in, last_in, fit, Found, split_or, find_block, give, low_limit, high_limit,
  early_alloc_phys_range,
}
use davix.Mm.EarlyAlloc.Cover.{IsBlock}
use davix.Mm.EarlyAlloc.Fit.{fit-Fits}
use davix.Mm.EarlyAlloc.Place.{Any}

-- The block has room at `p`, within the limits, for an allocation that is rounded up to units of 32 bytes: `p` is
-- aligned, also to a unit, and is not in the first unit of the address space.
pub record IsRoom (size k low high : ℕ) (b : Block) (p : ℕ) : Type 0 where
  pub aligned : p % 2 ^ k ≡ 0
  pub unit_aligned : p % 32 ≡ 0
  pub ge_low : low ≤ p
  pub ge_unit : 32 ≤ p
  pub ge_addr : b.addr ≤ p
  pub in_block : p + (size + 31) / 32 * 32 ≤ b.addr + b.size
  pub le_high : p + (size + 31) / 32 * 32 ≤ high + 1

abbrev pub HasRoom : ℕ → ℕ → ℕ → ℕ → List Block → Type 0
HasRoom size k low high = Any (λ b. (p : ℕ) × IsRoom size k low high b p)

-- The alignment that is used is a power of two.
pub record IsPow (k j : ℕ) : Type 0 where
  pub small : j < 64
  pub same : max (2 ^ k) minalign ≡ 2 ^ j
  pub kept : (p : ℕ) → p % 2 ^ k ≡ 0 → p % 32 ≡ 0 → p % 2 ^ j ≡ 0
  pub units : (i : ℕ) × (2 ^ j ≡ 32 * 2 ^ i)

five-IsPow : (k : ℕ) → 2 ^ k ≤ 32 → IsPow k 5
five-IsPow k le = record {
  small = omega arith;
  same = omega (arith, le);
  kept = λ p e f. f;
  units = (0, omega arith);
}

pub max-IsPow : (k : ℕ) → k < 64 → (j : ℕ) × IsPow k j
max-IsPow zero h = (5, five-IsPow 0 (omega arith))
max-IsPow (suc zero) h = (5, five-IsPow 1 (omega arith))
max-IsPow (suc (suc zero)) h = (5, five-IsPow 2 (omega arith))
max-IsPow (suc (suc (suc zero))) h = (5, five-IsPow 3 (omega arith))
max-IsPow (suc (suc (suc (suc zero)))) h = (5, five-IsPow 4 (omega arith))
max-IsPow (suc (suc (suc (suc (suc i))))) h =
    let scaled : 2 ^ 5 * 2 ^ i ≡ 2 ^ (5 + i) = pow-add 5 i in
    let shape : 5 + i ≡ suc (suc (suc (suc (suc i)))) = omega arith in
    let units : 2 ^ (suc (suc (suc (suc (suc i))))) ≡ 32 * 2 ^ i =
      omega (arith, (rw shape at scaled)) in
    (
      suc (suc (suc (suc (suc i)))),
      record {
        small = h;
        same = omega (arith, pow_pos i, units);
        kept = λ p e f. e;
        units = (i, units);
      },
    )

-- The tests of the loop, of an aligned start that is not behind `p`.
fits :
    (size align low high p : ℕ) (b : Block)
    → 0 < low
    → 0 < size
    → IsBlock b
    → IsWord high
    → first_in low b ≤ p
    → p + size ≤ last_in high b + 1
    → first_in low b ≤ align_up (first_in low b) align
    → align_up (first_in low b) align ≤ p
    → fit size align low high b ≡ some (align_up (first_in low b) align)
unfolding fit
fits size align low high p b pos filled h word ge le up least =
    let a = align_up (first_in low b) align in
    ground (arith, pos, filled, h.filled, h.inside, ge, le, up, least)

-- A block is found, at an address that is not 0.
abbrev IsFoundIn : Option Found → Type 0
IsFoundIn found = (f : Found) × (found ≡ some f) × (0 < f.start)

module _ (size align low high : ℕ) (b : Block) (blocks : List Block) where
  found_here :
      (here : Option ℕ) (rest : Option Found) (p : ℕ)
      → here ≡ some p
      → 0 < p
      → IsFoundIn (split_or size low high b blocks here rest)
  found_here none rest p e pos = absurd cc
  found_here (some q) rest p e pos = let same : q ≡ p = cc in (_, refl, omega (arith, same, pos))

  found_later :
      (here : Option ℕ) (rest : Option Found)
      → ((p : ℕ) → here ≡ some p → 0 < p)
      → IsFoundIn rest
      → IsFoundIn (split_or size low high b blocks here rest)
  found_later (some q) rest pos later = (_, refl, pos q refl)
  found_later none none pos (f, e, ge) = absurd cc
  found_later none (some g) pos (f, e, ge) = let same : g ≡ f = cc in (_, refl, rw same ge)

module _ (size k low high : ℕ) (small : k < 64) (filled : 0 < size) where
  -- The limits that are used have room where the given ones have.
  limits :
      (b : Block) (p : ℕ)
      → IsWord low
      → IsWord high
      → IsBlock b
      → IsRoom size k low high b p
      → (0 < low_limit low)
        × (low_limit low ≤ p)
        × (align_up size 32 ≡ (size + 31) / 32 * 32)
        × (p + (size + 31) / 32 * 32 ≤ high_limit high + 1)
        × IsWord (high_limit high)
  limits b p wl wh h r =
      let up =
        align_up_least 5 (max low 32) p (omega arith) (ground (arith, filled, h.inside, r.in_block))
          (omega (arith, r.ge_low, r.ge_unit)) r.unit_aligned in
      (
        omega (arith, up),
        up.2,
        ground (arith, align_up_lem 5 size (omega arith), filled, h.inside, r.in_block, r.ge_unit),
        ground (
          arith,
          align_down_lem 5 (add64 high 1) (omega arith) (omega arith),
          wh,
          r.le_high,
          r.unit_aligned,
          r.ge_unit,
        ),
        omega arith,
      )

  fit_found :
      (b : Block) (p : ℕ)
      → IsWord low
      → IsWord high
      → IsBlock b
      → IsRoom size k low high b p
      → (q : ℕ) × (fit
            (align_up size minalign)
            (max (2 ^ k) minalign)
            (low_limit low)
            (high_limit high)
            b
          ≡ some q)
        × (0 < q)
  fit_found b p wl wh h r =
      let (pos, le_low, rounded, le_high, word) = limits b p wl wh h r in
      let (j, pow) = max-IsPow k small in
      let ge : first_in (low_limit low) b ≤ p = omega (arith, le_low, r.ge_addr) in
      let least =
        align_up_least j (first_in (low_limit low) b) p pow.small
          (ground (arith, filled, h.inside, r.in_block)) ge (pow.kept p r.aligned r.unit_aligned) in
      rw pow.same (
        (
          align_up (first_in (low_limit low) b) (2 ^ j),
          fits (align_up size minalign) (2 ^ j) (low_limit low) (high_limit high) p b pos
              (omega (arith, rounded, filled)) h word ge
              (rw rounded (ground (arith, h.filled, h.inside, r.in_block, le_high, filled))) least.0
              least.2,
          omega (arith, pos, least.0),
        ))

  find_block_found :
      (blocks : List Block)
      → IsWord low
      → IsWord high
      → 0 < low_limit low
      → IsWord (high_limit high)
      → All IsBlock blocks
      → HasRoom size k low high blocks
      → IsFoundIn (
          find_block
            (align_up size minalign)
            (max (2 ^ k) minalign)
            (low_limit low)
            (high_limit high)
            blocks)
  unfolding find_block
  find_block_found [] wl wh pos word h room = absurd room
  find_block_found (b ∷ blocks) wl wh pos word h (inl (p, r)) =
      let (q, e, ge) = fit_found b p wl wh h.0 r in
      found_here (align_up size minalign) (max (2 ^ k) minalign) (low_limit low) (high_limit high) b
        blocks _ _ q e ge
  find_block_found (b ∷ blocks) wl wh pos word h (inr later) =
      found_later (align_up size minalign) (max (2 ^ k) minalign) (low_limit low) (high_limit high)
        b blocks _ _
        (λ q e. omega (
          arith,
          pos,
          (fit-Fits (align_up size minalign) (max (2 ^ k) minalign) (low_limit low)
              (high_limit high) b q h.0 pos word e).ge_low,
        ))
        (find_block_found blocks wl wh pos word h.1 later)

  -- What a place that has room shows of the limits.
  room_usable :
      (blocks : List Block)
      → IsWord low
      → IsWord high
      → All IsBlock blocks
      → HasRoom size k low high blocks
      → (0 < low_limit low) × (0 < align_up size minalign) × IsWord (high_limit high)
  room_usable [] wl wh h room = absurd room
  room_usable (b ∷ blocks) wl wh h (inl (p, r)) =
      let (pos, le_low, rounded, le_high, word) = limits b p wl wh h.0 r in
      (pos, omega (arith, rounded, filled), word)
  room_usable (b ∷ blocks) wl wh h (inr later) = room_usable blocks wl wh h.1 later

  give_found :
      (blocks : List Block) (found : Option Found) → IsFoundIn found → (give blocks found).0 ≢ 0
  give_found blocks found (f, e, pos) zero_start =
      absurd (omega (arith, pos, ap (λ o. (give blocks o).0) (sym e) ∙ zero_start))

  -- An allocator that finds room gives an address.
  pub early_alloc_phys_range_found :
      (blocks : List Block)
      → IsWord low
      → IsWord high
      → All IsBlock blocks
      → HasRoom size k low high blocks
      → (early_alloc_phys_range size (2 ^ k) low high blocks).0 ≢ 0
  unfolding early_alloc_phys_range
  early_alloc_phys_range_found blocks wl wh h room =
      let (pos, filled_up, word) = room_usable blocks wl wh h room in
      let low_ok : (low_limit low == 0) ≡ false = ground (arith, pos) in
      let size_ok : (align_up size minalign == 0) ≡ false = ground (arith, filled_up) in
      rw (low_ok, size_ok) (give_found blocks _ (find_block_found blocks wl wh pos word h room))
