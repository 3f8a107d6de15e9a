-- ===== src/Mm/EarlyAlloc/Given.antt =====
-- mm/early_alloc.cc: a block that gives an allocation has room for it.
use davix.Prelude.{
  ℕ, ◌+◌, ◌*◌, ◌/◌, ◌%◌, ◌^◌, ◌≤◌, ◌<◌, ◌≡◌, ◌≢◌, inl, inr, refl, Option, none, some, List, max,
  ◌==◌, arith, Bool-cases, ==→ne, All,
}
use davix.Prelude.Words.{IsWord}
use davix.Dsl.Align.{align_up}
use davix.Dsl.Align.Laws.{align_up_lem, align_up-mod, pow_pos}
use davix.Mm.EarlyAlloc.{
  Block, minalign, first_in, Found, give, low_limit, high_limit, early_alloc_phys_range,
}
use davix.Mm.EarlyAlloc.Cover.{IsBlock}
use davix.Mm.EarlyAlloc.Fit.{Fits, last_in-lt}
use davix.Mm.EarlyAlloc.Place.{
  Any-imp, find_block-IsFound, max-minalign, low_limit-le, high_limit-le,
}
use davix.Mm.EarlyAlloc.Room.{IsRoom, HasRoom, max-IsPow}

whole_units :
    (size : ℕ) → IsWord size → align_up size 32 ≢ 0 → align_up size 32 ≡ (size + 31) / 32 * 32
whole_units size w ne = ground (arith, align_up_lem 5 size (omega arith), w, ne)

mod_32 : (n m p : ℕ) → n ≡ 32 * m → 0 < m → p % n ≡ 0 → p % 32 ≡ 0
mod_32 n m p e pos whole =
    let multiple : p % (32 * m) ≡ 0 = rw e at whole in
    let shape : p ≡ 32 * (m * (p / (32 * m))) = grind (arith, pos, multiple) in omega (arith, shape)

module _ (size k low high : ℕ) (small : k < 64) (word : IsWord size) (wl : IsWord low)
    (wh : IsWord high) (large : 31 ≤ high) where
  unit_aligned : (v : ℕ) → align_up v (max (2 ^ k) minalign) % 32 ≡ 0
  unit_aligned v =
      let (j, pow) = max-IsPow k small in
      let (i, units) = pow.units in
      rw pow.same
        (mod_32 (2 ^ j) (2 ^ i) (align_up v (2 ^ j)) units (pow_pos i) (align_up-mod j v pow.small))

  Fits-IsRoom :
      (b : Block) (p : ℕ)
      → low_limit low ≢ 0
      → align_up size minalign ≢ 0
      → IsBlock b
      → Fits (align_up size minalign) (max (2 ^ k) minalign) (low_limit low) (high_limit high) b p
      → IsRoom size k low high b p
  Fits-IsRoom b p ne_low ne_size h f =
      let units = whole_units size word ne_size in
      let last = last_in-lt (high_limit high) b h in
      let le_low = low_limit-le low wl ne_low in
      let le_high = high_limit-le high wh large in
      let unit : 32 ≤ low_limit low =
        ground (arith, align_up_lem 5 (max low 32) (omega arith), ne_low) in
      record {
        aligned = rw f.rounded (max-minalign k (first_in (low_limit low) b) small);
        unit_aligned = rw f.rounded (unit_aligned (first_in (low_limit low) b));
        ge_low = omega (arith, le_low, f.ge_low);
        ge_unit = omega (arith, unit, f.ge_low);
        ge_addr = f.ge_addr;
        in_block = omega (arith, units, last, f.le_last);
        le_high = omega (arith, units, last, f.le_last, le_high);
      }

  give_room :
      (blocks : List Block) (found : Option Found)
      → ((f : Found) → found ≡ some f → HasRoom size k low high blocks)
      → (give blocks found).0 ≢ 0
      → HasRoom size k low high blocks
  give_room blocks none room ne = absurd (ne refl)
  give_room blocks (some f) room ne = room f refl

  pub early_alloc_phys_range-HasRoom :
      (blocks : List Block)
      → All IsBlock blocks
      → (early_alloc_phys_range size (2 ^ k) low high blocks).0 ≢ 0
      → HasRoom size k low high blocks
  unfolding early_alloc_phys_range
  early_alloc_phys_range-HasRoom blocks h = elim (Bool-cases (low_limit low == 0)) [
    | inl e ↦ rw e (λ ne. absurd (ne refl))
    | inr e ↦ elim (Bool-cases (align_up size minalign == 0)) [
      | inl g ↦ rw (e, g) (λ ne. absurd (ne refl))
      | inr g ↦
          let ne_low = ==→ne (low_limit low) 0 e in
          let ne_size = ==→ne (align_up size minalign) 0 g in
          let le_high = high_limit-le high wh large in
          rw (e, g)
            (give_room blocks _ (λ f same.
              Any-imp
                (λ b.
                  IsBlock b
                  × Fits (align_up size minalign) (max (2 ^ k) minalign) (low_limit low)
                      (high_limit high) b f.start)
                (λ b. (p : ℕ) × IsRoom size k low high b p)
                (λ b q. (f.start, Fits-IsRoom b f.start ne_low ne_size q.0 q.1)) blocks
                (find_block-IsFound (align_up size minalign) (max (2 ^ k) minalign) (low_limit low)
                  (high_limit high) (omega (arith, ne_size)) (omega (arith, ne_low))
                  (omega (arith, le_high, wh)) blocks f h same).fits))
    ]
  ]
