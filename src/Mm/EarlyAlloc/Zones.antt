-- ===== src/Mm/EarlyAlloc/Zones.antt =====
-- mm/early_alloc.cc: the zones in which `early_alloc_phys` looks.
use davix.Prelude.{
  ℕ, zero, suc, ◌^◌, ◌≤◌, ◌<◌, ◌≡◌, ◌≢◌, ◌⊎◌, inl, inr, refl, ap, true, false, List, ◌==◌, arith,
  All,
}
use davix.Prelude.Words.{IsWord}
use davix.Mm.Zone.{zone_minaddr, zone_maxaddr, zone_has_fallback, fallback_zone, allocation_zone}
use davix.Mm.EarlyAlloc.{Block, early_alloc_phys_zone, alloc_from_zone, early_alloc_phys}
use davix.Mm.EarlyAlloc.Cover.{IsBlock}
use davix.Mm.EarlyAlloc.Place.{IsPlaced, IsServed, early_alloc_phys_range-IsServed}
use davix.Mm.EarlyAlloc.Given.{early_alloc_phys_range-HasRoom}
use davix.Mm.EarlyAlloc.Room.{HasRoom, early_alloc_phys_range_found}

zone_limits :
    (z : ℕ) → z < 3 → IsWord (zone_minaddr z) × IsWord (zone_maxaddr z) × (31 ≤ zone_maxaddr z)
unfolding zone_minaddr zone_maxaddr
zone_limits z h = ground arith

early_alloc_phys_zone-IsServed :
    (size k z : ℕ) (free_list : List Block)
    → k < 64
    → IsWord size
    → z < 3
    → All IsBlock free_list
    → IsServed size k
        (zone_minaddr z)
        (zone_maxaddr z)
        free_list
        (early_alloc_phys_zone size (2 ^ k) z free_list)
unfolding early_alloc_phys_zone
early_alloc_phys_zone-IsServed size k z free_list small ws zone h =
    let (low, high, large) = zone_limits z zone in
    early_alloc_phys_range-IsServed size k (zone_minaddr z) (zone_maxaddr z) free_list small ws low
      high large h

module _ (n size align z : ℕ) (free_list : List Block) where
  zone_failed :
      early_alloc_phys_zone size align z free_list ≡ (0, free_list)
      → zone_has_fallback z ≡ true
      → alloc_from_zone (suc n) size align z free_list
        ≡ alloc_from_zone n size align (fallback_zone z) free_list
  unfolding alloc_from_zone
  zone_failed e f = rw (e, f) refl

  last_failed :
      early_alloc_phys_zone size align z free_list ≡ (0, free_list)
      → zone_has_fallback z ≡ false
      → alloc_from_zone (suc n) size align z free_list ≡ (0, free_list)
  unfolding alloc_from_zone
  last_failed e f = rw (e, f) refl

  zone_found :
      (early_alloc_phys_zone size align z free_list).0 ≢ 0
      → alloc_from_zone (suc n) size align z free_list
        ≡ early_alloc_phys_zone size align z free_list
  unfolding alloc_from_zone
  zone_found ne =
      let found : ((early_alloc_phys_zone size align z free_list).0 == 0) ≡ false =
        ground (arith, ne) in
      rw found refl

-- The outcome: no zone has room, or the first that has gives an allocation.
abbrev pub IsFirst : ℕ → ℕ → List Block → ℕ × List Block → Type 0
IsFirst size k free_list r =
    ((r ≡ (0, free_list))
      × ((z : ℕ) → z < 3 → ¬ HasRoom size k (zone_minaddr z) (zone_maxaddr z) free_list))
    ⊎ ((z : ℕ) × (z < 3)
        × (r.0 ≢ 0)
        × IsPlaced size k (zone_minaddr z) (zone_maxaddr z) free_list r.0 r.1
        × HasRoom size k (zone_minaddr z) (zone_maxaddr z) free_list
        × ((w : ℕ) → w < z → ¬ HasRoom size k (zone_minaddr w) (zone_maxaddr w) free_list))

zone_failed-no_room :
    (size k z : ℕ) (free_list : List Block)
    → k < 64
    → 0 < size
    → z < 3
    → All IsBlock free_list
    → early_alloc_phys_zone size (2 ^ k) z free_list ≡ (0, free_list)
    → ¬ HasRoom size k (zone_minaddr z) (zone_maxaddr z) free_list
unfolding early_alloc_phys_zone
zone_failed-no_room size k z free_list small pos zone h e room =
    let (low, high, large) = zone_limits z zone in
    early_alloc_phys_range_found size k (zone_minaddr z) (zone_maxaddr z) small pos free_list low
      high h room (ap (λ r. r.0) e)

zone_found-HasRoom :
    (size k z : ℕ) (free_list : List Block)
    → k < 64
    → IsWord size
    → z < 3
    → All IsBlock free_list
    → (early_alloc_phys_zone size (2 ^ k) z free_list).0 ≢ 0
    → HasRoom size k (zone_minaddr z) (zone_maxaddr z) free_list
unfolding early_alloc_phys_zone
zone_found-HasRoom size k z free_list small ws zone h ne =
    let (low, high, large) = zone_limits z zone in
    early_alloc_phys_range-HasRoom size k (zone_minaddr z) (zone_maxaddr z) small ws low high large
      free_list h ne

below_one : (P : ℕ → Type 0) → P 0 → (w : ℕ) → w < 1 → P w
below_one P p zero h = p
below_one P p (suc w) h = absurd (omega (arith, h))

below_two : (P : ℕ → Type 0) → P 0 → P 1 → (w : ℕ) → w < 2 → P w
below_two P p q zero h = p
below_two P p q (suc zero) h = q
below_two P p q (suc (suc w)) h = absurd (omega (arith, h))

below_three : (P : ℕ → Type 0) → P 0 → P 1 → P 2 → (w : ℕ) → w < 3 → P w
below_three P p q r zero h = p
below_three P p q r (suc zero) h = q
below_three P p q r (suc (suc zero)) h = r
below_three P p q r (suc (suc (suc w))) h = absurd (omega (arith, h))

-- For blocks that are not empty and lie in the address space, an alignment `2 ^ k` with `k < 64` and a size that is a
-- word and not 0: of the three zones from the default one down, `early_alloc_phys` gives an allocation in the first that
-- has room, and when none has, it gives 0 and leaves the list as it was. A zone has room where, in some block, the
-- size, rounded up to 32 bytes, fits at an address of the zone that is not below 32 and is a multiple of the alignment
-- and of 32.
pub early_alloc_phys-IsFirst :
    (size k : ℕ) (free_list : List Block)
    → k < 64
    → IsWord size
    → 0 < size
    → All IsBlock free_list
    → IsFirst size k free_list (early_alloc_phys size (2 ^ k) free_list)
unfolding early_alloc_phys allocation_zone fallback_zone zone_has_fallback
early_alloc_phys-IsFirst size k free_list small ws pos h =
    let NoRoom : ℕ → Type 0 = λ z. ¬ HasRoom size k (zone_minaddr z) (zone_maxaddr z) free_list in
    let has_room =
      λ (z : ℕ) (zone : z < 3). zone_found-HasRoom size k z free_list small ws zone h in
    let no_room =
      λ (z : ℕ) (zone : z < 3). zone_failed-no_room size k z free_list small pos zone h in
    elim (early_alloc_phys_zone-IsServed size k 0 free_list small ws (omega arith) h) [
      | inr (ne, placed) ↦ rw (zone_found 2 size (2 ^ k) 0 free_list ne) (
          inr (
            0,
            omega arith,
            ne,
            placed,
            has_room 0 (omega arith) ne,
            λ w low. absurd (omega (arith, low)),
          ))
      | inl e0 ↦
          rw (zone_failed 2 size (2 ^ k) 0 free_list e0 refl)
            (elim (early_alloc_phys_zone-IsServed size k 1 free_list small ws (omega arith) h) [
              | inr (ne, placed) ↦ rw (zone_found 1 size (2 ^ k) 1 free_list ne) (
                  inr (
                    1,
                    omega arith,
                    ne,
                    placed,
                    has_room 1 (omega arith) ne,
                    below_one NoRoom (no_room 0 (omega arith) e0),
                  ))
              | inl e1 ↦
                  rw (zone_failed 1 size (2 ^ k) 1 free_list e1 refl)
                    (elim (early_alloc_phys_zone-IsServed size k 2 free_list small ws (omega arith)
                      h) [
                        | inr (ne, placed) ↦ rw (zone_found 0 size (2 ^ k) 2 free_list ne) (
                            inr (
                              2,
                              omega arith,
                              ne,
                              placed,
                              has_room 2 (omega arith) ne,
                              below_two NoRoom (no_room 0 (omega arith) e0)
                                  (no_room 1 (omega arith) e1),
                            ))
                        | inl e2 ↦ rw (last_failed 0 size (2 ^ k) 2 free_list e2 refl) (
                            inl (
                              refl,
                              below_three NoRoom (no_room 0 (omega arith) e0)
                                  (no_room 1 (omega arith) e1) (no_room 2 (omega arith) e2),
                            ))
                      ])
            ])
    ]
