-- ===== src/Mm/EarlyAlloc.antt =====
-- mm/early_alloc.cc: the allocator of physical memory during start-up. A free block is its physical address
-- and its size; the code keeps both in the block itself. `virt_to_phys` and its inverse are left out, as is
-- `launder_phys_uintptr`, which gives its argument.
pub mod Cover
pub mod Fit
pub mod Place
pub mod Room
pub mod Given
pub mod Zones
pub mod Free
pub mod HandOver
use davix.Prelude.{
  ℕ, zero, suc, ◌+◌, ◌-◌, ◌/◌, ◌≡◌, Bool, true, false, ◌&&◌, ◌||◌, Option, none, some, List, [],
  ◌∷◌, ◌++◌, min, max, ltb, leb, ◌==◌, if◌then◌else◌,
}
use davix.Prelude.Words.{add64, sub64}
use davix.Dsl.Align.{align_up, align_down}
use davix.Mm.Zone.{zone_minaddr, zone_maxaddr, zone_has_fallback, fallback_zone, allocation_zone}
use davix.Mm.PageAlloc.{PageAlloc, free_page}

abbrev pub minalign : ℕ
minalign = 32

abbrev pub page_size : ℕ
page_size = 4096

-- `early_free_block`
pub record Block : Type 0 where
  pub addr : ℕ
  pub size : ℕ

-- The part of a block between the limits, both ends inclusive.
abbrev pub first_in : ℕ → Block → ℕ
first_in low b = max b.addr low

abbrev pub last_in : ℕ → Block → ℕ
last_in high b = min (sub64 (add64 b.addr b.size) 1) high

-- Where the allocation begins in a block, when it fits there.
unfoldable pub fit : ℕ → ℕ → ℕ → ℕ → Block → Option ℕ
fit size align low high b =
    let start = first_in low b in
    let end = last_in high b in
    let start_aligned = align_up start align in
    if ltb end start
    then none
    else if ltb end start_aligned || ltb start_aligned start
    then none
    else if ltb (add64 (sub64 end start_aligned) 1) size
    then none
    else some start_aligned

-- What is left of a block before the allocation: none of it when it is taken off the list.
abbrev pub front_of : ℕ → ℕ → Block → List Block
front_of low start_aligned b =
    if start_aligned == first_in low b
    then []
    else record { addr = b.addr; size = sub64 start_aligned (first_in low b) } ∷ []

-- What is left behind it.
abbrev pub tail_of : ℕ → ℕ → ℕ → Block → List Block
tail_of size high start_aligned b =
    let alloc_end = add64 start_aligned size in
    if alloc_end == last_in high b
    then []
    else record { addr = alloc_end; size = sub64 (last_in high b) alloc_end } ∷ []

-- An allocation: its address, the block to put at the front of the list, and the rest of the list.
pub record Found : Type 0 where
  pub start : ℕ
  pub tail : List Block
  pub left : List Block

abbrev pub split : ℕ → ℕ → ℕ → Block → List Block → ℕ → Found
split size low high b blocks start_aligned = record {
  start = start_aligned;
  tail = tail_of size high start_aligned b;
  left = front_of low start_aligned b ++ blocks;
}

abbrev pub behind : Block → Found → Found
behind b f = record f { left = b ∷ f.left }

-- The block of this round, or what the later rounds give.
abbrev pub split_or : ℕ → ℕ → ℕ → Block → List Block → Option ℕ → Option Found → Option Found
split_or size low high b blocks (some start) rest = some (split size low high b blocks start)
split_or size low high b blocks none none = none
split_or size low high b blocks none (some f) = some (behind b f)

-- The loop over the list.
unfoldable pub find_block : ℕ → ℕ → ℕ → ℕ → List Block → Option Found
find_block size align low high [] = none
find_block size align low high (b ∷ blocks) =
    split_or size low high b blocks (fit size align low high b)
      (find_block size align low high blocks)

abbrev pub give : List Block → Option Found → ℕ × List Block
give free_list none = (0, free_list)
give free_list (some f) = (f.start, f.tail ++ f.left)

abbrev pub low_limit : ℕ → ℕ
low_limit low = align_up (max low minalign) minalign

abbrev pub high_limit : ℕ → ℕ
high_limit high = sub64 (align_down (add64 high 1) minalign) 1

unfoldable pub early_alloc_phys_range : ℕ → ℕ → ℕ → ℕ → List Block → ℕ × List Block
early_alloc_phys_range size align low high free_list =
    if low_limit low == 0
    then (0, free_list)
    else if align_up size minalign == 0
    then (0, free_list)
    else give free_list (
        find_block (align_up size minalign) (max align minalign) (low_limit low) (high_limit high)
          free_list)

unfoldable pub early_free_phys : ℕ → ℕ → List Block → List Block
early_free_phys addr size free_list =
    let skipped = sub64 (align_up (max addr minalign) minalign) addr in
    if leb size skipped
    then free_list
    else if align_down (size - skipped) minalign == 0
    then free_list
    else record { addr = add64 addr skipped; size = align_down (size - skipped) minalign }
      ∷ free_list

unfoldable pub early_alloc_phys_zone : ℕ → ℕ → ℕ → List Block → ℕ × List Block
early_alloc_phys_zone size align zone free_list =
    early_alloc_phys_range size align (zone_minaddr zone) (zone_maxaddr zone) free_list

abbrev pub unless_found : ℕ × List Block → Bool → ℕ × List Block → ℕ × List Block
unless_found first has_fallback later =
    if first.0 == 0 then if has_fallback then later else first else first

-- The loop over the zones, on fuel; a failed attempt leaves the list as it was.
unfoldable pub alloc_from_zone : ℕ → ℕ → ℕ → ℕ → List Block → ℕ × List Block
alloc_from_zone zero size align zone free_list = (0, free_list)
alloc_from_zone (suc fuel) size align zone free_list =
    let first = early_alloc_phys_zone size align zone free_list in
    let later = alloc_from_zone fuel size align (fallback_zone zone) first.1 in
    unless_found first (zone_has_fallback zone) later

-- ALLOC_KERNEL is no flags.
unfoldable pub early_alloc_phys : ℕ → ℕ → List Block → ℕ × List Block
early_alloc_phys size align free_list = alloc_from_zone 3 size align (allocation_zone 0) free_list

-- The inner loop of `early_free_everything_to_pgalloc`.
unfoldable pub free_pages : ℕ → ℕ → PageAlloc → PageAlloc
free_pages zero addr s = s
free_pages (suc size) addr s = free_pages size (addr + page_size) (free_page (addr / page_size) s)

unfoldable pub free_block : Block → PageAlloc → PageAlloc
free_block b s =
    let n = sub64 (align_up b.addr page_size) b.addr in
    if leb b.size n then s else free_pages ((b.size - n) / page_size) (b.addr + n) s

unfoldable pub early_free_everything_to_pgalloc : List Block → PageAlloc → PageAlloc
early_free_everything_to_pgalloc [] s = s
early_free_everything_to_pgalloc (b ∷ blocks) s =
    early_free_everything_to_pgalloc blocks (free_block b s)
