-- ===== src/Tests/EarlyAlloc.antt =====
-- The theorems on mm/early_alloc.cc for two free blocks.
use davix.Prelude.{ℕ, ◌^◌, ◌≡◌, List, [], ◌∷◌, All, arith}
use davix.Mm.PageAlloc.{PageAlloc}
use davix.Mm.EarlyAlloc.{
  Block, early_alloc_phys_range, early_alloc_phys, early_free_phys,
  early_free_everything_to_pgalloc,
}
use davix.Mm.EarlyAlloc.Cover.{IsBlock}
use davix.Mm.EarlyAlloc.Place.{IsServed, early_alloc_phys_range-IsServed}
use davix.Mm.EarlyAlloc.Zones.{IsFirst, early_alloc_phys-IsFirst}
use davix.Mm.EarlyAlloc.Free.{IsFreed, early_free_phys-IsFreed}
use davix.Mm.EarlyAlloc.HandOver.{
  free_all, occurrences, whole, early_free_everything_to_pgalloc-whole,
}

abbrev blocks : List Block
blocks = record { addr = 4096; size = 8192 } ∷ record { addr = 0x10000000; size = 0x4000 } ∷ []

blocks-IsBlock : All IsBlock blocks
blocks-IsBlock = (
  record { filled = omega arith; inside = omega arith },
  (record { filled = omega arith; inside = omega arith }, tt),
)

abbrev no_pages : PageAlloc
no_pages = record {
  free_list = λ z. [];
  count = λ z. 0;
  total_free_pages = 0;
  flags = λ page. 0;
  bytes = λ i. 0;
}

early_alloc_phys_range-IsServed_example :
    IsServed 100 6 0 0x100000 blocks (early_alloc_phys_range 100 (2 ^ 6) 0 0x100000 blocks)
early_alloc_phys_range-IsServed_example =
    early_alloc_phys_range-IsServed 100 6 0 0x100000 blocks (omega arith) (omega arith)
      (omega arith) (omega arith) (omega arith) blocks-IsBlock

early_alloc_phys-IsFirst_example : IsFirst 100 6 blocks (early_alloc_phys 100 (2 ^ 6) blocks)
early_alloc_phys-IsFirst_example =
    early_alloc_phys-IsFirst 100 6 blocks (omega arith) (omega arith) (omega arith) blocks-IsBlock

early_free_phys-IsFreed_example :
    IsFreed 0x20010 0x100 blocks (early_free_phys 0x20010 0x100 blocks)
early_free_phys-IsFreed_example =
    early_free_phys-IsFreed 0x20010 0x100 blocks (omega arith) (omega arith) (omega arith)
      blocks-IsBlock

early_free_everything_to_pgalloc-whole_example :
    (pages : List ℕ) × (early_free_everything_to_pgalloc blocks no_pages ≡ free_all pages no_pages)
    × ((page : ℕ) → occurrences page pages ≡ whole blocks page)
early_free_everything_to_pgalloc-whole_example =
    early_free_everything_to_pgalloc-whole blocks no_pages blocks-IsBlock
