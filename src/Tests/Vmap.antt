-- ===== src/Tests/Vmap.antt =====
-- The theorems on virtual mappings, in an address space with one area.
use davix.Prelude.{◌^◌, ◌≡◌, refl, some, none, ◌==◌, if◌then◌else◌}
use davix.Dsl.Align.{align_up, align_down}
use davix.Dsl.VmaTree.{VmaNode, nil, node}
use davix.Mm.Vmap.Map.{Vmap, free_pte_range}

abbrev area : VmaNode
area = record {
  first = 0x100000;
  last = 0x101fff;
  height = 1;
  prev_gap = 0x100000;
  biggest_gap = 0x100000;
}

abbrev space : Vmap
space = record {
  tree = node nil area nil;
  ptes = λ a. if a == 0x100000 then some 0xfee00000 else none;
  entry_size = 2 ^ 39;
}

-- The range is empty and begins where a top-level entry does: a page of the area behind it is cleared.
empty_range_cleared :
    free_pte_range (2 ^ 39) 0x8000000000 0x8000000000 (0, 0x8000010000) (λ a. some a) 0x8000010000
    ≡ none
unfolding free_pte_range align_up align_down
empty_range_cleared = refl
