-- ===== src/Mm/Vmap.antt =====
-- mm/vmap.cc: areas of the kernel's address space, each with a free page on both sides, as nodes of
-- the tree of memory areas. `vmap_lock` is held over each use of the tree. What the page-table
-- functions of arch/x86 do is kept as a map from addresses to entries; whether `kmalloc`, `alloc_page`
-- and `get_pte` find memory is the environment's choice.
pub mod Guard
pub mod Map
pub mod Pages
pub mod Limits
pub mod Serve
use davix.Prelude.{ℕ, Option, none, some, if◌then◌else◌, ltb}
use davix.Prelude.Words.{word_max, add64, sub64}
use davix.Dsl.VmaTree.{VmaNode, Tree}
use davix.Dsl.VmaTree.Modify.{insert}
use davix.Dsl.VmaTree.Find.{Request, find_free_bottomup}
use davix.Mm.PageAlloc.{page_size}

abbrev pub shift_up : Option ℕ → Option ℕ
shift_up none = none
shift_up (some addr) = some (add64 addr page_size)

-- The search of `find_free_with_guard_pages`.
unfoldable pub guarded_request : ℕ → ℕ → ℕ → Request
guarded_request size low high = record {
  size = add64 (add64 size page_size) page_size;
  align = page_size;
  min_addr = if ltb page_size low then sub64 low page_size else 0;
  max_addr = if ltb high (sub64 word_max page_size) then add64 high page_size else word_max;
}

unfoldable pub find_free_with_guard_pages : ℕ → ℕ → ℕ → Tree → Option ℕ
find_free_with_guard_pages size low high tree =
    if ltb (add64 (add64 size page_size) page_size) size
    then none
    else shift_up (find_free_bottomup (guarded_request size low high) tree)
