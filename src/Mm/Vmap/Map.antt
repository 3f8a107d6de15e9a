-- ===== src/Mm/Vmap/Map.antt =====
-- mm/vmap.cc: `vmap_io_range` and `vunmap`.
use davix.Prelude.{
  ◌||◌, List, [], ◌∷◌, max, min, ℕ, zero, suc, ◌/◌, Bool, ◌&&◌, Option, none, some, if◌then◌else◌,
  ltb, leb, ◌==◌, bit_and,
}
use davix.Prelude.Words.{add64, sub64}
use davix.Dsl.Align.{align_up, align_down}
use davix.Dsl.VmaTree.Entries.{Entry, entries}
use davix.Dsl.VmaTree.{VmaNode, Tree}
use davix.Dsl.VmaTree.Modify.{insert}
use davix.Dsl.VmaTree.Locate.{remove_node}
use davix.Dsl.VmaTree.Lookup.{find}
use davix.Mm.PageAlloc.{page_size}
use davix.Mm.Vmap.{find_free_with_guard_pages}

-- `vmap_tree`, the physical address that the page tables give for a page, and how many bytes an entry of the
-- top table maps.
pub record Vmap : Type 0 where
  pub tree : Tree
  pub ptes : ℕ → Option ℕ
  pub entry_size : ℕ

abbrev pub set_pte : (ℕ → Option ℕ) → ℕ → ℕ → ℕ → Option ℕ
set_pte ptes addr phys a = if addr == a then some phys else ptes a

-- Where the walk over the top-level entries ends. It makes one round also when `floor` is `ceiling`, and passes an empty
-- range down: the tests of `__free_pte_range` find it to be a full one on each level, so that the first entry of the
-- table below the top one is cleared, whose pages are one 512th of those of a top-level entry.
abbrev pub walk_end : ℕ → ℕ → ℕ → ℕ
walk_end entry_size floor ceiling =
    if floor == ceiling && ltb 0 floor then add64 floor (entry_size / 512) else ceiling

-- `free_pte_range`: it walks the page tables from the larger of `floor` and the start of the top-level entry to
-- the smaller of `ceiling` and the end of that of `stop`, where 0 is the end of the address space, and
-- clears each entry of a page that it meets, and the tables all of whose range it has walked. The limits are multiples of
-- the page size, as the ends of areas are.
unfoldable pub free_pte_range : ℕ → ℕ → ℕ → ℕ × ℕ → (ℕ → Option ℕ) → ℕ → Option ℕ
free_pte_range entry_size start stop limits ptes a =
    let tables = align_up stop entry_size in
    let low = max limits.0 (align_down start entry_size) in
    let high =
      if tables == 0 then limits.1 else if limits.1 == 0 then tables else min limits.1 tables in
    let end = walk_end entry_size low high in
    if leb low a && (end == 0 || ltb a end) then none else ptes a

abbrev pub first_or_zero : List Entry → ℕ
first_or_zero [] = 0
first_or_zero (x ∷ xs) = x.first

-- `vmap_tree.prev` and `vmap_tree.next` as `free_pte_range_vma` uses them: the end of the area before the one at
-- `first`, and the start of the one after it, or 0. The list beside the tree is its sequence.
unfoldable pub limits_of : ℕ → ℕ → List Entry → ℕ × ℕ
limits_of first prev_end [] = (prev_end, 0)
limits_of first prev_end (x ∷ xs) =
    let rest = limits_of first (add64 x.last 1) xs in
    if x.first == first then (prev_end, first_or_zero xs) else rest

abbrev pub free_pte_range_vma : ℕ → ℕ → ℕ → ℕ → Tree → (ℕ → Option ℕ) → ℕ → Option ℕ
free_pte_range_vma entry_size start stop first tree ptes =
    free_pte_range entry_size start stop (limits_of first 0 (entries tree)) ptes

pub data Mapped : Type 0 where
  all_mapped : (ℕ → Option ℕ) → Mapped
  failed_at : ℕ → (ℕ → Option ℕ) → Mapped

-- The loop over `i`; `get_pte` says whether it returns an entry.
unfoldable pub map_pages : (ℕ → Bool) → ℕ → ℕ → ℕ → (ℕ → Option ℕ) → Mapped
map_pages get_pte zero addr phys ptes = all_mapped ptes
map_pages get_pte (suc n) addr phys ptes =
    let rest =
      map_pages get_pte n (add64 addr page_size) (add64 phys page_size) (set_pte ptes addr phys) in
    if get_pte addr then rest else failed_at addr ptes

abbrev pub new_area : ℕ → ℕ → VmaNode
new_area addr size = record {
  first = addr;
  last = sub64 (add64 addr size) 1;
  height = 0;
  prev_gap = 0;
  biggest_gap = 0;
}

unfoldable pub finish_map : ℕ → ℕ → Tree → ℕ → Mapped → Option ℕ × Vmap
finish_map addr offset tree entry_size (all_mapped ptes) =
    (some (add64 addr offset), record { tree = tree; ptes = ptes; entry_size = entry_size })
finish_map addr offset tree entry_size (failed_at stop ptes) = (
  none,
  record {
    tree = remove_node addr tree;
    ptes = free_pte_range_vma entry_size addr stop addr tree ptes;
    entry_size = entry_size;
  },
)

unfoldable pub map_found : (ℕ → Bool) → ℕ → ℕ → ℕ → Vmap → Option ℕ → Option ℕ × Vmap
map_found get_pte phys offset size s none = (none, s)
map_found get_pte phys offset size s (some addr) =
    finish_map addr offset (insert (new_area addr size) s.tree) s.entry_size
      (map_pages get_pte (size / page_size) addr phys s.ptes)

unfoldable pub vmap_io_range : Bool → (ℕ → Bool) → ℕ → ℕ → ℕ → ℕ → Vmap → Option ℕ × Vmap
vmap_io_range kmalloc get_pte phys size low high s =
    let offset = bit_and phys 4095 in
    let whole = align_up (add64 size offset) page_size in
    if ltb (add64 size offset) size
    then (none, s)
    else if whole == 0
    then (none, s)
    else if kmalloc
    then map_found get_pte (sub64 phys offset) offset whole s
        (find_free_with_guard_pages whole low high s.tree)
    else (none, s)

-- `vmap_io`, `vmap_range` and `vmap`: the arguments before `phys` are those of `vmap_io_range`, and `first` and
-- `last` are KERNEL_VM_FIRST and KERNEL_VM_LAST.
unfoldable pub vmap_io : ℕ → ℕ → Bool → (ℕ → Bool) → ℕ → ℕ → Vmap → Option ℕ × Vmap
vmap_io first last kmalloc get_pte phys size s =
    vmap_io_range kmalloc get_pte phys size first last s

unfoldable pub vmap_range : Bool → (ℕ → Bool) → ℕ → ℕ → ℕ → ℕ → Vmap → Option ℕ × Vmap
vmap_range kmalloc get_pte phys size low high s = vmap_io_range kmalloc get_pte phys size low high s

unfoldable pub vmap : ℕ → ℕ → Bool → (ℕ → Bool) → ℕ → ℕ → Vmap → Option ℕ × Vmap
vmap first last kmalloc get_pte phys size s = vmap_io_range kmalloc get_pte phys size first last s

abbrev pub unmap_area : Vmap → Option VmaNode → Vmap
unmap_area s none = s
unmap_area s (some n) = record s {
  tree = remove_node n.first s.tree;
  ptes = free_pte_range_vma s.entry_size n.first (add64 n.last 1) n.first s.tree s.ptes;
}

unfoldable pub vunmap : ℕ → Vmap → Vmap
vunmap ptr s = unmap_area s (find ptr s.tree)
