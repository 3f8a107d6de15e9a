-- ===== src/Mm/Slab/Defs.antt =====
-- mm/slab.cc: `slab_alloc`, `slab_free`, `slab_create`, `kmalloc` and `kfree`.
use davix.Prelude.{
  ℕ, zero, suc, ◌+◌, ◌-◌, ◌/◌, ◌%◌, ◌^◌, Bool, Option, none, some, List, [], ◌∷◌, not,
  if◌then◌else◌, ltb, ◌==◌, bit_and,
}
use davix.Prelude.Words.{add64, sub64}
use davix.Mm.Zone.{has_flag, alloc_zero, alloc_highprio}
use davix.Mm.PageAlloc.{
  PageAlloc, page_size, page_to_phys, update, zero_bytes, alloc_page, free_page,
}
use davix.Mm.Slab.Memory.{load_word, store_word}

-- `SlabAllocator`, less its lock, its name, its place in the list of all allocators, and
-- `inp_obj_align`, which nothing reads.
pub record SlabAllocator : Type 0 where
  pub nr_full : ℕ
  pub nr_partial : ℕ
  pub page_full : List ℕ
  pub page_partial : List ℕ
  pub nr_empty : ℕ
  pub nfree : ℕ
  pub inp_obj_size : ℕ
  pub real_obj_size : ℕ
  pub objs_per_page : ℕ

-- The page allocator with the memory, HHDM_OFFSET, `slab.nfree`, `slab.pobj` and `slab.allocator` of each
-- page, the allocators, and `slab_allocator` and `kmalloc_slabs` as
-- indices of them.
pub record Slabs : Type 0 where
  pub pages : PageAlloc
  pub hhdm : ℕ
  pub nfree : ℕ → ℕ
  pub pobj : ℕ → ℕ
  pub owner : ℕ → ℕ
  pub allocators : ℕ → SlabAllocator
  pub slab_allocator : ℕ
  pub kmalloc_slabs : ℕ → ℕ

-- PAGE_SLAB
abbrev pub page_slab : ℕ
page_slab = 2 ^ 0

abbrev pub page_to_virt : ℕ → ℕ → ℕ
page_to_virt hhdm page = add64 (page_to_phys page) hhdm

abbrev pub virt_to_page : ℕ → ℕ → ℕ
virt_to_page hhdm ptr = sub64 ptr hhdm / page_size

unfoldable pub ptr_is_slab : ℕ → Slabs → Bool
ptr_is_slab ptr s = bit_and (s.pages.flags (virt_to_page s.hhdm ptr)) page_slab == page_slab

abbrev pub memory : Slabs → ℕ → ℕ
memory s = s.pages.bytes

-- `*(void **) ptr`
abbrev pub read_pointer : Slabs → ℕ → ℕ
read_pointer s ptr = load_word (memory s) (sub64 ptr s.hhdm)

abbrev pub write_pointer : ℕ → (ℕ → ℕ) → ℕ → ℕ → ℕ → ℕ
write_pointer hhdm bytes ptr v = store_word bytes (sub64 ptr hhdm) v

abbrev pub with_memory : Slabs → (ℕ → ℕ) → Slabs
with_memory s bytes = record s { pages = record s.pages { bytes = bytes } }

-- `aclass & (__ALLOC_HIGHPRIO | __ALLOC_ZERO)`
unfoldable pub slab_class : ℕ → ℕ
slab_class aclass =
    (if has_flag aclass alloc_highprio then alloc_highprio else 0)
    + (if has_flag aclass alloc_zero then alloc_zero else 0)

unfoldable pub wrap : ℕ → ℕ → ℕ → Slabs → Option ℕ × Slabs
wrap a aclass ptr s =
    let start = sub64 ptr s.hhdm in
    let size = (s.allocators a).inp_obj_size in
    (
      some ptr,
      with_memory s
          (if has_flag aclass alloc_zero then zero_bytes (memory s) start size else memory s),
    )

-- The page that the first two tests of `slab_alloc` choose, and the allocator without it.
unfoldable pub pop_partial : SlabAllocator → List ℕ → Option (ℕ × SlabAllocator)
pop_partial al [] = none
pop_partial al (page ∷ rest) =
    some (page, record al { page_partial = rest; nr_partial = sub64 al.nr_partial 1 })

unfoldable pub pop_full : SlabAllocator → List ℕ → Option (ℕ × SlabAllocator)
pop_full al [] = none
pop_full al (page ∷ rest) =
    some (page, record al { page_full = rest; nr_full = sub64 al.nr_full 1 })

unfoldable pub pop_page : SlabAllocator → Option (ℕ × SlabAllocator)
pop_page al =
    if not (al.nr_partial == 0)
    then pop_partial al al.page_partial
    else if not (al.nr_full == 0)
    then pop_full al al.page_full
    else none

unfoldable pub push_partial : ℕ → SlabAllocator → SlabAllocator
push_partial page al = record al {
  nr_partial = add64 al.nr_partial 1;
  page_partial = page ∷ al.page_partial;
}

-- Where the page goes when it has `left` free objects.
unfoldable pub put_page : ℕ → ℕ → SlabAllocator → SlabAllocator
put_page page left al =
    if left == 0 then record al { nr_empty = add64 al.nr_empty 1 } else push_partial page al

-- `slab.nfree` is an `unsigned int`.
abbrev pub dec32 : ℕ → ℕ
dec32 n = (n + 2 ^ 32 - 1) % 2 ^ 32

unfoldable pub take_object : ℕ → ℕ → ℕ → SlabAllocator → Slabs → Option ℕ × Slabs
take_object a aclass page al s =
    let obj = s.pobj page in
    let left = dec32 (s.nfree page) in
    let al' = put_page page left al in
    wrap a aclass obj (record s {
      pobj = update s.pobj page (read_pointer s obj);
      nfree = update s.nfree page left;
      allocators = update s.allocators a (record al' { nfree = sub64 al'.nfree 1 });
    })

-- The loop of `slab_alloc` with `n` more objects behind `obj`, and the null pointer at the end.
unfoldable pub link_objects : ℕ → ℕ → ℕ → ℕ → (ℕ → ℕ) → ℕ → ℕ
link_objects zero hhdm size obj bytes = write_pointer hhdm bytes obj 0
link_objects (suc n) hhdm size obj bytes =
    link_objects n hhdm size (add64 obj size) (write_pointer hhdm bytes obj (add64 obj size))

-- `slab.pobj` is the head of the chain, and a page of one object has an empty chain.
unfoldable pub fill_page : ℕ → ℕ → ℕ → ℕ → (ℕ → ℕ) → ℕ × (ℕ → ℕ)
fill_page zero hhdm size addr bytes = (0, bytes)
fill_page (suc zero) hhdm size addr bytes = (0, bytes)
fill_page (suc (suc n)) hhdm size addr bytes =
    (add64 addr size, link_objects n hhdm size (add64 addr size) bytes)

unfoldable pub start_page : ℕ → ℕ → Slabs → Option ℕ × PageAlloc → Option ℕ × Slabs
start_page a aclass s (none, pages) = (none, record s { pages = pages })
start_page a aclass s (some page, pages) =
    let al = s.allocators a in
    let addr = page_to_virt s.hhdm page in
    let filled = fill_page al.objs_per_page s.hhdm al.real_obj_size addr pages.bytes in
    let al' = push_partial page al in
    wrap a aclass addr (record s {
      pages = record pages { flags = update pages.flags page page_slab; bytes = filled.1 };
      owner = update s.owner page a;
      nfree = update s.nfree page (sub64 al.objs_per_page 1 % 2 ^ 32);
      pobj = update s.pobj page filled.0;
      allocators =
          update s.allocators a (record al' { nfree = add64 al'.nfree (sub64 al.objs_per_page 1) });
    })

unfoldable pub alloc_from : ℕ → ℕ → Slabs → Option (ℕ × SlabAllocator) → Option ℕ × Slabs
alloc_from a aclass s none = start_page a aclass s (alloc_page aclass s.pages)
alloc_from a aclass s (some (page, al)) = take_object a aclass page al s

unfoldable pub slab_alloc : ℕ → ℕ → Slabs → Option ℕ × Slabs
slab_alloc a aclass s = alloc_from a (slab_class aclass) s (pop_page (s.allocators a))

-- `page->node.remove ()`
unfoldable pub remove_page : ℕ → List ℕ → List ℕ
remove_page page [] = []
remove_page page (x ∷ xs) = let rest = remove_page page xs in if x == page then rest else x ∷ rest

abbrev pub with_allocator : ℕ → SlabAllocator → Slabs → Slabs
with_allocator a al s = record s { allocators = update s.allocators a al }

-- What `slab_free` does with a page that has `count` free objects now.
unfoldable pub settle_page : ℕ → ℕ → ℕ → SlabAllocator → Slabs → Slabs
settle_page a page count al s =
    let al' = record al {
      page_partial = remove_page page al.page_partial;
      nr_partial = sub64 al.nr_partial 1;
    } in
    if count == 1
    then with_allocator a (push_partial page (record al { nr_empty = sub64 al.nr_empty 1 })) s
    else if not (count == al.objs_per_page)
    then with_allocator a al s
    else if ltb al.nr_full 1
    then with_allocator a
        (record al' { nr_full = add64 al.nr_full 1; page_full = page ∷ al.page_full }) s
    else record s {
      pages = free_page page s.pages;
      allocators = update s.allocators a (record al' { nfree = sub64 al.nfree al.objs_per_page });
    }

unfoldable pub slab_free : ℕ → Slabs → Slabs
slab_free ptr s =
    let page = virt_to_page s.hhdm ptr in
    let a = s.owner page in
    let al = s.allocators a in
    let count = (s.nfree page + 1) % 2 ^ 32 in
    settle_page a page count (record al { nfree = add64 al.nfree 1 })
      (record s {
        pages = record s.pages { bytes = write_pointer s.hhdm (memory s) ptr (s.pobj page) };
        pobj = update s.pobj page ptr;
        nfree = update s.nfree page count;
      })
