-- ===== src/Tests/Slab.antt =====
-- The theorems on the slab allocator, at an allocator with one page of four objects, one of them free.
use davix.Prelude.{
  ℕ, ◌+◌, ◌*◌, ◌/◌, ◌^◌, ◌≡◌, refl, sym, inl, inr, List, [], ◌∷◌, arith, ◌==◌, Bool-cases, ==→eq,
  ==→ne, if◌then◌else◌,
}
use davix.Mm.PageAlloc.{PageAlloc}
use davix.Mm.PageAlloc.Laws.{IsValid}
use davix.Mm.Slab.{
  Slabs, SlabAllocator, memory, slab_alloc, slab_free, alloc_from, pop_page, pop_partial,
  take_object, wrap,
}
use davix.Mm.Slab.Memory.{load_word, load_bytes}
use davix.Mm.Slab.Invariant.{IsPage, IsSlab, IsSorted, Holds}
use davix.Mm.Slab.HandOut.{IsAllocation}
use davix.Mm.Slab.Alloc.{slab_alloc-IsAllocation}
use davix.Mm.Slab.Give.{IsInUse}
use davix.Mm.Slab.Free.{IsFreed}
use davix.Mm.Slab.Settle.{slab_free-IsFreed}
use davix.Mm.Slab.Apart.{Apart, Unchanged, slab_alloc-Apart}
use davix.Mm.Slab.Kmalloc.{kmalloc, kmalloc_sizes, IsReady, IsKmalloc, kmalloc-IsKmalloc}

-- The allocator of `kmalloc` with index `i`, without pages.
abbrev unused : ℕ → SlabAllocator
unused i = record {
  nr_full = 0;
  nr_partial = 0;
  page_full = [];
  page_partial = [];
  nr_empty = 0;
  nfree = 0;
  inp_obj_size = 8 * 2 ^ i;
  real_obj_size = 8 * 2 ^ i;
  objs_per_page = 4096 / (8 * 2 ^ i);
}

abbrev kilobytes : SlabAllocator
kilobytes = record (unused 7) { nr_partial = 1; page_partial = 5 ∷ []; nfree = 1 }

abbrev offset : ℕ
offset = 0xffff800000000000

abbrev no_pages : PageAlloc
no_pages = record {
  free_list = λ z. [];
  count = λ z. 0;
  total_free_pages = 0;
  flags = λ p. if p == 5 then 1 else 0;
  bytes = λ a. 0;
}

abbrev slabs : Slabs
slabs = record {
  pages = no_pages;
  hhdm = offset;
  nfree = λ p. 1;
  pobj = λ p. offset + 0x5000;
  owner = λ p. 7;
  allocators = λ b. if b == 7 then kilobytes else unused b;
  slab_allocator = 7;
  kmalloc_slabs = λ i. i;
}

abbrev first_free : ℕ → List ℕ
first_free p = 0 ∷ []

no_pages-IsValid : IsValid no_pages
no_pages-IsValid = record {
  zones = λ z. record { counted = refl; homed = tt; distinct = tt };
  total = refl;
}

live-eq : (p : ℕ) → IsSlab slabs p → p ≡ 5
live-eq p h = ground arith

whole-IsPage : IsPage (memory slabs) offset 5 kilobytes (offset + 0x5000) 1 (0 ∷ [])
unfolding load_word load_bytes
whole-IsPage = record {
  shape = record { size_ge = omega arith; size_le = omega arith; inp = omega arith; objs = refl };
  room = omega arith;
  chain = (refl, refl);
  indices = (omega arith, tt);
  distinct = (tt, tt);
  counted = refl;
}

slabs-IsSorted : (b : ℕ) → IsSorted slabs b (slabs.allocators b)
slabs-IsSorted b = elim (Bool-cases (b == 7)) [
  | inl e ↦ rw (==→eq b 7 e) (record {
    partial = ((refl, refl, omega arith, omega arith), tt);
    partial_once = (tt, tt);
    partial_count = refl;
    listed = λ p q. inl (live-eq p q.0);
    full = tt;
    full_once = tt;
    full_count = refl;
  })
  | inr e ↦ rw e (record {
    partial = tt;
    partial_once = tt;
    partial_count = refl;
    listed = λ p q. absurd (==→ne b 7 e (sym q.1));
    full = tt;
    full_once = tt;
    full_count = refl;
  })
]

slabs-Holds : Holds slabs first_free
slabs-Holds = record {
  slab_pages = λ p live. rw (live-eq p live) whole-IsPage;
  sorted = slabs-IsSorted;
  fresh = λ z. tt;
  valid = no_pages-IsValid;
}

slab_alloc-IsAllocation_example : IsAllocation slabs first_free 7 (slab_alloc 7 1 slabs)
slab_alloc-IsAllocation_example =
    slab_alloc-IsAllocation 7 1 slabs first_free slabs-Holds whole-IsPage.shape

second-IsInUse : IsInUse slabs first_free 5 1 (offset + 0x5400)
second-IsInUse = record {
  live = refl;
  index = omega arith;
  used = ((λ e. omega (arith, e)), tt);
  address = refl;
}

slab_free-IsFreed_example : IsFreed slabs first_free 5 1 (slab_free (offset + 0x5400) slabs)
slab_free-IsFreed_example =
    slab_free-IsFreed slabs first_free 5 1 (offset + 0x5400) slabs-Holds second-IsInUse

slabs-IsReady : IsReady slabs 0 kmalloc_sizes
slabs-IsReady = omega arith

kmalloc-IsKmalloc_example : IsKmalloc slabs first_free kmalloc_sizes 0 600 (kmalloc 600 0 slabs)
kmalloc-IsKmalloc_example = kmalloc-IsKmalloc 600 0 slabs first_free slabs-Holds slabs-IsReady

slab_alloc-Apart_example :
    Apart (offset + 0x5000) 1024 (offset + 0x5400) 1024
    × Unchanged slabs 5 1 (slab_alloc 7 1 slabs).1
unfolding slab_alloc alloc_from pop_page pop_partial take_object wrap
slab_alloc-Apart_example =
    slab_alloc-Apart slabs first_free 5 1 (offset + 0x5400) slabs-Holds second-IsInUse 7 1
      (offset + 0x5000) (slab_alloc 7 1 slabs).1 whole-IsPage.shape refl
