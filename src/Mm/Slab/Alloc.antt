-- ===== src/Mm/Slab/Alloc.antt =====
-- mm/slab.cc: what `slab_alloc` promises.
use mathlib.Core.Path.{subst}
use davix.Prelude.{
  ℕ, suc, ◌+◌, ◌-◌, ◌*◌, ◌/◌, ◌≤◌, ◌<◌, ◌≡◌, refl, sym, ap, ◌∙◌, ◌⊎◌, inl, inr, List, arith, All,
  ◌==◌, Bool-cases, if◌then◌else◌, Bool, Option, some, none, ltb, leb, ◌&&◌,
}
use davix.Prelude.Words.{word_mod, add64, sub64}
use davix.Mm.Zone.{has_flag, alloc_zero, allocation_zone}
use davix.Mm.PageAlloc.{PageAlloc, update, zero_bytes, alloc_page, page_zone, page_to_phys}
use davix.Mm.PageAlloc.Laws.{update-same}
use davix.Mm.PageAlloc.Allocate.{
  Allocates, alloc_page-Allocates, alloc_page-bytes, alloc_page-flags,
}
use davix.Mm.Slab.{
  Slabs, SlabAllocator, memory, page_slab, page_to_virt, slab_class, wrap, pop_page, push_partial,
  link_objects, fill_page, start_page, alloc_from, slab_alloc,
}
use davix.Mm.Slab.Chain.{upto}
use davix.Mm.Slab.Invariant.{IsShape, IsFresh, Holds}
use davix.Mm.Slab.Pop.{pop_page-Popped}
use davix.Mm.Slab.Take.{object_of, KeepsOthers, zero_if}
use davix.Mm.Slab.Start.{Gives, started, started-Holds, started-Change, outside, upto-ne}
use davix.Mm.Slab.HandOut.{IsHandedOut, IsAllocation, take_object-IsHandedOut}

module _ (s : Slabs) (free : ℕ → List ℕ) (page : ℕ) (pages : PageAlloc) (h : Holds s free) where
  Allocates-Gives :
      (zone : ℕ)
      → Allocates zone s.pages (some page, pages)
      → pages.flags ≡ s.pages.flags
      → ((k : ℕ) → (k < page * 4096) ⊎ (page * 4096 + 4096 ≤ k) → pages.bytes k ≡ memory s k)
      → Gives s page pages
  Allocates-Gives zone (valid, gone, le, between, rest, head, lists) flags bytes =
      let home = page_zone page in
      let all = subst (All (IsFresh s)) head (h.fresh home) in
      record {
        fresh = all.0;
        flags = flags;
        bytes = bytes;
        valid = valid;
        gone = gone;
        others = λ z.
            rw lists
              (elim (Bool-cases (home == z)) [ inl e ↦ rw e all.1 | inr e ↦ rw e (h.fresh z) ]);
      }

virt :
    (hhdm page : ℕ)
    → hhdm + page * 4096 + 4096 ≤ word_mod
    → page_to_virt hhdm page ≡ hhdm + page * 4096
unfolding page_to_phys
virt hhdm page h = omega arith

fill_page-links :
    (n objs hhdm size page : ℕ) (bytes : ℕ → ℕ)
    → objs ≡ suc (suc n)
    → hhdm + page * 4096 + 4096 ≤ word_mod
    → size ≤ 2048
    → fill_page objs hhdm size (page_to_virt hhdm page) bytes ≡ (
      hhdm + (page * 4096 + 1 * size),
      link_objects n hhdm size (hhdm + (page * 4096 + 1 * size)) bytes,
    )
unfolding fill_page
fill_page-links n objs hhdm size page bytes e room le =
    let next : add64 (page_to_virt hhdm page) size ≡ hhdm + (page * 4096 + 1 * size) =
      omega (arith, virt hhdm page room) in
    rw (e, next) refl

start_page-IsHandedOut :
    (aclass : ℕ) (s : Slabs) (free : ℕ → List ℕ) (a n page : ℕ) (pages : PageAlloc)
    → Holds s free
    → IsShape (s.allocators a)
    → (s.allocators a).objs_per_page ≡ suc (suc n)
    → Gives s page pages
    → IsAllocation s free a (start_page a aclass s (some page, pages))
unfolding start_page wrap push_partial
start_page-IsHandedOut aclass s free a n page pages h shape objs gives =
    let al = s.allocators a in
    let ptr = s.hhdm + (page * 4096 + 1 * al.real_obj_size) in
    let linked = link_objects n s.hhdm al.real_obj_size ptr pages.bytes in
    let address = virt s.hhdm page gives.fresh.1 in
    let start : sub64 (page_to_virt s.hhdm page) s.hhdm ≡ object_of al page 0 =
      omega (arith, address, gives.fresh.1) in
    let size =
      (update s.allocators a
        (record (push_partial page al) { nfree = add64 al.nfree (sub64 al.objs_per_page 1) })
        a).inp_obj_size in
    let size_same : size ≡ al.inp_obj_size =
      ap (λ x. x.inp_obj_size) (update-same s.allocators a _) in
    let m =
      if has_flag aclass alloc_zero
      then zero_bytes linked (sub64 (page_to_virt s.hhdm page) s.hhdm) size
      else linked in
    let keep : KeepsOthers al page 0 linked m = (λ k out.
      zero_if (has_flag aclass alloc_zero) linked _ _ k (ground (arith, out, start, size_same))) in
    let ch = started-Change s free a page pages m n h shape objs gives keep in
    let rest : suc n ≡ al.objs_per_page - 1 = omega (arith, objs) in
    let out : IsHandedOut s free a (page_to_virt s.hhdm page) (started a page pages ptr m s) =
      record {
        page = page;
        i = 0;
        xs = upto 1 (suc n);
        live = update-same pages.flags page page_slab;
        owner = update-same s.owner page a;
        index = omega (arith, ch.objs_per_page, objs);
        address = omega (arith, address);
        not_free = upto-ne 0 1 (suc n) (omega arith);
        origin = inr (
          gives.fresh.0,
          refl,
          ap (λ k. upto 1 k) rest,
          outside s free a page pages m n h shape objs gives keep,
        );
        holds = started-Holds s free a page pages m n h shape objs gives keep;
      } in
    rw
      (fill_page-links n al.objs_per_page s.hhdm al.real_obj_size page pages.bytes objs
        gives.fresh.1 shape.size_le)
      out

suc-suc : (n : ℕ) → 2 ≤ n → (m : ℕ) × (n ≡ suc (suc m))
suc-suc n h = (n - 2, omega arith)

outside_page :
    (page k : ℕ) (b : Bool) (x : ℕ)
    → page * 4096 < word_mod
    → (k < page * 4096) ⊎ (page * 4096 + 4096 ≤ k)
    → (if b && (leb (page_to_phys page) k && ltb k (page_to_phys page + 4096)) then 0 else x) ≡ x
unfolding page_to_phys
outside_page page k b x h out = ground arith

start_page-IsAllocation :
    (aclass : ℕ) (s : Slabs) (free : ℕ → List ℕ) (a : ℕ) (r : Option ℕ × PageAlloc)
    → Holds s free
    → IsShape (s.allocators a)
    → alloc_page aclass s.pages ≡ r
    → IsAllocation s free a (start_page a aclass s r)
unfolding start_page
start_page-IsAllocation aclass s free a (none, pages) h shape e =
    let same : pages ≡ s.pages =
      (subst (Allocates (allocation_zone aclass) s.pages) e
        (alloc_page-Allocates aclass s.pages h.valid)).0 in
    rw same (h, λ k. refl)
start_page-IsAllocation aclass s free a (some page, pages) h shape e =
    let real = (s.allocators a).real_obj_size in
    let many : 2 ≤ 4096 / real = grind (arith, shape.size_ge, shape.size_le) in
    let (n, objs) = suc-suc (s.allocators a).objs_per_page (omega (arith, shape.objs, many)) in
    let allocates =
      subst (Allocates (allocation_zone aclass) s.pages) e
        (alloc_page-Allocates aclass s.pages h.valid) in
    let flags = ap (λ r. r.1.flags) (sym e) ∙ alloc_page-flags aclass s.pages h.valid in
    let room : s.hhdm + page * 4096 + 4096 ≤ word_mod =
      (subst (All (IsFresh s)) allocates.5 (h.fresh (page_zone page))).0.1 in
    let bytes : (k : ℕ)
        → (k < page * 4096) ⊎ (page * 4096 + 4096 ≤ k)
        → pages.bytes k ≡ memory s k =
      (λ k out.
        ap (λ r. r.1.bytes k) (sym e)
        ∙ alloc_page-bytes aclass page k s.pages h.valid (ap (λ r. r.0) e)
        ∙ outside_page page k (has_flag aclass alloc_zero) (memory s k) (omega (arith, room))
            out) in
    start_page-IsHandedOut aclass s free a n page pages h shape objs
      (Allocates-Gives s free page pages h (allocation_zone aclass) allocates flags bytes)

alloc_from-IsAllocation :
    (aclass : ℕ) (s : Slabs) (free : ℕ → List ℕ) (a : ℕ) (o : Option (ℕ × SlabAllocator))
    → Holds s free
    → IsShape (s.allocators a)
    → pop_page (s.allocators a) ≡ o
    → IsAllocation s free a (alloc_from a aclass s o)
unfolding alloc_from
alloc_from-IsAllocation aclass s free a none h shape e =
    start_page-IsAllocation aclass s free a (alloc_page aclass s.pages) h shape refl
alloc_from-IsAllocation aclass s free a (some (page, al)) h shape e =
    let some_objects : 0 < 4096 / (s.allocators a).real_obj_size =
      grind (arith, shape.size_ge, shape.size_le) in
    let popped =
      pop_page-Popped s a (s.allocators a) page al (h.sorted a)
        (omega (arith, shape.objs, some_objects)) e in
    take_object-IsHandedOut aclass s free a page al (free page) h popped refl

-- From a state that satisfies the invariant, for an allocator of a sound shape: when `slab_alloc` returns an
-- object, it is one of a page of the allocator, either the head of the chain of the free objects of that
-- page or the first object of a fresh page; it is not free afterwards, the invariant
-- holds with the remaining free objects, and no byte outside of the object has changed, for a fresh page none outside of
-- that page. When it returns null, the invariant still holds and memory is as before.
pub slab_alloc-IsAllocation :
    (a aclass : ℕ) (s : Slabs) (free : ℕ → List ℕ)
    → Holds s free
    → IsShape (s.allocators a)
    → IsAllocation s free a (slab_alloc a aclass s)
unfolding slab_alloc
slab_alloc-IsAllocation a aclass s free h shape =
    alloc_from-IsAllocation (slab_class aclass) s free a (pop_page (s.allocators a)) h shape refl
