-- ===== src/Mm/Slab/Give.antt =====
-- mm/slab.cc: the page of an object that `slab_free` gets back.
use davix.Prelude.{
  ℕ, ◌+◌, ◌*◌, ◌/◌, ◌%◌, ◌^◌, ◌≤◌, ◌<◌, ◌≡◌, ◌≢◌, refl, sym, ap, ◌∙◌, List, [], ◌∷◌, arith, All,
}
use davix.Prelude.Words.{word_mod, IsWord, sub64}
use davix.Mm.PageAlloc.{update}
use davix.Mm.PageAlloc.Laws.{update-same}
use davix.Mm.Slab.{Slabs, SlabAllocator, memory, write_pointer, virt_to_page, with_allocator}
use davix.Mm.Slab.Memory.{load_word, store_word-other, load_word-store_word}
use davix.Mm.Slab.Lists.{length-Distinct}
use davix.Mm.Slab.Chain.{Chain, Chain-same, mul_fits}
use davix.Mm.Slab.Invariant.{IsPage, IsPage-same, IsSlab, Holds, Change}
use davix.Mm.Slab.Take.{object_of, KeepsOthers, others_apart}

-- An object in use: one of a page, and not among the free ones.
pub record IsInUse (s : Slabs) (free : ℕ → List ℕ) (page i ptr : ℕ) : Type 0 where
  pub live : IsSlab s page
  pub index : i < (s.allocators (s.owner page)).objs_per_page
  pub used : All (λ j. i ≢ j) (free page)
  pub address : ptr ≡ s.hhdm + object_of (s.allocators (s.owner page)) page i

-- The allocator's objects, seen as having the size of a pointer.
abbrev pub pointers : SlabAllocator → SlabAllocator
pointers al = record al { inp_obj_size = 8 }

Chain-IsWord :
    (m : ℕ → ℕ) (hhdm page size objs ptr : ℕ) (xs : List ℕ)
    → 8 ≤ size
    → objs ≡ 4096 / size
    → hhdm + page * 4096 + 4096 ≤ word_mod
    → All (λ i. i < objs) xs
    → Chain m hhdm (page * 4096) size ptr xs
    → IsWord ptr
Chain-IsWord m hhdm page size objs ptr [] ge fit room lt h = omega (arith, h)
Chain-IsWord m hhdm page size objs ptr (i ∷ xs) ge fit room lt h =
    omega (arith, h.0, mul_fits i size (omega arith) (omega (arith, lt.0, fit)))

-- The state with the object on the chain, with an allocator that has changed its lists.
abbrev pub given : ℕ → ℕ → SlabAllocator → Slabs → Slabs
given page ptr al s = with_allocator (s.owner page) al (record s {
  pages = record s.pages { bytes = write_pointer s.hhdm (memory s) ptr (s.pobj page) };
  pobj = update s.pobj page ptr;
  nfree = update s.nfree page ((s.nfree page + 1) % 2 ^ 32);
})

module _ (s : Slabs) (free : ℕ → List ℕ) (page i ptr : ℕ) (h : Holds s free)
    (in_use : IsInUse s free page i ptr) where
  pub old_page :
      IsPage
        (memory s)
        s.hhdm
        page
        (s.allocators (s.owner page))
        (s.pobj page)
        (s.nfree page)
        (free page)
  old_page = h.slab_pages page in_use.live

  in_page :
      i * (s.allocators (s.owner page)).real_obj_size + (s.allocators (s.owner page)).real_obj_size
      ≤ 4096
  in_page =
      mul_fits i (s.allocators (s.owner page)).real_obj_size (omega (arith, old_page.shape.size_ge))
        (omega (arith, in_use.index, old_page.shape.objs))

  start : sub64 ptr s.hhdm ≡ object_of (s.allocators (s.owner page)) page i
  start = omega (arith, in_use.address, old_page.room, in_page, old_page.shape.size_ge)

  pub of_page : virt_to_page s.hhdm ptr ≡ page
  of_page = omega (arith, start, in_page, old_page.shape.size_ge)

  pub few : (s.allocators (s.owner page)).objs_per_page ≤ 512
  few =
      let small : 4096 / (s.allocators (s.owner page)).real_obj_size ≤ 512 =
        grind (arith, old_page.shape.size_ge) in
      omega (arith, old_page.shape.objs, small)

  -- The page had an object in use, so it is not full of free ones.
  pub not_full : s.nfree page < (s.allocators (s.owner page)).objs_per_page
  not_full = omega (
    arith,
    old_page.counted,
    length-Distinct (s.allocators (s.owner page)).objs_per_page (i ∷ free page)
        (in_use.used, old_page.distinct) (in_use.index, old_page.indices),
  )

  pub count : (s.nfree page + 1) % 2 ^ 32 ≡ s.nfree page + 1
  count = omega (arith, not_full, few)

  pub keep :
      KeepsOthers
        (pointers (s.allocators (s.owner page)))
        page
        i
        (memory s)
        (write_pointer s.hhdm (memory s) ptr (s.pobj page))
  keep k out = store_word-other (memory s) (sub64 ptr s.hhdm) (s.pobj page) k (rw start out)

  loaded :
      load_word
        (write_pointer s.hhdm (memory s) ptr (s.pobj page))
        (object_of (s.allocators (s.owner page)) page i)
      ≡ s.pobj page
  loaded =
      ap (λ b. load_word (write_pointer s.hhdm (memory s) ptr (s.pobj page)) b) (sym start)
      ∙ load_word-store_word (memory s) (sub64 ptr s.hhdm) (s.pobj page) (
          Chain-IsWord (memory s) s.hhdm page (s.allocators (s.owner page)).real_obj_size _
            (s.pobj page) (free page) old_page.shape.size_ge old_page.shape.objs old_page.room
            old_page.indices old_page.chain)

  new_page :
      IsPage
        (write_pointer s.hhdm (memory s) ptr (s.pobj page))
        s.hhdm
        page
        (s.allocators (s.owner page))
        ptr
        (s.nfree page + 1)
        (i ∷ free page)
  new_page = record {
    shape = old_page.shape;
    room = old_page.room;
    chain = (
      in_use.address,
      rw loaded (
          Chain-same (memory s) (write_pointer s.hhdm (memory s) ptr (s.pobj page)) s.hhdm
            (page * 4096) (s.allocators (s.owner page)).real_obj_size (s.pobj page) (free page)
            (others_apart (pointers (s.allocators (s.owner page))) page i (memory s) _ (free page)
              old_page.shape.size_ge old_page.shape.size_ge in_use.used keep)
            old_page.chain),
    );
    indices = (in_use.index, old_page.indices);
    distinct = (in_use.used, old_page.distinct);
    counted = omega (arith, old_page.counted);
  }

  pub given-Change :
      (al : SlabAllocator)
      → al.real_obj_size ≡ (s.allocators (s.owner page)).real_obj_size
      → al.inp_obj_size ≡ (s.allocators (s.owner page)).inp_obj_size
      → al.objs_per_page ≡ (s.allocators (s.owner page)).objs_per_page
      → Change s (given page ptr al s) page (s.owner page)
  given-Change al e f g = record {
    hhdm = refl;
    flags = λ p ne. refl;
    owner = λ p ne. refl;
    pobj = λ p ne. ground arith;
    nfree = λ p ne. ground arith;
    bytes = λ k out. keep k (ground (arith, out, in_page, old_page.shape.size_ge));
    allocators = λ b ne. ground arith;
    real_obj_size = ap (λ x. x.real_obj_size) (update-same s.allocators (s.owner page) al) ∙ e;
    inp_obj_size = ap (λ x. x.inp_obj_size) (update-same s.allocators (s.owner page) al) ∙ f;
    objs_per_page = ap (λ x. x.objs_per_page) (update-same s.allocators (s.owner page) al) ∙ g;
    before = λ live. refl;
    after = λ live. refl;
  }

  pub given-IsPage :
      (al : SlabAllocator)
      → al.real_obj_size ≡ (s.allocators (s.owner page)).real_obj_size
      → al.inp_obj_size ≡ (s.allocators (s.owner page)).inp_obj_size
      → al.objs_per_page ≡ (s.allocators (s.owner page)).objs_per_page
      → IsPage
          (memory (given page ptr al s))
          s.hhdm
          page
          ((given page ptr al s).allocators (s.owner page))
          ((given page ptr al s).pobj page)
          ((given page ptr al s).nfree page)
          (i ∷ free page)
  given-IsPage al e f g =
      let ch = given-Change al e f g in
      rw
        (update-same s.pobj page ptr, update-same s.nfree page ((s.nfree page + 1) % 2 ^ 32), count)
        (IsPage-same _ _ s.hhdm page ptr (s.nfree page + 1) (s.allocators (s.owner page)) _
          (i ∷ free page) (λ k ge lt. refl) ch.real_obj_size ch.inp_obj_size ch.objs_per_page
          new_page)

  pub given_count : (al : SlabAllocator) → (given page ptr al s).nfree page ≡ s.nfree page + 1
  given_count al = update-same s.nfree page _ ∙ count
