-- ===== src/Mm/Slab/Free.antt =====
-- mm/slab.cc: what `slab_free` promises.
use mathlib.Core.Path.{subst}
use davix.Prelude.{
  ℕ, suc, ◌+◌, ◌*◌, ◌≤◌, ◌≡◌, ◌≢◌, refl, sym, ◌⊎◌, inl, inr, List, [], ◌∷◌, arith, All, All-imp,
  length, ◌==◌, Bool-cases,
}
use davix.Prelude.Words.{word_mod}
use davix.Mm.PageAlloc.{update, free_page, page_zone}
use davix.Mm.PageAlloc.Laws.{IsTaken, update-same, free_page-IsValid}
use davix.Mm.Slab.{Slabs, SlabAllocator, memory, page_slab}
use davix.Mm.Slab.Invariant.{IsSlab, IsFresh, IsSorted, Holds, Change}
use davix.Mm.Slab.Frame.{Change-Holds}
use davix.Mm.Slab.Pop.{IsSortedWithout}
use davix.Mm.Slab.Sort.{Change-IsSortedWithout, IsSorted-off}
use davix.Mm.Slab.Give.{IsInUse, given, pointers, keep, old_page, given-Change, given-IsPage}
use davix.Mm.Slab.Take.{KeepsOthers}

-- The object is free: it heads the chain of its page, or all objects of the page are free and the page is back with
-- the page allocator. No byte has changed but the eight that hold the pointer.
abbrev pub IsFreed : Slabs → (ℕ → List ℕ) → ℕ → ℕ → Slabs → Type 0
IsFreed s free page i t =
    KeepsOthers (pointers (s.allocators (s.owner page))) page i (memory s) (memory t)
    × ((IsSlab t page × Holds t (update free page (i ∷ free page)))
        ⊎ ((t.pages.flags page ≢ page_slab)
            × (suc (length (free page)) ≡ (s.allocators (s.owner page)).objs_per_page)
            × (t.pages.free_list (page_zone page) ≡ page ∷ s.pages.free_list (page_zone page))
            × Holds t (update free page [])))

-- The state with the object on the chain and the page with the page allocator.
abbrev released : ℕ → ℕ → SlabAllocator → Slabs → Slabs
released page ptr al s = let t = given page ptr al s in record t { pages = free_page page t.pages }

module _ (s : Slabs) (free : ℕ → List ℕ) (page i ptr : ℕ) (h : Holds s free)
    (in_use : IsInUse s free page i ptr) (al : SlabAllocator)
    (real : al.real_obj_size ≡ (s.allocators (s.owner page)).real_obj_size)
    (inp : al.inp_obj_size ≡ (s.allocators (s.owner page)).inp_obj_size)
    (objs : al.objs_per_page ≡ (s.allocators (s.owner page)).objs_per_page) where
  -- The page stays with the allocator.
  pub given-IsFreed :
      IsSorted (given page ptr al s) (s.owner page) al → IsFreed s free page i (given page ptr al s)
  given-IsFreed sorted = (
    keep s free page i ptr h in_use,
    inl (
      in_use.live,
      Change-Holds (given-Change s free page i ptr h in_use al real inp objs) free (i ∷ free page) h
          (λ live. given-IsPage s free page i ptr h in_use al real inp objs)
          (subst (IsSorted (given page ptr al s) (s.owner page))
            (sym (update-same s.allocators (s.owner page) al)) sorted)
          h.fresh (record { zones = h.valid.zones; total = h.valid.total }),
    ),
  )

  released-Change : Change s (released page ptr al s) page (s.owner page)
  unfolding free_page
  released-Change =
      let ch = given-Change s free page i ptr h in_use al real inp objs in
      record {
        hhdm = refl;
        flags = λ p ne. ground arith;
        owner = λ p ne. refl;
        pobj = ch.pobj;
        nfree = ch.nfree;
        bytes = ch.bytes;
        allocators = ch.allocators;
        real_obj_size = ch.real_obj_size;
        inp_obj_size = ch.inp_obj_size;
        objs_per_page = ch.objs_per_page;
        before = λ live. refl;
        after = λ live. refl;
      }

  not_listed : IsTaken page s.pages
  not_listed zone =
      All-imp (λ q f e. f.0 (rw (sym e) in_use.live)) (s.pages.free_list zone) (h.fresh zone)

  still_fresh :
      (xs : List ℕ)
      → All (IsFresh s) xs
      → All
          (λ q. (update s.pages.flags page 0 q ≢ page_slab) × (s.hhdm + q * 4096 + 4096 ≤ word_mod))
          xs
  still_fresh xs f = All-imp (λ q x. (ground (arith, x.0), x.1)) xs f

  -- The page goes back to the page allocator.
  pub released-IsFreed :
      suc (length (free page)) ≡ (s.allocators (s.owner page)).objs_per_page
      → IsSortedWithout s (s.owner page) page al
      → IsFreed s free page i (released page ptr al s)
  unfolding free_page
  released-IsFreed all_free sorted =
      let ch = released-Change in
      let cleared : (released page ptr al s).pages.flags page ≢ page_slab =
        (λ e. omega (arith, update-same s.pages.flags page 0, e)) in
      (
        keep s free page i ptr h in_use,
        inr (
          cleared,
          all_free,
          update-same s.pages.free_list (page_zone page) _,
          Change-Holds ch free [] h (λ live. absurd (cleared live))
              (subst (IsSorted (released page ptr al s) (s.owner page))
                (sym (update-same s.allocators (s.owner page) al))
                (IsSorted-off al (Change-IsSortedWithout ch al sorted) al.nfree al.nr_empty
                  (λ p. cleared p.0)))
              (λ zone. elim (Bool-cases (page_zone page == zone)) [
                | inl e ↦ rw e (
                  (cleared, (old_page s free page i ptr h in_use).room),
                  still_fresh _ (h.fresh (page_zone page)),
                )
                | inr e ↦ rw e (still_fresh _ (h.fresh zone))
              ])
              (free_page-IsValid page _ (record { zones = h.valid.zones; total = h.valid.total })
                not_listed),
        ),
      )
