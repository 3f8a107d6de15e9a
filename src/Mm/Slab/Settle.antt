-- ===== src/Mm/Slab/Settle.antt =====
-- mm/slab.cc: `slab_free` as a whole.
use davix.Prelude.{
  ℕ, ◌+◌, ◌/◌, ◌%◌, ◌^◌, ◌≤◌, ◌<◌, ◌≡◌, ◌≢◌, refl, inl, inr, List, ◌∷◌, arith, ◌==◌, Bool-cases,
  ==→eq, ==→ne, ltb,
}
use davix.Prelude.Words.{add64, sub64}
use davix.Mm.Slab.{Slabs, SlabAllocator, remove_page, push_partial, settle_page, slab_free}
use davix.Mm.Slab.Invariant.{IsPartial, IsSorted, Holds}
use davix.Mm.Slab.Pop.{IsSortedWithout}
use davix.Mm.Slab.Sort.{Change-IsSortedWithout, IsSorted-push_partial, IsSorted-push_full}
use davix.Mm.Slab.Give.{
  IsInUse, given, of_page, not_full, count, given-Change, given_count, old_page,
}
use davix.Mm.Slab.Requeue.{empty_page, removed_page, staying_page}
use davix.Mm.Slab.Free.{IsFreed, given-IsFreed, released-IsFreed}

module _ (s : Slabs) (free : ℕ → List ℕ) (page i ptr : ℕ) (h : Holds s free)
    (in_use : IsInUse s free page i ptr) where
  first_of_page :
      (n e : ℕ)
      → s.nfree page ≡ 0
      → IsFreed s free page i (
          given page ptr
            (record (push_partial page (s.allocators (s.owner page))) { nfree = n; nr_empty = e })
            s)
  unfolding push_partial
  first_of_page n e none =
      let al = s.allocators (s.owner page) in
      let al' = record (push_partial page al) { nfree = n; nr_empty = e } in
      let ch = given-Change s free page i ptr h in_use al' refl refl refl in
      let counted = given_count s free page i ptr h in_use al' in
      let shape = (old_page s free page i ptr h in_use).shape in
      let many : 2 ≤ 4096 / al.real_obj_size = grind (arith, shape.size_ge, shape.size_le) in
      let pos : 1 < al.objs_per_page = omega (arith, shape.objs, many) in
      given-IsFreed s free page i ptr h in_use al' refl refl refl (
        IsSorted-push_partial al
          (Change-IsSortedWithout ch al (
            empty_page s (s.owner page) page al none (omega (arith, pos))
              (h.sorted (s.owner page))))
          n e (in_use.live, refl, omega (arith, counted), omega (arith, counted, none, pos)))

  was-IsPartial :
      0 < s.nfree page → IsPartial s (s.owner page) (s.allocators (s.owner page)).objs_per_page page
  was-IsPartial some = (in_use.live, refl, some, not_full s free page i ptr h in_use)

  middle_of_page :
      (n : ℕ)
      → 0 < s.nfree page
      → s.nfree page + 1 ≢ (s.allocators (s.owner page)).objs_per_page
      → IsFreed s free page i
          (given page ptr (record (s.allocators (s.owner page)) { nfree = n }) s)
  middle_of_page n some ne =
      let al = s.allocators (s.owner page) in
      let al' = record al { nfree = n } in
      let ch = given-Change s free page i ptr h in_use al' refl refl refl in
      let counted = given_count s free page i ptr h in_use al' in
      given-IsFreed s free page i ptr h in_use al' refl refl refl (
        staying_page ch al n (was-IsPartial some)
          (
            in_use.live,
            refl,
            omega (arith, counted),
            omega (arith, counted, ne, not_full s free page i ptr h in_use),
          )
          (h.sorted (s.owner page)))

  -- `nfree` of the allocator plays no part in how its pages are sorted.
  IsSorted-nfree :
      (n : ℕ) → IsSorted s (s.owner page) (record (s.allocators (s.owner page)) { nfree = n })
  IsSorted-nfree n =
      let d = h.sorted (s.owner page) in
      record {
        partial = d.partial;
        partial_once = d.partial_once;
        partial_count = d.partial_count;
        listed = d.listed;
        full = d.full;
        full_once = d.full_once;
        full_count = d.full_count;
      }

  -- The allocator whose list of partial pages has lost the page.
  lost_page : ℕ → SlabAllocator
  lost_page n =
      let al = s.allocators (s.owner page) in
      record al {
        nfree = n;
        page_partial = remove_page page al.page_partial;
        nr_partial = sub64 al.nr_partial 1;
      }

  lost_sorted : (n : ℕ) → 0 < s.nfree page → IsSortedWithout s (s.owner page) page (lost_page n)
  unfolding lost_page
  lost_sorted n some =
      removed_page s (s.owner page) page (record (s.allocators (s.owner page)) { nfree = n })
        (was-IsPartial some) (IsSorted-nfree n)

  last_of_page :
      (n : ℕ)
      → 0 < s.nfree page
      → s.nfree page + 1 ≡ (s.allocators (s.owner page)).objs_per_page
      → IsFreed s free page i (
          given page ptr
            (record (lost_page n) {
              nr_full = add64 (lost_page n).nr_full 1;
              page_full = page ∷ (lost_page n).page_full;
            })
            s)
  unfolding lost_page
  last_of_page n some all =
      let al' = record (lost_page n) {
        nr_full = add64 (lost_page n).nr_full 1;
        page_full = page ∷ (lost_page n).page_full;
      } in
      let ch = given-Change s free page i ptr h in_use al' refl refl refl in
      let counted = given_count s free page i ptr h in_use al' in
      given-IsFreed s free page i ptr h in_use al' refl refl refl (
        IsSorted-push_full (lost_page n)
          (Change-IsSortedWithout ch (lost_page n) (lost_sorted n some)) n (lost_page n).nr_empty
          (in_use.live, refl, omega (arith, counted, all)))

  -- For an object in use of a page of the slab allocator, in a state that satisfies the invariant: after `slab_free`,
  -- the invariant holds and the object is free, either at the head of the chain of its page, or, when all objects of the page
  -- are free then, with the page back at the front of the free list of its zone; and no byte of memory has changed outside
  -- of the eight bytes of the object that hold the pointer.
  pub slab_free-IsFreed : IsFreed s free page i (slab_free ptr s)
  unfolding slab_free settle_page lost_page push_partial
  slab_free-IsFreed =
      let al = s.allocators (s.owner page) in
      let n = add64 al.nfree 1 in
      let length_same = (old_page s free page i ptr h in_use).counted in
      let below = not_full s free page i ptr h in_use in
      rw (of_page s free page i ptr h in_use)
        (elim (Bool-cases ((s.nfree page + 1) % 2 ^ 32 == 1)) [
          | inl e ↦ rw e (
              first_of_page n (sub64 al.nr_empty 1) (
                omega (
                  arith,
                  ==→eq ((s.nfree page + 1) % 2 ^ 32) 1 e,
                  count s free page i ptr h in_use,
                )))
          | inr e ↦
              let some : 0 < s.nfree page = omega (
                arith,
                ==→ne ((s.nfree page + 1) % 2 ^ 32) 1 e,
                count s free page i ptr h in_use,
              ) in
              elim (Bool-cases ((s.nfree page + 1) % 2 ^ 32 == al.objs_per_page)) [
                | inl f ↦
                    let all : s.nfree page + 1 ≡ al.objs_per_page = omega (
                      arith,
                      ==→eq ((s.nfree page + 1) % 2 ^ 32) al.objs_per_page f,
                      count s free page i ptr h in_use,
                    ) in
                    elim (Bool-cases (ltb al.nr_full 1)) [
                      | inl g ↦ rw (e, f, g) (last_of_page n some all)
                      | inr g ↦
                          rw (e, f, g)
                            (released-IsFreed s free page i ptr h in_use
                              (lost_page (sub64 n al.objs_per_page)) refl refl refl
                              (omega (arith, all, length_same))
                              (lost_sorted (sub64 n al.objs_per_page) some))
                    ]
                | inr f ↦
                    rw (e, f)
                      (middle_of_page n some (
                        omega (
                          arith,
                          ==→ne ((s.nfree page + 1) % 2 ^ 32) al.objs_per_page f,
                          count s free page i ptr h in_use,
                        )))
              ]
        ])
