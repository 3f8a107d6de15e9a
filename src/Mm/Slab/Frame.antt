-- ===== src/Mm/Slab/Frame.antt =====
-- mm/slab.cc: an operation on one page of one allocator keeps the invariant of all others.
use mathlib.Core.Path.{subst}
use davix.Prelude.{
  ℕ, ◌≡◌, ◌≢◌, refl, sym, ◌∙◌, inl, inr, List, [], ◌∷◌, arith, All, All-imp, ◌==◌, Bool-cases,
  ==→eq, ==→ne,
}
use davix.Mm.PageAlloc.{update}
use davix.Mm.PageAlloc.Laws.{IsValid}
use davix.Mm.Slab.{Slabs, SlabAllocator, memory}
use davix.Mm.Slab.Invariant.{
  IsPage, IsSlab, IsPartial, IsFull, IsSorted, IsFresh, Holds, Change, IsPage-same,
}

module _ {s s' : Slabs} {page a : ℕ} (ch : Change s s' page a) where
  pub Change-IsPartial : (b objs p : ℕ) → p ≢ page → IsPartial s b objs p → IsPartial s' b objs p
  Change-IsPartial b objs p ne h =
      let same = ch.flags p ne in
      let owner = ch.owner p ne in
      let count = ch.nfree p ne in
      (same ∙ h.0, owner ∙ h.1, omega (arith, h, count), omega (arith, h, count))

  pub Change-IsPartial_back :
      (b objs p : ℕ) → p ≢ page → IsPartial s' b objs p → IsPartial s b objs p
  Change-IsPartial_back b objs p ne h =
      let same = ch.flags p ne in
      let owner = ch.owner p ne in
      let count = ch.nfree p ne in
      (sym same ∙ h.0, sym owner ∙ h.1, omega (arith, h, count), omega (arith, h, count))

  pub Change-IsFull : (b objs p : ℕ) → p ≢ page → IsFull s b objs p → IsFull s' b objs p
  Change-IsFull b objs p ne h = (ch.flags p ne ∙ h.0, ch.owner p ne ∙ h.1, ch.nfree p ne ∙ h.2)

  pub Change-All-IsPartial :
      (b objs : ℕ) (xs : List ℕ)
      → All (λ p. page ≢ p) xs
      → All (IsPartial s b objs) xs
      → All (IsPartial s' b objs) xs
  Change-All-IsPartial b objs [] ne h = tt
  Change-All-IsPartial b objs (x ∷ xs) ne h =
      (Change-IsPartial b objs x (λ e. ne.0 (sym e)) h.0, Change-All-IsPartial b objs xs ne.1 h.1)

  pub Change-All-IsFull :
      (b objs : ℕ) (xs : List ℕ)
      → All (λ p. page ≢ p) xs
      → All (IsFull s b objs) xs
      → All (IsFull s' b objs) xs
  Change-All-IsFull b objs [] ne h = tt
  Change-All-IsFull b objs (x ∷ xs) ne h =
      (Change-IsFull b objs x (λ e. ne.0 (sym e)) h.0, Change-All-IsFull b objs xs ne.1 h.1)

  -- The page is on no list of another allocator.
  Change-IsSorted_other : (b : ℕ) (al : SlabAllocator) → b ≢ a → IsSorted s b al → IsSorted s' b al
  Change-IsSorted_other b al ne h = record {
    partial =
        Change-All-IsPartial b al.objs_per_page al.page_partial
          (All-imp
            (λ p q e. ne (
              sym (subst (λ r. s.owner r ≡ b) (sym e) q.1)
              ∙ ch.before (subst (IsSlab s) (sym e) q.0)))
            al.page_partial h.partial)
          h.partial;
    partial_once = h.partial_once;
    partial_count = h.partial_count;
    listed = λ p q. elim (Bool-cases (p == page)) [
      | inl e ↦ absurd (
          ne (
            sym (subst (λ r. s'.owner r ≡ b) (==→eq p page e) q.1)
            ∙ ch.after (subst (IsSlab s') (==→eq p page e) q.0)))
      | inr e ↦ h.listed p (Change-IsPartial_back b al.objs_per_page p (==→ne p page e) q)
    ];
    full =
        Change-All-IsFull b al.objs_per_page al.page_full
          (All-imp
            (λ p q e. ne (
              sym (subst (λ r. s.owner r ≡ b) (sym e) q.1)
              ∙ ch.before (subst (IsSlab s) (sym e) q.0)))
            al.page_full h.full)
          h.full;
    full_once = h.full_once;
    full_count = h.full_count;
  }

  same_allocator :
      (b : ℕ)
      → (P : SlabAllocator → SlabAllocator → Type 0) → ((al : SlabAllocator) → P al al)
      → P (s.allocators a) (s'.allocators a)
      → P (s.allocators b) (s'.allocators b)
  same_allocator b P r here = elim (Bool-cases (b == a)) [
    | inl e ↦ rw (==→eq b a e) here
    | inr e ↦ rw (ch.allocators b (==→ne b a e)) (r (s.allocators b))
  ]

  Change-IsPage :
      (p : ℕ) (xs : List ℕ)
      → p ≢ page
      → IsPage (memory s) s.hhdm p (s.allocators (s.owner p)) (s.pobj p) (s.nfree p) xs
      → IsPage (memory s') s'.hhdm p (s'.allocators (s'.owner p)) (s'.pobj p) (s'.nfree p) xs
  Change-IsPage p xs ne h =
      let b = s.owner p in
      let al = s'.allocators b in
      rw (ch.hhdm, ch.owner p ne, ch.pobj p ne, ch.nfree p ne)
        (IsPage-same (memory s) (memory s') s.hhdm p (s.pobj p) (s.nfree p) (s.allocators b)
          (s'.allocators b) xs (λ k ge lt. sym (ch.bytes k (ground arith)))
          (same_allocator b (λ x y. y.real_obj_size ≡ x.real_obj_size) (λ x. refl) ch.real_obj_size)
          (same_allocator b (λ x y. y.inp_obj_size ≡ x.inp_obj_size) (λ x. refl) ch.inp_obj_size)
          (same_allocator b (λ x y. y.objs_per_page ≡ x.objs_per_page) (λ x. refl) ch.objs_per_page)
          h)

  -- What is left to show of an operation: its page, its allocator, and the page allocator.
  pub Change-Holds :
      (free : ℕ → List ℕ) (xs : List ℕ)
      → Holds s free
      → (IsSlab s' page
          → IsPage (memory s') s'.hhdm page (s'.allocators a) (s'.pobj page) (s'.nfree page) xs)
      → IsSorted s' a (s'.allocators a)
      → ((zone : ℕ) → All (IsFresh s') (s'.pages.free_list zone))
      → IsValid s'.pages
      → Holds s' (update free page xs)
  Change-Holds free xs h here sorted fresh valid = record {
    slab_pages = λ p live. elim (Bool-cases (page == p)) [
      | inl e ↦
          let same = ==→eq page p e in
          let live' : IsSlab s' page = subst (IsSlab s') (sym same) live in
          rw e (
            subst
              (λ q.
                IsPage (memory s') s'.hhdm q (s'.allocators (s'.owner q)) (s'.pobj q) (s'.nfree q)
                  xs)
              same (rw (ch.after live') (here live')))
      | inr e ↦
          let ne : p ≢ page = (λ same. ==→ne page p e (sym same)) in
          rw e (Change-IsPage p (free p) ne (h.slab_pages p (sym (ch.flags p ne) ∙ live)))
    ];
    sorted = λ b. elim (Bool-cases (b == a)) [
      | inl e ↦ rw (==→eq b a e) sorted
      | inr e ↦
          rw (ch.allocators b (==→ne b a e))
            (Change-IsSorted_other b (s.allocators b) (==→ne b a e) (h.sorted b))
    ];
    fresh = fresh;
    valid = valid;
  }
