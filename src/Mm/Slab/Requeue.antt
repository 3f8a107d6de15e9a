-- ===== src/Mm/Slab/Requeue.antt =====
-- mm/slab.cc: the lists of the allocator in `slab_free`.
use mathlib.Core.Path.{subst}
use davix.Prelude.{ℕ, ◌<◌, ◌≡◌, sym, inl, inr, arith, All-imp, ◌==◌, Bool-cases, ==→eq, ==→ne}
use davix.Prelude.Words.{sub64}
use davix.Mm.Slab.{Slabs, SlabAllocator, remove_page}
use davix.Mm.Slab.Lists.{
  All-remove_page, Distinct-remove_page, remove_page-ne, IsIn-remove_page, length-remove_page,
}
use davix.Mm.Slab.Invariant.{IsPartial, IsSorted, Change}
use davix.Mm.Slab.Frame.{Change-IsPartial, Change-IsPartial_back, Change-All-IsFull}
use davix.Mm.Slab.Pop.{IsSortedWithout, partial-ne-full}

-- A page without free objects is on no list.
pub empty_page :
    (s : Slabs) (a page : ℕ) (al : SlabAllocator)
    → s.nfree page ≡ 0
    → 0 < al.objs_per_page
    → IsSorted s a al
    → IsSortedWithout s a page al
empty_page s a page al none pos h = record {
  partial = h.partial;
  partial_ne =
      All-imp (λ p q e. omega (arith, none, subst (λ r. 0 < s.nfree r) (sym e) q.2)) al.page_partial
        h.partial;
  partial_once = h.partial_once;
  partial_count = h.partial_count;
  listed = λ p ne q. h.listed p q;
  full = h.full;
  full_ne =
      partial-ne-full s a al.objs_per_page page al.page_full (omega (arith, none, pos)) h.full;
  full_once = h.full_once;
  full_count = h.full_count;
}

-- A page that is partial is taken off its list.
pub removed_page :
    (s : Slabs) (a page : ℕ) (al : SlabAllocator)
    → IsPartial s a al.objs_per_page page
    → IsSorted s a al
    → IsSortedWithout s a page (record al {
      page_partial = remove_page page al.page_partial;
      nr_partial = sub64 al.nr_partial 1;
    })
removed_page s a page al is_partial h =
    let shorter =
      length-remove_page page al.page_partial h.partial_once (h.listed page is_partial) in
    record {
      partial = All-remove_page (IsPartial s a al.objs_per_page) page al.page_partial h.partial;
      partial_ne = remove_page-ne page al.page_partial;
      partial_once = Distinct-remove_page page al.page_partial h.partial_once;
      partial_count = omega (arith, h.partial_count, shorter);
      listed = λ p ne q. IsIn-remove_page page p al.page_partial ne (h.listed p q);
      full = h.full;
      full_ne = partial-ne-full s a al.objs_per_page page al.page_full is_partial.3 h.full;
      full_once = h.full_once;
      full_count = h.full_count;
    }

-- A page that is partial and stays so keeps its place.
pub staying_page :
    {s s' : Slabs} {page a : ℕ} (ch : Change s s' page a) (al : SlabAllocator) (n : ℕ)
    → IsPartial s a al.objs_per_page page
    → IsPartial s' a al.objs_per_page page
    → IsSorted s a al
    → IsSorted s' a (record al { nfree = n })
staying_page {s = s} {s' = s'} {page = page} {a = a} ch al n was is h = record {
  partial =
      All-imp
        (λ p q. elim (Bool-cases (p == page)) [
          | inl e ↦ rw (==→eq p page e) is
          | inr e ↦ Change-IsPartial ch a al.objs_per_page p (==→ne p page e) q
        ])
        al.page_partial h.partial;
  partial_once = h.partial_once;
  partial_count = h.partial_count;
  listed = λ p q. elim (Bool-cases (p == page)) [
    | inl e ↦ h.listed p (rw (==→eq p page e) was)
    | inr e ↦ h.listed p (Change-IsPartial_back ch a al.objs_per_page p (==→ne p page e) q)
  ];
  full =
      Change-All-IsFull ch a al.objs_per_page al.page_full
        (partial-ne-full s a al.objs_per_page page al.page_full was.3 h.full) h.full;
  full_once = h.full_once;
  full_count = h.full_count;
}
