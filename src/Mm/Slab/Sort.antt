-- ===== src/Mm/Slab/Sort.antt =====
-- mm/slab.cc: a page put back on the lists of its allocator, or kept off them.
use davix.Prelude.{ℕ, sym, inl, inr, ◌∷◌, arith, ◌==◌, Bool-cases, ==→eq, ==→ne}
use davix.Prelude.Words.{add64}
use davix.Mm.Slab.{Slabs, SlabAllocator, push_partial}
use davix.Mm.Slab.Invariant.{IsPartial, IsFull, IsSorted, Change}
use davix.Mm.Slab.Frame.{Change-IsPartial_back, Change-All-IsPartial, Change-All-IsFull}
use davix.Mm.Slab.Pop.{IsSortedWithout}

pub Change-IsSortedWithout :
    {s s' : Slabs} {page a : ℕ} (ch : Change s s' page a) (al : SlabAllocator)
    → IsSortedWithout s a page al
    → IsSortedWithout s' a page al
Change-IsSortedWithout {page = page} {a = a} ch al h = record {
  partial = Change-All-IsPartial ch a al.objs_per_page al.page_partial h.partial_ne h.partial;
  partial_ne = h.partial_ne;
  partial_once = h.partial_once;
  partial_count = h.partial_count;
  listed = λ p ne q. h.listed p ne (Change-IsPartial_back ch a al.objs_per_page p ne q);
  full = Change-All-IsFull ch a al.objs_per_page al.page_full h.full_ne h.full;
  full_ne = h.full_ne;
  full_once = h.full_once;
  full_count = h.full_count;
}

module _ {s : Slabs} {a page : ℕ} (al : SlabAllocator) (h : IsSortedWithout s a page al) where
  pub IsSorted-off :
      (n e : ℕ)
      → (IsPartial s a al.objs_per_page page → ⊥)
      → IsSorted s a (record al { nfree = n; nr_empty = e })
  IsSorted-off n e not_partial = record {
    partial = h.partial;
    partial_once = h.partial_once;
    partial_count = h.partial_count;
    listed = λ p q. elim (Bool-cases (p == page)) [
      | inl same ↦ absurd (not_partial (rw (sym (==→eq p page same)) q))
      | inr ne ↦ h.listed p (==→ne p page ne) q
    ];
    full = h.full;
    full_once = h.full_once;
    full_count = h.full_count;
  }

  pub IsSorted-push_partial :
      (n e : ℕ)
      → IsPartial s a al.objs_per_page page
      → IsSorted s a (record (push_partial page al) { nfree = n; nr_empty = e })
  unfolding push_partial
  IsSorted-push_partial n e is_partial = record {
    partial = (is_partial, h.partial);
    partial_once = (h.partial_ne, h.partial_once);
    partial_count = omega (arith, h.partial_count);
    listed = λ p q. elim (Bool-cases (p == page)) [
      | inl same ↦ inl (==→eq p page same)
      | inr ne ↦ inr (h.listed p (==→ne p page ne) q)
    ];
    full = h.full;
    full_once = h.full_once;
    full_count = h.full_count;
  }

  pub IsSorted-push_full :
      (n e : ℕ)
      → IsFull s a al.objs_per_page page
      → IsSorted s a (record al {
        nr_full = add64 al.nr_full 1;
        page_full = page ∷ al.page_full;
        nfree = n;
        nr_empty = e;
      })
  IsSorted-push_full n e is_full = record {
    partial = h.partial;
    partial_once = h.partial_once;
    partial_count = h.partial_count;
    listed = λ p q. elim (Bool-cases (p == page)) [
      | inl same ↦
          let here : IsPartial s a al.objs_per_page page = rw (sym (==→eq p page same)) q in
          absurd (omega (arith, is_full.2, here.3))
      | inr ne ↦ h.listed p (==→ne p page ne) q
    ];
    full = (is_full, h.full);
    full_once = (h.full_ne, h.full_once);
    full_count = omega (arith, h.full_count);
  }
