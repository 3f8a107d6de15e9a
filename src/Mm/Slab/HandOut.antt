-- ===== src/Mm/Slab/HandOut.antt =====
-- mm/slab.cc: an object that `slab_alloc` hands out.
use davix.Prelude.{
  ℕ, ◌+◌, ◌-◌, ◌*◌, ◌≤◌, ◌<◌, ◌≡◌, ◌≢◌, refl, ap, ◌∙◌, ◌⊎◌, inl, List, [], ◌∷◌, arith, All, length,
  Option, some, none,
}
use davix.Prelude.Words.{sub64}
use davix.Mm.Zone.{has_flag, alloc_zero}
use davix.Mm.PageAlloc.{update}
use davix.Mm.PageAlloc.Laws.{update-same}
use davix.Mm.Slab.{Slabs, SlabAllocator, memory, page_slab, wrap, put_page, dec32, take_object}
use davix.Mm.Slab.Chain.{upto}
use davix.Mm.Slab.Invariant.{IsSlab, Holds}
use davix.Mm.Slab.Pop.{Popped}
use davix.Mm.Slab.Take.{
  object_of, KeepsOthers, zero_if, taken_address, taken_start, taken-Holds, taken-Change,
  put_page-inp_obj_size, of_page,
}

-- Where the object comes from: the head of the chain of a page, or the first object of a page that the page
-- allocator gave. No other byte has changed but those of the object, or of the new page.
abbrev pub ComesFrom : Slabs → (ℕ → List ℕ) → ℕ → ℕ → ℕ → List ℕ → Slabs → Type 0
ComesFrom s free a page i xs t =
    (IsSlab s page
      × (s.owner page ≡ a)
      × (free page ≡ i ∷ xs)
      × KeepsOthers (s.allocators a) page i (memory s) (memory t))
    ⊎ ((s.pages.flags page ≢ page_slab)
        × (i ≡ 0)
        × (xs ≡ upto 1 ((s.allocators a).objs_per_page - 1))
        × ((k : ℕ) → (k < page * 4096) ⊎ (page * 4096 + 4096 ≤ k) → memory t k ≡ memory s k))

-- The object at `ptr` is handed out: it is the object `i` of a page of the allocator, and
-- it is not among the free objects `xs` that the page has left.
pub record IsHandedOut (s : Slabs) (free : ℕ → List ℕ) (a ptr : ℕ) (t : Slabs) : Type 0 where
  pub page : ℕ
  pub i : ℕ
  pub xs : List ℕ
  pub live : IsSlab t page
  pub owner : t.owner page ≡ a
  pub index : i < (t.allocators a).objs_per_page
  pub address : ptr ≡ s.hhdm + object_of (s.allocators a) page i
  pub not_free : All (λ j. i ≢ j) xs
  pub origin : ComesFrom s free a page i xs t
  pub holds : Holds t (update free page xs)

abbrev pub IsAllocation : Slabs → (ℕ → List ℕ) → ℕ → Option ℕ × Slabs → Type 0
IsAllocation s free a (none, t) = Holds t free × ((k : ℕ) → memory t k ≡ memory s k)
IsAllocation s free a (some ptr, t) = IsHandedOut s free a ptr t

pub take_object-IsHandedOut :
    (aclass : ℕ) (s : Slabs) (free : ℕ → List ℕ) (a page : ℕ) (al : SlabAllocator) (xs : List ℕ)
    → Holds s free
    → Popped s a page (s.allocators a) al
    → free page ≡ xs
    → IsAllocation s free a (take_object a aclass page al s)
unfolding take_object wrap
take_object-IsHandedOut aclass s free a page al [] h popped head =
    let count = (h.slab_pages page popped.live).counted in
    absurd (omega (arith, popped.some_free, count, ap (λ ys. length ys) head))
take_object-IsHandedOut aclass s free a page al (i ∷ xs) h popped head =
    let same : KeepsOthers (s.allocators a) page i (memory s) (memory s) = (λ k out. refl) in
    let start = taken_start s free a page al (memory s) i xs h popped head same in
    let t = (take_object a aclass page al s).1 in
    let size : (update s.allocators a
          (record (put_page page (dec32 (s.nfree page)) al) {
            nfree = sub64 (put_page page (dec32 (s.nfree page)) al).nfree 1;
          })
          a).inp_obj_size
        ≡ (s.allocators a).inp_obj_size =
      ap (λ x. x.inp_obj_size) (update-same s.allocators a _)
      ∙ put_page-inp_obj_size page (dec32 (s.nfree page)) al
      ∙ popped.inp_obj_size in
    let keep : KeepsOthers (s.allocators a) page i (memory s) (memory t) = (λ k out.
      zero_if (has_flag aclass alloc_zero) (memory s) _ _ k (ground (arith, out, start, size))) in
    let of_page = of_page s free a page al (memory s) i xs h popped head same in
    record {
      page = page;
      i = i;
      xs = xs;
      live = popped.live;
      owner = popped.owner;
      index = omega (
        arith,
        of_page.indices.0,
        (taken-Change s free a page al (memory t) i xs h popped head keep).objs_per_page,
      );
      address = taken_address s free a page al (memory s) i xs h popped head same;
      not_free = of_page.distinct.0;
      origin = inl (popped.live, popped.owner, head, keep);
      holds = taken-Holds s free a page al (memory t) i xs h popped head keep;
    }
