-- ===== src/Mm/Slab/Invariant.antt =====
-- mm/slab.cc: the invariant of the pages and of the lists of an allocator.
use davix.Prelude.{
  ℕ, ◌+◌, ◌*◌, ◌/◌, ◌%◌, ◌≤◌, ◌<◌, ◌≡◌, ◌≢◌, ◌∙◌, ◌⊎◌, List, arith, All, All-imp, length,
}
use davix.Prelude.Words.{word_mod}
use davix.Mm.PageAlloc.Laws.{Distinct, IsValid}
use davix.Mm.Slab.{Slabs, SlabAllocator, memory, page_slab}
use davix.Mm.Slab.Lists.{IsIn}
use davix.Mm.Slab.Chain.{Chain, Chain-same, mul_fits}

-- What `slab_create` sees to.
pub record IsShape (al : SlabAllocator) : Type 0 where
  pub size_ge : 8 ≤ al.real_obj_size
  pub size_le : al.real_obj_size ≤ 2048
  pub inp : al.inp_obj_size ≤ al.real_obj_size
  pub objs : al.objs_per_page ≡ 4096 / al.real_obj_size

-- A page of the slab allocator: its chain has the free objects `xs`, each once.
pub record IsPage (bytes : ℕ → ℕ) (hhdm page : ℕ) (al : SlabAllocator) (ptr count : ℕ) (xs : List ℕ)
    : Type 0 where
  pub shape : IsShape al
  pub room : hhdm + page * 4096 + 4096 ≤ word_mod
  pub chain : Chain bytes hhdm (page * 4096) al.real_obj_size ptr xs
  pub indices : All (λ i. i < al.objs_per_page) xs
  pub distinct : Distinct xs
  pub counted : count ≡ length xs

abbrev pub IsSlab : Slabs → ℕ → Type 0
IsSlab s page = s.pages.flags page ≡ page_slab

abbrev pub IsPartial : Slabs → ℕ → ℕ → ℕ → Type 0
IsPartial s a objs page =
    IsSlab s page × (s.owner page ≡ a) × (0 < s.nfree page) × (s.nfree page < objs)

abbrev pub IsFull : Slabs → ℕ → ℕ → ℕ → Type 0
IsFull s a objs page = IsSlab s page × (s.owner page ≡ a) × (s.nfree page ≡ objs)

-- The lists of an allocator: the partial pages are all of its pages that have a free object and one in use.
pub record IsSorted (s : Slabs) (a : ℕ) (al : SlabAllocator) : Type 0 where
  pub partial : All (IsPartial s a al.objs_per_page) al.page_partial
  pub partial_once : Distinct al.page_partial
  pub partial_count : al.nr_partial ≡ length al.page_partial % word_mod
  pub listed : (page : ℕ) → IsPartial s a al.objs_per_page page → IsIn page al.page_partial
  pub full : All (IsFull s a al.objs_per_page) al.page_full
  pub full_once : Distinct al.page_full
  pub full_count : al.nr_full ≡ length al.page_full % word_mod

-- A page that may become a page of the slab allocator.
abbrev pub IsFresh : Slabs → ℕ → Type 0
IsFresh s page = (s.pages.flags page ≢ page_slab) × (s.hhdm + page * 4096 + 4096 ≤ word_mod)

-- The state as a whole, with the free objects of each page.
pub record Holds (s : Slabs) (free : ℕ → List ℕ) : Type 0 where
  pub slab_pages :
      (page : ℕ)
      → IsSlab s page
      → IsPage
          (memory s)
          s.hhdm
          page
          (s.allocators (s.owner page))
          (s.pobj page)
          (s.nfree page)
          (free page)
  pub sorted : (a : ℕ) → IsSorted s a (s.allocators a)
  pub fresh : (zone : ℕ) → All (IsFresh s) (s.pages.free_list zone)
  pub valid : IsValid s.pages

-- What the operations on one page of one allocator leave alone.
pub record Change (s s' : Slabs) (page a : ℕ) : Type 0 where
  pub hhdm : s'.hhdm ≡ s.hhdm
  pub flags : (p : ℕ) → p ≢ page → s'.pages.flags p ≡ s.pages.flags p
  pub owner : (p : ℕ) → p ≢ page → s'.owner p ≡ s.owner p
  pub pobj : (p : ℕ) → p ≢ page → s'.pobj p ≡ s.pobj p
  pub nfree : (p : ℕ) → p ≢ page → s'.nfree p ≡ s.nfree p
  pub bytes : (k : ℕ) → (k < page * 4096) ⊎ (page * 4096 + 4096 ≤ k) → memory s' k ≡ memory s k
  pub allocators : (b : ℕ) → b ≢ a → s'.allocators b ≡ s.allocators b
  pub real_obj_size : (s'.allocators a).real_obj_size ≡ (s.allocators a).real_obj_size
  pub inp_obj_size : (s'.allocators a).inp_obj_size ≡ (s.allocators a).inp_obj_size
  pub objs_per_page : (s'.allocators a).objs_per_page ≡ (s.allocators a).objs_per_page
  pub before : IsSlab s page → s.owner page ≡ a
  pub after : IsSlab s' page → s'.owner page ≡ a

pub IsShape-same :
    (al al' : SlabAllocator)
    → al'.real_obj_size ≡ al.real_obj_size
    → al'.inp_obj_size ≡ al.inp_obj_size
    → al'.objs_per_page ≡ al.objs_per_page
    → IsShape al
    → IsShape al'
IsShape-same al al' e f g h = record {
  size_ge = omega (arith, h.size_ge, e);
  size_le = omega (arith, h.size_le, e);
  inp = omega (arith, h.inp, e, f);
  objs = g ∙ rw e h.objs;
}

-- Memory may change outside of the page.
pub IsPage-same :
    (m m' : ℕ → ℕ) (hhdm page ptr count : ℕ) (al al' : SlabAllocator) (xs : List ℕ)
    → ((k : ℕ) → page * 4096 ≤ k → k < page * 4096 + 4096 → m k ≡ m' k)
    → al'.real_obj_size ≡ al.real_obj_size
    → al'.inp_obj_size ≡ al.inp_obj_size
    → al'.objs_per_page ≡ al.objs_per_page
    → IsPage m hhdm page al ptr count xs
    → IsPage m' hhdm page al' ptr count xs
IsPage-same m m' hhdm page ptr count al al' xs same e f g h = record {
  shape = IsShape-same al al' e f g h.shape;
  room = h.room;
  chain = rw e (
      Chain-same m m' hhdm (page * 4096) al.real_obj_size ptr xs
        (All-imp
          (λ i lt k ge low.
            let fits =
              mul_fits i al.real_obj_size (omega (arith, h.shape.size_ge))
                (omega (arith, lt, h.shape.objs)) in
            same k (omega arith) (omega (arith, fits, h.shape.size_ge)))
          xs h.indices)
        h.chain);
  indices = rw g h.indices;
  distinct = h.distinct;
  counted = h.counted;
}
