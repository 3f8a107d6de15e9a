-- ===== src/Mm/Slab/Kmalloc.antt =====
-- mm/slab.cc: `slab_create`, `kmalloc`, `kfree` and `kmalloc_init`. A panic is no result.
use davix.Prelude.{
  ℕ, suc, ◌*◌, ◌/◌, ◌≤◌, ◌<◌, ◌≡◌, refl, ◌⊎◌, inl, inr, List, [], ◌∷◌, arith, All, ◌==◌, Bool-cases,
  if◌then◌else◌, not, ◌||◌, ltb, leb, leb→le, ==→eq, bit_and, Option, some, none,
}
use davix.Prelude.Words.{sub64}
use davix.Dsl.Align.{align_up}
use davix.Mm.PageAlloc.{page_size, update}
use davix.Mm.Slab.{Slabs, SlabAllocator, with_allocator, slab_alloc, slab_free}
use davix.Mm.Slab.Invariant.{IsShape, Holds}
use davix.Mm.Slab.HandOut.{IsAllocation}
use davix.Mm.Slab.Alloc.{slab_alloc-IsAllocation}

unfoldable pub init_new_allocator : ℕ → ℕ → SlabAllocator
init_new_allocator inp_obj_size real_obj_size = record {
  nr_full = 0;
  nr_partial = 0;
  page_full = [];
  page_partial = [];
  nr_empty = 0;
  nfree = 0;
  inp_obj_size = inp_obj_size;
  real_obj_size = real_obj_size;
  objs_per_page = page_size / real_obj_size;
}

abbrev pub finish_create : ℕ → ℕ → Option ℕ × Slabs → Option ℕ × Slabs
finish_create size align (none, s) = (none, s)
finish_create size align (some a, s) =
    (some a, with_allocator a (init_new_allocator size (align_up size align)) s)

-- ALLOC_KERNEL is 0, and a pointer has 8 bytes.
unfoldable pub slab_create : ℕ → ℕ → Slabs → Option ℕ × Slabs
slab_create size align s =
    if not (bit_and align (sub64 align 1) == 0)
    then (none, s)
    else if ltb (page_size / 2) size || ltb (page_size / 2) align
    then (none, s)
    else if size == 0
    then (none, s)
    else finish_create size (if ltb align 8 then 8 else align) (slab_alloc s.slab_allocator 0 s)

abbrev pub kmalloc_sizes : List ℕ
kmalloc_sizes = 8 ∷ 16 ∷ 32 ∷ 64 ∷ 128 ∷ 256 ∷ 512 ∷ 1024 ∷ 2048 ∷ []

-- The loop of `kmalloc` from index `i` on.
unfoldable pub kmalloc_from : List ℕ → ℕ → ℕ → ℕ → Slabs → Option ℕ × Slabs
kmalloc_from [] i size aclass s = (none, s)
kmalloc_from (x ∷ xs) i size aclass s =
    let rest = kmalloc_from xs (suc i) size aclass s in
    if leb size x then slab_alloc (s.kmalloc_slabs i) aclass s else rest

unfoldable pub kmalloc : ℕ → ℕ → Slabs → Option ℕ × Slabs
kmalloc size aclass s = kmalloc_from kmalloc_sizes 0 size aclass s

unfoldable pub kfree : ℕ → Slabs → Slabs
kfree ptr s = if ptr == 0 then s else slab_free ptr s

abbrev pub set_slab : ℕ → Option ℕ × Slabs → Option Slabs
set_slab i (none, s) = none
set_slab i (some a, s) = some (record s { kmalloc_slabs = update s.kmalloc_slabs i a })

abbrev pub and_then : Option Slabs → (Slabs → Option Slabs) → Option Slabs
and_then none f = none
and_then (some s) f = f s

-- The loop of `kmalloc_init`.
unfoldable pub create_from : List ℕ → ℕ → Slabs → Option Slabs
create_from [] i s = some s
create_from (x ∷ xs) i s = and_then (set_slab i (slab_create x x s)) (create_from xs (suc i))

-- `struct_size` is the size of a `SlabAllocator`.
unfoldable pub kmalloc_init : ℕ → Slabs → Option Slabs
kmalloc_init struct_size s = create_from kmalloc_sizes 0 (
    with_allocator s.slab_allocator (init_new_allocator struct_size (align_up struct_size (8 * 8)))
      s)

-- The slabs from index `i` on have the sizes of the list.
abbrev pub IsReady : Slabs → ℕ → List ℕ → Type 0
IsReady s i [] = Unit
IsReady s i (x ∷ xs) =
    IsShape (s.allocators (s.kmalloc_slabs i))
    × ((s.allocators (s.kmalloc_slabs i)).inp_obj_size ≡ x)
    × IsReady s (suc i) xs

-- The objects of the slab `k` have the size, those of the slabs from `i` to `k` do not.
abbrev pub IsBestFit : Slabs → ℕ → ℕ → ℕ → Type 0
IsBestFit s i size k =
    (size ≤ (s.allocators (s.kmalloc_slabs k)).inp_obj_size)
    × (i ≤ k)
    × ((j : ℕ) → i ≤ j → j < k → (s.allocators (s.kmalloc_slabs j)).inp_obj_size < size)

-- How `kmalloc` ends: the size is too large and nothing has happened, or the slab with the smallest objects
-- of that size has allocated one.
abbrev pub IsKmalloc : Slabs → (ℕ → List ℕ) → List ℕ → ℕ → ℕ → Option ℕ × Slabs → Type 0
IsKmalloc s free sizes i size r =
    (All (λ x. x < size) sizes × (r ≡ (none, s)))
    ⊎ ((k : ℕ) × IsBestFit s i size k × IsAllocation s free (s.kmalloc_slabs k) r)

kmalloc_from-IsKmalloc :
    (sizes : List ℕ) (i size aclass : ℕ) (s : Slabs) (free : ℕ → List ℕ)
    → Holds s free
    → IsReady s i sizes
    → IsKmalloc s free sizes i size (kmalloc_from sizes i size aclass s)
unfolding kmalloc_from
kmalloc_from-IsKmalloc [] i size aclass s free h ready = inl (tt, refl)
kmalloc_from-IsKmalloc (x ∷ xs) i size aclass s free h ready = elim (Bool-cases (leb size x)) [
  | inl e ↦ rw e (
      inr (
        i,
        (omega (arith, ready.1, leb→le size x e), omega arith, λ j ge lt. absurd (omega arith)),
        slab_alloc-IsAllocation (s.kmalloc_slabs i) aclass s free h ready.0,
      ))
  | inr e ↦
      let small : x < size = ground arith in
      rw e (elim (kmalloc_from-IsKmalloc xs (suc i) size aclass s free h ready.2) [
        | inl (all, none_same) ↦ inl ((small, all), none_same)
        | inr (k, (fits, ge, least), allocated) ↦ inr (
          k,
          (
            fits,
            omega arith,
            λ j from lt. elim (Bool-cases (j == i)) [
              | inl same ↦ rw (==→eq j i same) (omega (arith, ready.1, small))
              | inr ne ↦ least j (ground arith) lt
            ],
          ),
          allocated,
        )
      ])
]

-- From a state that satisfies the invariant, with the slabs of `kmalloc` set up: a request for more than 2048 bytes
-- returns null and changes nothing, and any other is an allocation from the slab
-- whose objects are the smallest that have the size.
pub kmalloc-IsKmalloc :
    (size aclass : ℕ) (s : Slabs) (free : ℕ → List ℕ)
    → Holds s free
    → IsReady s 0 kmalloc_sizes
    → IsKmalloc s free kmalloc_sizes 0 size (kmalloc size aclass s)
unfolding kmalloc
kmalloc-IsKmalloc size aclass s free h ready =
    kmalloc_from-IsKmalloc kmalloc_sizes 0 size aclass s free h ready
