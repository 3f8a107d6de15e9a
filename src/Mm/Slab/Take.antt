-- ===== src/Mm/Slab/Take.antt =====
-- mm/slab.cc: `slab_alloc` when a page of the lists has a free object.
use mathlib.Core.Path.{subst}
use davix.Prelude.{
  ℕ, suc, ◌+◌, ◌*◌, ◌/◌, ◌≤◌, ◌<◌, ◌≡◌, ◌≢◌, refl, sym, ap, ◌∙◌, ◌⊎◌, inl, inr, List, [], ◌∷◌,
  arith, All, length, ◌==◌, Bool-cases, ==→eq, ==→ne, if◌then◌else◌, Bool, true, false,
}
use davix.Prelude.Words.{add64, sub64}
use davix.Mm.PageAlloc.{update, zero_bytes}
use davix.Mm.PageAlloc.Laws.{update-same}
use davix.Mm.Slab.{
  Slabs, SlabAllocator, memory, with_memory, read_pointer, put_page, push_partial, dec32,
}
use davix.Mm.Slab.Chain.{Chain-same, mul_fits, mul_gap}
use davix.Mm.Slab.Invariant.{IsPage, IsPage-same, IsSlab, IsSorted, Holds, Change}
use davix.Mm.Slab.Frame.{Change-Holds}
use davix.Mm.Slab.Pop.{Popped, IsSortedWithout}
use davix.Mm.Slab.Sort.{Change-IsSortedWithout, IsSorted-off, IsSorted-push_partial}

-- Where the object `i` of a page begins, in memory.
abbrev pub object_of : SlabAllocator → ℕ → ℕ → ℕ
object_of al page i = page * 4096 + i * al.real_obj_size

-- Outside of the object, memory is as before.
abbrev pub KeepsOthers : SlabAllocator → ℕ → ℕ → (ℕ → ℕ) → (ℕ → ℕ) → Type 0
KeepsOthers al page i m m' =
    (k : ℕ) → (k < object_of al page i) ⊎ (object_of al page i + al.inp_obj_size ≤ k) → m' k ≡ m k

pub zero_if :
    (b : Bool) (m : ℕ → ℕ) (start n k : ℕ)
    → (k < start) ⊎ (start + n ≤ k)
    → (if b then zero_bytes m start n else m) k ≡ m k
unfolding zero_bytes
zero_if true m start n k h = ground arith
zero_if false m start n k h = refl

-- Other objects of the page are apart from the one that is taken.
pub others_apart :
    (al : SlabAllocator) (page i : ℕ) (m m' : ℕ → ℕ) (xs : List ℕ)
    → 8 ≤ al.real_obj_size
    → al.inp_obj_size ≤ al.real_obj_size
    → All (λ j. i ≢ j) xs
    → KeepsOthers al page i m m'
    → All (λ j. (k : ℕ) → object_of al page j ≤ k → k < object_of al page j + 8 → m k ≡ m' k) xs
others_apart al page i m m' [] ge inp ne keep = tt
others_apart al page i m m' (j ∷ xs) ge inp ne keep = (
  λ k le lt. sym (
      keep k (elim (order i j ne.0) [
        | inl up ↦ inr (omega (arith, mul_gap i j al.real_obj_size up))
        | inr down ↦ inl (omega (arith, mul_gap j i al.real_obj_size down))
      ])),
  others_apart al page i m m' xs ge inp ne.1 keep,
)
  where
    order : (i j : ℕ) → i ≢ j → (i < j) ⊎ (j < i)
    order i j ne = ground arith

-- The state after the object is off the chain, with memory `m`.
abbrev pub taken_from : ℕ → ℕ → SlabAllocator → (ℕ → ℕ) → Slabs → Slabs
taken_from a page al m s =
    let left = dec32 (s.nfree page) in
    let al' = put_page page left al in
    with_memory
      (record s {
        pobj = update s.pobj page (read_pointer s (s.pobj page));
        nfree = update s.nfree page left;
        allocators = update s.allocators a (record al' { nfree = sub64 al'.nfree 1 });
      })
      m

put_page-real_obj_size :
    (page left : ℕ) (al : SlabAllocator) → (put_page page left al).real_obj_size ≡ al.real_obj_size
unfolding put_page push_partial
put_page-real_obj_size page left al = elim (Bool-cases (left == 0)) [
  | inl e ↦ rw e refl
  | inr e ↦ rw e refl
]

pub put_page-inp_obj_size :
    (page left : ℕ) (al : SlabAllocator) → (put_page page left al).inp_obj_size ≡ al.inp_obj_size
unfolding put_page push_partial
put_page-inp_obj_size page left al = elim (Bool-cases (left == 0)) [
  | inl e ↦ rw e refl
  | inr e ↦ rw e refl
]

pub put_page-objs_per_page :
    (page left : ℕ) (al : SlabAllocator) → (put_page page left al).objs_per_page ≡ al.objs_per_page
unfolding put_page push_partial
put_page-objs_per_page page left al = elim (Bool-cases (left == 0)) [
  | inl e ↦ rw e refl
  | inr e ↦ rw e refl
]

put_page-IsSorted :
    (s : Slabs) (a page left n : ℕ) (al : SlabAllocator)
    → IsSortedWithout s a page al
    → IsSlab s page
    → s.owner page ≡ a
    → s.nfree page ≡ left
    → left < al.objs_per_page
    → IsSorted s a (record (put_page page left al) { nfree = n })
unfolding put_page push_partial
put_page-IsSorted s a page left n al h live owner count lt = elim (Bool-cases (left == 0)) [
  | inl e ↦
      rw e
        (IsSorted-off al h n (add64 al.nr_empty 1) (λ p. omega (arith, p.2, count, ==→eq left 0 e)))
  | inr e ↦ rw e (
      IsSorted-push_partial al h n al.nr_empty
        (live, owner, omega (arith, count, ==→ne left 0 e), omega (arith, count, lt)))
]

module _ (s : Slabs) (free : ℕ → List ℕ) (a page : ℕ) (al : SlabAllocator) (m : ℕ → ℕ) (i : ℕ)
    (xs : List ℕ) (h : Holds s free) (popped : Popped s a page (s.allocators a) al)
    (head : free page ≡ i ∷ xs) (keep : KeepsOthers (s.allocators a) page i (memory s) m) where
  pub of_page : IsPage (memory s) s.hhdm page (s.allocators a) (s.pobj page) (s.nfree page) (i ∷ xs)
  of_page =
      subst (λ ys. IsPage (memory s) s.hhdm page (s.allocators a) (s.pobj page) (s.nfree page) ys)
        head
        (subst
          (λ b.
            IsPage (memory s) s.hhdm page (s.allocators b) (s.pobj page) (s.nfree page) (free page))
          popped.owner (h.slab_pages page popped.live))

  in_page : i * (s.allocators a).real_obj_size + (s.allocators a).real_obj_size ≤ 4096
  in_page =
      mul_fits i (s.allocators a).real_obj_size (omega (arith, of_page.shape.size_ge))
        (omega (arith, of_page.indices.0, of_page.shape.objs))

  pub taken_address : s.pobj page ≡ s.hhdm + object_of (s.allocators a) page i
  taken_address = of_page.chain.0

  pub taken_start : sub64 (s.pobj page) s.hhdm ≡ object_of (s.allocators a) page i
  taken_start = omega (arith, taken_address, of_page.room, in_page, of_page.shape.size_ge)

  -- 4096 bytes have at most 512 objects.
  count_small : s.nfree page ≤ 512
  count_small =
      let small : 4096 / (s.allocators a).real_obj_size ≤ 512 =
        grind (arith, of_page.shape.size_ge) in
      omega (arith, popped.count_le, of_page.shape.objs, small)

  left_length : dec32 (s.nfree page) ≡ length xs
  left_length =
      let count : s.nfree page ≡ suc (length xs) = of_page.counted in
      omega (arith, count, count_small)

  pub taken-Change : Change s (taken_from a page al m s) page a
  unfolding put_page push_partial
  taken-Change = record {
    hhdm = refl;
    flags = λ p ne. refl;
    owner = λ p ne. refl;
    pobj = λ p ne. ground arith;
    nfree = λ p ne. ground arith;
    bytes = λ k out. keep k (ground (arith, in_page, of_page.shape.inp));
    allocators = λ b ne. ground arith;
    real_obj_size =
        ap (λ x. x.real_obj_size) (update-same s.allocators a _)
        ∙ put_page-real_obj_size page (dec32 (s.nfree page)) al
        ∙ popped.real_obj_size;
    inp_obj_size =
        ap (λ x. x.inp_obj_size) (update-same s.allocators a _)
        ∙ put_page-inp_obj_size page (dec32 (s.nfree page)) al
        ∙ popped.inp_obj_size;
    objs_per_page =
        ap (λ x. x.objs_per_page) (update-same s.allocators a _)
        ∙ put_page-objs_per_page page (dec32 (s.nfree page)) al
        ∙ popped.objs_per_page;
    before = λ live. popped.owner;
    after = λ live. popped.owner;
  }

  taken-IsPage :
      IsPage m s.hhdm page (s.allocators a) (read_pointer s (s.pobj page)) (dec32 (s.nfree page)) xs
  taken-IsPage = record {
    shape = of_page.shape;
    room = of_page.room;
    chain = rw taken_start (
        Chain-same (memory s) m s.hhdm (page * 4096) (s.allocators a).real_obj_size _ xs
          (others_apart (s.allocators a) page i (memory s) m xs of_page.shape.size_ge
            of_page.shape.inp of_page.distinct.0 keep)
          of_page.chain.1);
    indices = of_page.indices.1;
    distinct = of_page.distinct.1;
    counted = left_length;
  }

  pub taken-Holds : Holds (taken_from a page al m s) (update free page xs)
  taken-Holds =
      let ch = taken-Change in
      let s' = taken_from a page al m s in
      let left = dec32 (s.nfree page) in
      let here : IsPage m s.hhdm page (s'.allocators a) (s'.pobj page) (s'.nfree page) xs =
        rw (update-same s.pobj page (read_pointer s (s.pobj page)), update-same s.nfree page left)
          (IsPage-same m m s.hhdm page _ _ (s.allocators a) (s'.allocators a) xs (λ k ge lt. refl)
            ch.real_obj_size ch.inp_obj_size ch.objs_per_page taken-IsPage) in
      let count : s'.nfree page ≡ left = update-same s.nfree page left in
      let fewer : left < al.objs_per_page =
        omega (arith, popped.count_le, popped.some_free, popped.objs_per_page, count_small) in
      Change-Holds ch free xs h (λ live. here)
        (subst (IsSorted s' a) (sym (update-same s.allocators a _)) (
          put_page-IsSorted s' a page left _ al (Change-IsSortedWithout ch al popped.rest)
            popped.live popped.owner count fewer))
        h.fresh (record { zones = h.valid.zones; total = h.valid.total })
