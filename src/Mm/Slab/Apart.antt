-- ===== src/Mm/Slab/Apart.antt =====
-- mm/slab.cc: an object that `slab_alloc` returns meets no object in use.
use mathlib.Core.Path.{subst}
use davix.Prelude.{
  ℕ, ◌+◌, ◌*◌, ◌≤◌, ◌<◌, ◌≡◌, ◌≢◌, ap, ◌∙◌, ◌⊎◌, inl, inr, List, ◌∷◌, arith, All, ◌==◌, Bool-cases,
  ==→eq, ==→ne, some,
}
use davix.Mm.Slab.{Slabs, memory, slab_alloc}
use davix.Mm.Slab.Chain.{mul_gap, mul_fits}
use davix.Mm.Slab.Invariant.{IsShape, IsPage, IsSlab, Holds}
use davix.Mm.Slab.Take.{object_of, KeepsOthers}
use davix.Mm.Slab.HandOut.{IsHandedOut, IsAllocation}
use davix.Mm.Slab.Alloc.{slab_alloc-IsAllocation}
use davix.Mm.Slab.Give.{IsInUse}
use davix.Mm.Slab.Give.{IsInUse}

-- Two blocks of memory that do not meet.
abbrev pub Apart : ℕ → ℕ → ℕ → ℕ → Type 0
Apart a n b m = (a + n ≤ b) ⊎ (b + m ≤ a)

-- The object `i` of the page has the bytes that it had.
abbrev pub Unchanged : Slabs → ℕ → ℕ → Slabs → Type 0
Unchanged s page i t =
    let al = s.allocators (s.owner page) in
    (k : ℕ)
    → object_of al page i ≤ k
    → k < object_of al page i + al.real_obj_size
    → memory t k ≡ memory s k

order : (i j : ℕ) → i ≢ j → (i < j) ⊎ (j < i)
order i j ne = ground arith

indices-Apart : (i j size : ℕ) → i ≢ j → Apart (i * size) size (j * size) size
indices-Apart i j size ne = elim (order i j ne) [
  | inl up ↦ inl (mul_gap i j size up)
  | inr down ↦ inr (mul_gap j i size down)
]

module _ (s : Slabs) (free : ℕ → List ℕ) (page i q : ℕ) (h : Holds s free)
    (in_use : IsInUse s free page i q) where
  own_page :
      IsPage
        (memory s)
        s.hhdm
        page
        (s.allocators (s.owner page))
        (s.pobj page)
        (s.nfree page)
        (free page)
  own_page = h.slab_pages page in_use.live

  in_page :
      i * (s.allocators (s.owner page)).real_obj_size + (s.allocators (s.owner page)).real_obj_size
      ≤ 4096
  in_page =
      mul_fits i (s.allocators (s.owner page)).real_obj_size (omega (arith, own_page.shape.size_ge))
        (omega (arith, in_use.index, own_page.shape.objs))

  from_chain :
      (a ptr p j : ℕ) (xs : List ℕ) (t : Slabs)
      → ptr ≡ s.hhdm + object_of (s.allocators a) p j
      → IsSlab s p
      → s.owner p ≡ a
      → free p ≡ j ∷ xs
      → KeepsOthers (s.allocators a) p j (memory s) (memory t)
      → Apart ptr (s.allocators a).real_obj_size q (s.allocators (s.owner page)).real_obj_size
        × Unchanged s page i t
  from_chain a ptr p j xs t at live owner head keep =
      let other : IsPage (memory s) s.hhdm p (s.allocators a) (s.pobj p) (s.nfree p) (free p) =
        subst (λ b. IsPage (memory s) s.hhdm p (s.allocators b) (s.pobj p) (s.nfree p) (free p))
          owner (h.slab_pages p live) in
      let first : j < (s.allocators a).objs_per_page =
        (subst (All (λ x. x < (s.allocators a).objs_per_page)) head other.indices).0 in
      let fits =
        mul_fits j (s.allocators a).real_obj_size (omega (arith, other.shape.size_ge))
          (omega (arith, first, other.shape.objs)) in
      elim (Bool-cases (p == page)) [
        | inl e ↦
            let same = ==→eq p page e in
            let here : s.owner page ≡ a = subst (λ r. s.owner r ≡ a) same owner in
            let size : (s.allocators (s.owner page)).real_obj_size
                ≡ (s.allocators a).real_obj_size =
              ap (λ b. (s.allocators b).real_obj_size) here in
            let ne : i ≢ j =
              (subst (All (λ x. i ≢ x)) (subst (λ r. free r ≡ j ∷ xs) same head) in_use.used).0 in
            let gap = indices-Apart i j (s.allocators a).real_obj_size ne in
            let object : object_of (s.allocators (s.owner page)) page i
                ≡ page * 4096 + i * (s.allocators a).real_obj_size =
              ap (λ z. page * 4096 + i * z) size in
            let place : q ≡ s.hhdm + (page * 4096 + i * (s.allocators a).real_obj_size) =
              in_use.address ∙ ap (λ z. s.hhdm + (page * 4096 + i * z)) size in
            (
              elim gap [
                | inl g ↦ inr (omega (arith, g, at, place, same, size))
                | inr g ↦ inl (omega (arith, g, at, place, same, size))
              ],
              λ k ge lt. keep k (elim gap [
                | inl g ↦ inl (omega (arith, g, object, same, size, lt))
                | inr g ↦ inr (omega (arith, g, object, same, ge, other.shape.inp))
              ]),
            )
        | inr e ↦ (
          elim (order p page (==→ne p page e)) [
            | inl up ↦ inl (omega (arith, up, at, fits, in_use.address))
            | inr down ↦ inr (omega (arith, down, at, in_page, in_use.address))
          ],
          λ k ge lt. keep k (elim (order p page (==→ne p page e)) [
            | inl up ↦ inr (omega (arith, up, fits, ge, other.shape.inp))
            | inr down ↦ inl (omega (arith, down, in_page, lt))
          ]),
        )
      ]

  from_fresh :
      (a ptr p : ℕ) (t : Slabs)
      → IsShape (s.allocators a)
      → ptr ≡ s.hhdm + object_of (s.allocators a) p 0
      → p ≢ page
      → ((k : ℕ) → (k < p * 4096) ⊎ (p * 4096 + 4096 ≤ k) → memory t k ≡ memory s k)
      → Apart ptr (s.allocators a).real_obj_size q (s.allocators (s.owner page)).real_obj_size
        × Unchanged s page i t
  from_fresh a ptr p t shape at ne keep = elim (order p page ne) [
    | inl up ↦ (
      inl (omega (arith, up, at, shape.size_le, in_use.address)),
      λ k ge lt. keep k (inr (omega (arith, up, ge))),
    )
    | inr down ↦ (
      inr (omega (arith, down, at, in_page, in_use.address)),
      λ k ge lt. keep k (inl (omega (arith, down, in_page, lt))),
    )
  ]

  handed_out-Apart :
      (a ptr : ℕ) (t : Slabs)
      → IsShape (s.allocators a)
      → IsHandedOut s free a ptr t
      → Apart ptr (s.allocators a).real_obj_size q (s.allocators (s.owner page)).real_obj_size
        × Unchanged s page i t
  handed_out-Apart a ptr t shape out = elim out.origin [
    | inl (live, owner, head, keep) ↦
        from_chain a ptr out.page out.i out.xs t out.address live owner head keep
    | inr (fresh, zero_index, rest, keep) ↦
        from_fresh a ptr out.page t shape
          (out.address ∙ ap (λ j. s.hhdm + object_of (s.allocators a) out.page j) zero_index)
          (λ e. fresh (rw e in_use.live)) keep
  ]

  -- From a state that satisfies the invariant, for an allocator of a sound shape and any object in use, of this or of another allocator:
  -- the block that `slab_alloc` returns does not meet that object, no byte of which has changed.
  pub slab_alloc-Apart :
      (a aclass ptr : ℕ) (t : Slabs)
      → IsShape (s.allocators a)
      → slab_alloc a aclass s ≡ (some ptr, t)
      → Apart ptr (s.allocators a).real_obj_size q (s.allocators (s.owner page)).real_obj_size
        × Unchanged s page i t
  slab_alloc-Apart a aclass ptr t shape e =
      handed_out-Apart a ptr t shape
        (subst (IsAllocation s free a) e (slab_alloc-IsAllocation a aclass s free h shape))
