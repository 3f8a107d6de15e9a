-- ===== src/Mm/Slab/Create.antt =====
-- mm/slab.cc: the allocator that `slab_create` returns.
use mathlib.Core.Path.{subst}
use native.Mathlib.Nat.{one-le-pow, pow-suc, mul-mod_left}
use davix.Prelude.{
  ℕ, zero, suc, ◌-◌, ◌*◌, ◌/◌, ◌%◌, ◌^◌, ◌≤◌, ◌<◌, ◌≡◌, refl, sym, ap, ◌∙◌, inl, inr, arith, ◌==◌,
  Bool-cases, if◌then◌else◌, not, ◌||◌, ltb, bit_and, Option, some, none,
}
use davix.Prelude.Words.{sub64}
use davix.Dsl.Align.{align_up}
use davix.Dsl.Align.Laws.{align_up_least, pow-add}
use davix.Mm.PageAlloc.{page_size}
use davix.Mm.PageAlloc.Laws.{update-same}
use davix.Mm.Slab.{Slabs, SlabAllocator, slab_alloc}
use davix.Mm.Slab.Invariant.{IsShape}
use davix.Mm.Slab.Kmalloc.{init_new_allocator, finish_create, slab_create}

-- An allocator for objects of `size` bytes at multiples of `align`.
pub record IsAllocatorFor (size align : ℕ) (al : SlabAllocator) : Type 0 where
  pub shape : IsShape al
  pub inp_obj_size : al.inp_obj_size ≡ size
  pub aligned : al.real_obj_size % align ≡ 0
  pub at_least_two : 2 ≤ al.objs_per_page

-- A power of two up to 2048 divides 2048.
divides : (k : ℕ) → k ≤ 11 → 2048 % 2 ^ k ≡ 0
divides k h =
    let split : 2 ^ (11 - k) * 2 ^ k ≡ 2048 =
      pow-add (11 - k) k ∙ ap (λ (e : ℕ). 2 ^ e) {y = 11} (omega arith) in
    rw (sym split) (mul-mod_left (2 ^ (11 - k)) (2 ^ k))

multiple_ge : (m n : ℕ) → 0 < n → m % n ≡ 0 → 0 < m → n ≤ m
multiple_ge m n pos h nonzero = grind arith

init_new_allocator-IsAllocatorFor :
    (size k : ℕ)
    → 0 < size
    → size ≤ 2048
    → 3 ≤ k
    → k ≤ 11
    → 8 ≤ 2 ^ k
    → IsAllocatorFor size (2 ^ k) (init_new_allocator size (align_up size (2 ^ k)))
unfolding init_new_allocator
init_new_allocator-IsAllocatorFor size k pos le ge most eight =
    let (above, aligned, below) =
      align_up_least k size 2048 (omega arith) (omega arith) le (divides k most) in
    let wide = multiple_ge (align_up size (2 ^ k)) (2 ^ k) (omega arith) aligned (omega arith) in
    record {
      shape = record { size_ge = omega arith; size_le = below; inp = above; objs = refl };
      inp_obj_size = refl;
      aligned = aligned;
      at_least_two = grind arith;
    }

none-some : (a : ℕ) → ◌≡◌ {A = Option ℕ} none (some a) → ⊥
none-some a h = cc

some-finish_create :
    (size align : ℕ) (al : SlabAllocator) (r : Option ℕ × Slabs) (a : ℕ) (t : Slabs)
    → init_new_allocator size (align_up size align) ≡ al
    → finish_create size align r ≡ (some a, t)
    → t.allocators a ≡ al
some-finish_create size align al (none, s) a t same e = absurd (none-some a (ap (λ r. r.0) e))
some-finish_create size align al (some b, s) a t same e =
    let here : b ≡ a = some-same b a (ap (λ r. r.0) e) in
    ap (λ r. r.1.allocators a) (sym e) ∙ rw here (update-same s.allocators a _ ∙ same)
  where
    some-same : (b a : ℕ) → some b ≡ some a → b ≡ a
    some-same b a h = cc

-- The guards of `slab_create`, and what it does behind them.
slab_create_passed :
    (size align : ℕ) (s t : Slabs) (a : ℕ)
    → slab_create size align s ≡ (some a, t)
    → (0 < size)
      × (size ≤ 2048)
      × (finish_create size (if ltb align 8 then 8 else align) (slab_alloc s.slab_allocator 0 s)
          ≡ (some a, t))
unfolding slab_create
slab_create_passed size align s t a e =
    elim (Bool-cases (not (bit_and align (sub64 align 1) == 0))) [
      | inl f ↦ absurd (refused a s t (rw f at e))
      | inr f ↦ elim (Bool-cases (ltb (page_size / 2) size || ltb (page_size / 2) align)) [
        | inl g ↦ absurd (refused a s t (rw (f, g) at e))
        | inr g ↦ elim (Bool-cases (size == 0)) [
          | inl z ↦ absurd (refused a s t (rw (f, g, z) at e))
          | inr z ↦ (ground arith, ground arith, rw (f, g, z) at e)
        ]
      ]
    ]
  where
    refused : (a : ℕ) (s t : Slabs) → ◌≡◌ {A = Option ℕ × Slabs} (none, s) (some a, t) → ⊥
    refused a s t h = none-some a (ap (λ r. r.0) h)

-- The slots are at least 8 bytes apart.
slot_power :
    (k : ℕ)
    → k ≤ 11
    → (m : ℕ) × ((if ltb (2 ^ k) 8 then 8 else 2 ^ k) ≡ 2 ^ m)
      × (3 ≤ m)
      × (m ≤ 11)
      × (8 ≤ 2 ^ m)
      × ((x : ℕ) → x % 2 ^ m ≡ 0 → x % 2 ^ k ≡ 0)
slot_power zero h = (3, refl, omega arith, omega arith, omega arith, λ x d. omega arith)
slot_power (suc zero) h = (3, refl, omega arith, omega arith, omega arith, λ x d. omega (arith, d))
slot_power (suc (suc zero)) h =
    (3, refl, omega arith, omega arith, omega arith, λ x d. omega (arith, d))
slot_power (suc (suc (suc k))) h =
    let large : 8 ≤ 2 ^ suc (suc (suc k)) = omega (
      arith,
      pow-suc 2 k,
      pow-suc 2 (suc k),
      pow-suc 2 (suc (suc k)),
      one-le-pow k 2 (omega arith),
    ) in
    (suc (suc (suc k)), ground arith, omega arith, h, large, λ x d. d)

-- For an alignment that is a power of two up to 2048: when `slab_create` returns an allocator, that one is for objects of the
-- requested size, and its slots are at least 8 bytes, at most half a page, and multiples of the alignment, so
-- that a page has at least two of them.
pub slab_create-IsAllocatorFor :
    (size k : ℕ) (s t : Slabs) (a : ℕ)
    → k ≤ 11
    → slab_create size (2 ^ k) s ≡ (some a, t)
    → IsAllocatorFor size (2 ^ k) (t.allocators a)
slab_create-IsAllocatorFor size k s t a le e =
    let (pos, small, created) = slab_create_passed size (2 ^ k) s t a e in
    let (m, same, ge, most, eight, finer) = slot_power k le in
    let made = init_new_allocator-IsAllocatorFor size m pos small ge most eight in
    let at_a : t.allocators a ≡ init_new_allocator size (align_up size (2 ^ m)) =
      some-finish_create size (2 ^ m) _ (slab_alloc s.slab_allocator 0 s) a t refl
        (rw same at created) in
    subst (IsAllocatorFor size (2 ^ k)) (sym at_a) (record {
      shape = made.shape;
      inp_obj_size = made.inp_obj_size;
      aligned = finer _ made.aligned;
      at_least_two = made.at_least_two;
    })
