-- ===== src/Mm/Slab/Pop.antt =====
-- mm/slab.cc: the page that `slab_alloc` takes from the lists of the allocator.
use mathlib.Core.Path.{subst}
use davix.Prelude.{
  ℕ, ◌%◌, ◌≤◌, ◌<◌, ◌≡◌, ◌≢◌, refl, sym, ap, ◌∙◌, inl, inr, List, [], ◌∷◌, arith, All, All-imp,
  length, ◌==◌, Bool-cases, not, Option, some, none,
}
use davix.Prelude.Words.{word_mod}
use davix.Mm.PageAlloc.Laws.{Distinct}
use davix.Mm.Slab.{Slabs, SlabAllocator, pop_page, pop_partial, pop_full}
use davix.Mm.Slab.Lists.{IsIn}
use davix.Mm.Slab.Invariant.{IsSlab, IsPartial, IsFull, IsSorted}

-- The lists of an allocator without the page.
pub record IsSortedWithout (s : Slabs) (a page : ℕ) (al : SlabAllocator) : Type 0 where
  pub partial : All (IsPartial s a al.objs_per_page) al.page_partial
  pub partial_ne : All (λ p. page ≢ p) al.page_partial
  pub partial_once : Distinct al.page_partial
  pub partial_count : al.nr_partial ≡ length al.page_partial % word_mod
  pub listed : (p : ℕ) → p ≢ page → IsPartial s a al.objs_per_page p → IsIn p al.page_partial
  pub full : All (IsFull s a al.objs_per_page) al.page_full
  pub full_ne : All (λ p. page ≢ p) al.page_full
  pub full_once : Distinct al.page_full
  pub full_count : al.nr_full ≡ length al.page_full % word_mod

pub record Popped (s : Slabs) (a page : ℕ) (al al' : SlabAllocator) : Type 0 where
  pub live : IsSlab s page
  pub owner : s.owner page ≡ a
  pub some_free : 0 < s.nfree page
  pub count_le : s.nfree page ≤ al.objs_per_page
  pub rest : IsSortedWithout s a page al'
  pub real_obj_size : al'.real_obj_size ≡ al.real_obj_size
  pub inp_obj_size : al'.inp_obj_size ≡ al.inp_obj_size
  pub objs_per_page : al'.objs_per_page ≡ al.objs_per_page

pub partial-ne-full :
    (s : Slabs) (a objs page : ℕ) (xs : List ℕ)
    → s.nfree page < objs
    → All (IsFull s a objs) xs
    → All (λ p. page ≢ p) xs
partial-ne-full s a objs page xs lt h =
    All-imp (λ p q e. omega (arith, lt, subst (λ r. s.nfree r ≡ objs) (sym e) q.2)) xs h

full-ne-partial :
    (s : Slabs) (a objs page : ℕ) (xs : List ℕ)
    → s.nfree page ≡ objs
    → All (IsPartial s a objs) xs
    → All (λ p. page ≢ p) xs
full-ne-partial s a objs page xs eq h =
    All-imp (λ p q e. omega (arith, eq, subst (λ r. s.nfree r < objs) (sym e) q.3)) xs h

some-injective : (p q : ℕ × SlabAllocator) → some p ≡ some q → p ≡ q
some-injective p q e = cc

none-some : (p : ℕ × SlabAllocator) → ◌≡◌ {A = Option (ℕ × SlabAllocator)} none (some p) → ⊥
none-some p e = cc

listed-tail : (x p : ℕ) (xs : List ℕ) → p ≢ x → IsIn p (x ∷ xs) → IsIn p xs
listed-tail x p xs ne h = elim h [ inl e ↦ absurd (ne e) | inr there ↦ there ]

pop_partial-Popped :
    (s : Slabs) (a : ℕ) (al : SlabAllocator) (xs : List ℕ) (page : ℕ) (al' : SlabAllocator)
    → al.page_partial ≡ xs
    → IsSorted s a al
    → pop_partial al xs ≡ some (page, al')
    → Popped s a page al al'
unfolding pop_partial
pop_partial-Popped s a al [] page al' same h e = absurd cc
pop_partial-Popped s a al (x ∷ xs) page al' same h e =
    subst (λ r. Popped s a r.0 al r.1) (some-injective _ (page, al') e)
      (let d : IsSorted s a al = h in
        let all = subst (All (IsPartial s a al.objs_per_page)) same h.partial in
        let once = subst Distinct same h.partial_once in
        let count = h.partial_count ∙ ap (λ ys. length ys % word_mod) same in
        record {
          live = all.0.0;
          owner = all.0.1;
          some_free = all.0.2;
          count_le = omega (arith, all.0.3);
          rest = record {
            partial = all.1;
            partial_ne = once.0;
            partial_once = once.1;
            partial_count = omega (arith, count);
            listed = λ p ne q. listed-tail x p xs ne (subst (IsIn p) same (h.listed p q));
            full = h.full;
            full_ne = partial-ne-full s a al.objs_per_page x al.page_full all.0.3 h.full;
            full_once = h.full_once;
            full_count = h.full_count;
          };
          real_obj_size = refl;
          inp_obj_size = refl;
          objs_per_page = refl;
        })

pop_full-Popped :
    (s : Slabs) (a : ℕ) (al : SlabAllocator) (xs : List ℕ) (page : ℕ) (al' : SlabAllocator)
    → al.page_full ≡ xs
    → IsSorted s a al
    → 0 < al.objs_per_page
    → pop_full al xs ≡ some (page, al')
    → Popped s a page al al'
unfolding pop_full
pop_full-Popped s a al [] page al' same h pos e = absurd cc
pop_full-Popped s a al (x ∷ xs) page al' same h pos e =
    subst (λ r. Popped s a r.0 al r.1) (some-injective _ (page, al') e)
      (let all = subst (All (IsFull s a al.objs_per_page)) same h.full in
        let once = subst Distinct same h.full_once in
        let count = h.full_count ∙ ap (λ ys. length ys % word_mod) same in
        record {
          live = all.0.0;
          owner = all.0.1;
          some_free = omega (arith, all.0.2);
          count_le = omega (arith, all.0.2);
          rest = record {
            partial = h.partial;
            partial_ne = full-ne-partial s a al.objs_per_page x al.page_partial all.0.2 h.partial;
            partial_once = h.partial_once;
            partial_count = h.partial_count;
            listed = λ p ne q. h.listed p q;
            full = all.1;
            full_ne = once.0;
            full_once = once.1;
            full_count = omega (arith, count);
          };
          real_obj_size = refl;
          inp_obj_size = refl;
          objs_per_page = refl;
        })

pub pop_page-Popped :
    (s : Slabs) (a : ℕ) (al : SlabAllocator) (page : ℕ) (al' : SlabAllocator)
    → IsSorted s a al
    → 0 < al.objs_per_page
    → pop_page al ≡ some (page, al')
    → Popped s a page al al'
unfolding pop_page
pop_page-Popped s a al page al' h pos e = elim (Bool-cases (not (al.nr_partial == 0))) [
  | inl f ↦ pop_partial-Popped s a al al.page_partial page al' refl h (rw f at e)
  | inr f ↦ elim (Bool-cases (not (al.nr_full == 0))) [
    | inl g ↦ pop_full-Popped s a al al.page_full page al' refl h pos (rw (f, g) at e)
    | inr g ↦ absurd (none-some (page, al') (rw (f, g) at e))
  ]
]
