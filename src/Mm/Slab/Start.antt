-- ===== src/Mm/Slab/Start.antt =====
-- mm/slab.cc: `slab_alloc` when it makes a page of the page allocator into one of its own.
use mathlib.Core.Path.{subst}
use davix.Prelude.{
  ℕ, zero, suc, ◌+◌, ◌*◌, ◌/◌, ◌%◌, ◌^◌, ◌≤◌, ◌<◌, ◌≡◌, ◌≢◌, refl, sym, ap, ◌∙◌, ◌⊎◌, List, [], ◌∷◌,
  arith, All, All-imp, length,
}
use davix.Prelude.Words.{word_mod, add64, sub64}
use davix.Mm.PageAlloc.{PageAlloc, update}
use davix.Mm.PageAlloc.Laws.{Distinct, IsValid, IsTaken, update-same}
use davix.Mm.Slab.{Slabs, memory, page_slab, push_partial, link_objects}
use davix.Mm.Slab.Chain.{
  Chain-same, mul_fits, upto, link_objects-Chain, link_objects-other, HasRoom,
}
use davix.Mm.Slab.Invariant.{IsShape, IsPage, IsPage-same, IsSlab, IsSorted, IsFresh, Holds, Change}
use davix.Mm.Slab.Frame.{Change-Holds}
use davix.Mm.Slab.Pop.{IsSortedWithout}
use davix.Mm.Slab.Sort.{Change-IsSortedWithout, IsSorted-push_partial}
use davix.Mm.Slab.Take.{KeepsOthers, others_apart}

length-upto : (i n : ℕ) → length (upto i n) ≡ n
length-upto i zero = refl
length-upto i (suc n) = ap suc (length-upto (suc i) n)

upto-lt : (i n objs : ℕ) → i + n ≤ objs → All (λ j. j < objs) (upto i n)
upto-lt i zero objs h = tt
upto-lt i (suc n) objs h = (omega arith, upto-lt (suc i) n objs (omega arith))

pub upto-ne : (k i n : ℕ) → k < i → All (λ j. k ≢ j) (upto i n)
upto-ne k i zero h = tt
upto-ne k i (suc n) h = ((λ e. omega (arith, h, e)), upto-ne k (suc i) n (omega arith))

Distinct-upto : (i n : ℕ) → Distinct (upto i n)
Distinct-upto i zero = tt
Distinct-upto i (suc n) = (upto-ne i (suc i) n (omega arith), Distinct-upto (suc i) n)

-- The page allocator after it has given the page.
pub record Gives (s : Slabs) (page : ℕ) (pages : PageAlloc) : Type 0 where
  pub fresh : IsFresh s page
  pub flags : pages.flags ≡ s.pages.flags
  pub bytes : (k : ℕ) → (k < page * 4096) ⊎ (page * 4096 + 4096 ≤ k) → pages.bytes k ≡ memory s k
  pub valid : IsValid pages
  pub gone : IsTaken page pages
  pub others : (zone : ℕ) → All (IsFresh s) (pages.free_list zone)

-- The state with the new page, whose chain begins at `ptr`, and with memory `m`.
abbrev pub started : ℕ → ℕ → PageAlloc → ℕ → (ℕ → ℕ) → Slabs → Slabs
started a page pages ptr m s =
    let al = s.allocators a in
    let al' = push_partial page al in
    record s {
      pages = record pages { flags = update pages.flags page page_slab; bytes = m };
      owner = update s.owner page a;
      nfree = update s.nfree page (sub64 al.objs_per_page 1 % 2 ^ 32);
      pobj = update s.pobj page ptr;
      allocators =
          update s.allocators a (record al' { nfree = add64 al'.nfree (sub64 al.objs_per_page 1) });
    }

module _ (s : Slabs) (free : ℕ → List ℕ) (a page : ℕ) (pages : PageAlloc) (m : ℕ → ℕ) (n : ℕ)
    (h : Holds s free) (shape : IsShape (s.allocators a))
    (objs : (s.allocators a).objs_per_page ≡ suc (suc n)) (gives : Gives s page pages)
    (keep : KeepsOthers
      (s.allocators a)
      page
      0
      (link_objects n s.hhdm
        (s.allocators a).real_obj_size
        (s.hhdm + (page * 4096 + 1 * (s.allocators a).real_obj_size))
        pages.bytes)
      m) where
  all_fit : suc n * (s.allocators a).real_obj_size + (s.allocators a).real_obj_size ≤ 4096
  all_fit =
      mul_fits (suc n) (s.allocators a).real_obj_size (omega (arith, shape.size_ge))
        (omega (arith, objs, shape.objs))

  room : HasRoom s.hhdm (page * 4096) (s.allocators a).real_obj_size 1 n
  room = grind (arith, all_fit, gives.fresh.1, shape.size_ge)

  few : n + 2 ≤ 512
  few =
      let small : 4096 / (s.allocators a).real_obj_size ≤ 512 = grind (arith, shape.size_ge) in
      omega (arith, objs, shape.objs, small)

  pub outside : (k : ℕ) → (k < page * 4096) ⊎ (page * 4096 + 4096 ≤ k) → m k ≡ memory s k
  outside k out =
      keep k (grind (arith, shape.inp, shape.size_le))
      ∙ link_objects-other n s.hhdm (page * 4096) (s.allocators a).real_obj_size 1 k pages.bytes
          shape.size_ge room (grind (arith, all_fit, shape.size_ge))
      ∙ gives.bytes k out

  pub started-Change :
      Change s
        (started a page pages (s.hhdm + (page * 4096 + 1 * (s.allocators a).real_obj_size)) m s)
        page
        a
  unfolding push_partial
  started-Change = record {
    hhdm = refl;
    flags = λ p ne. ground (arith, ap (λ f. f p) gives.flags);
    owner = λ p ne. ground arith;
    pobj = λ p ne. ground arith;
    nfree = λ p ne. ground arith;
    bytes = outside;
    allocators = λ b ne. ground arith;
    real_obj_size = ap (λ x. x.real_obj_size) (update-same s.allocators a _);
    inp_obj_size = ap (λ x. x.inp_obj_size) (update-same s.allocators a _);
    objs_per_page = ap (λ x. x.objs_per_page) (update-same s.allocators a _);
    before = λ live. absurd (gives.fresh.0 live);
    after = λ live. update-same s.owner page a;
  }

  started-IsPage :
      IsPage m s.hhdm page
        (s.allocators a)
        (s.hhdm + (page * 4096 + 1 * (s.allocators a).real_obj_size))
        (suc n)
        (upto 1 (suc n))
  started-IsPage = record {
    shape = shape;
    room = gives.fresh.1;
    chain =
        Chain-same _ m s.hhdm (page * 4096) (s.allocators a).real_obj_size _ (upto 1 (suc n))
          (others_apart (s.allocators a) page 0 _ m (upto 1 (suc n)) shape.size_ge shape.inp
            (upto-ne 0 1 (suc n) (omega arith)) keep)
          (link_objects-Chain n s.hhdm (page * 4096) (s.allocators a).real_obj_size 1 pages.bytes
            shape.size_ge room);
    indices = upto-lt 1 (suc n) (s.allocators a).objs_per_page (omega (arith, objs));
    distinct = Distinct-upto 1 (suc n);
    counted = sym (length-upto 1 (suc n));
  }

  apart_from : (q : ℕ) → IsSlab s q → page ≢ q
  apart_from q live e = gives.fresh.0 (rw e live)

  sorted_without : IsSortedWithout s a page (s.allocators a)
  sorted_without =
      let d = h.sorted a in
      record {
        partial = d.partial;
        partial_ne = All-imp (λ q x. apart_from q x.0) (s.allocators a).page_partial d.partial;
        partial_once = d.partial_once;
        partial_count = d.partial_count;
        listed = λ q ne x. d.listed q x;
        full = d.full;
        full_ne = All-imp (λ q x. apart_from q x.0) (s.allocators a).page_full d.full;
        full_once = d.full_once;
        full_count = d.full_count;
      }

  free_fresh :
      (xs : List ℕ)
      → All (IsFresh s) xs
      → All (λ q. page ≢ q) xs
      → All
          (λ q.
            (update pages.flags page page_slab q ≢ page_slab)
            × (s.hhdm + q * 4096 + 4096 ≤ word_mod))
          xs
  free_fresh [] f ne = tt
  free_fresh (q ∷ xs) f ne = (
    (
      (λ live.
          f.0.0
            (ap (λ g. g q) (sym gives.flags) ∙ update-ne pages.flags page page_slab q ne.0 ∙ live)),
      f.0.1,
    ),
    free_fresh xs f.1 ne.1,
  )
    where
      update-ne : (g : ℕ → ℕ) (p x q : ℕ) → p ≢ q → g q ≡ update g p x q
      update-ne g p x q ne = ground arith

  pub started-Holds :
      Holds
        (started a page pages (s.hhdm + (page * 4096 + 1 * (s.allocators a).real_obj_size)) m s)
        (update free page (upto 1 (suc n)))
  unfolding push_partial
  started-Holds =
      let ch = started-Change in
      let al = s.allocators a in
      let ptr = s.hhdm + (page * 4096 + 1 * al.real_obj_size) in
      let s' = started a page pages ptr m s in
      let left : sub64 al.objs_per_page 1 % 2 ^ 32 ≡ suc n = omega (arith, objs, few) in
      let count : s'.nfree page ≡ suc n = update-same s.nfree page _ ∙ left in
      let here : IsPage m s.hhdm page (s'.allocators a) (s'.pobj page) (s'.nfree page)
          (upto 1 (suc n)) =
        rw (update-same s.pobj page ptr, count)
          (IsPage-same m m s.hhdm page ptr (suc n) al (s'.allocators a) (upto 1 (suc n))
            (λ k ge lt. refl) ch.real_obj_size ch.inp_obj_size ch.objs_per_page started-IsPage) in
      Change-Holds ch free (upto 1 (suc n)) h (λ live. here)
        (subst (IsSorted s' a) (sym (update-same s.allocators a _)) (
          IsSorted-push_partial al (Change-IsSortedWithout ch al sorted_without) _ al.nr_empty (
            update-same pages.flags page page_slab,
            update-same s.owner page a,
            omega (arith, count),
            omega (arith, count, objs),
          )))
        (λ zone. free_fresh (pages.free_list zone) (gives.others zone) (gives.gone zone))
        (record { zones = gives.valid.zones; total = gives.valid.total })
