-- ===== src/Mm/EarlyAlloc/HandOver.antt =====
-- mm/early_alloc.cc: the pages that `early_free_everything_to_pgalloc` gives to the page allocator.
use davix.Prelude.{
  ℕ, zero, suc, ◌+◌, ◌-◌, ◌*◌, ◌/◌, ◌≡◌, refl, inl, inr, sym, ap, ◌∙◌, ◌&&◌, List, [], ◌∷◌, ◌++◌,
  ltb, leb, ◌==◌, if◌then◌else◌, arith, Bool-cases, All,
}
use davix.Prelude.Words.{sub64}
use davix.Dsl.Align.{align_up}
use davix.Dsl.Align.Laws.{align_up_lem}
use davix.Mm.PageAlloc.{PageAlloc, free_page}
use davix.Mm.EarlyAlloc.{Block, page_size, free_pages, free_block, early_free_everything_to_pgalloc}
use davix.Mm.EarlyAlloc.Cover.{IsBlock}

-- The pages of a list are freed, the first one first.
abbrev pub free_all : List ℕ → PageAlloc → PageAlloc
free_all [] s = s
free_all (page ∷ pages) s = free_all pages (free_page page s)

-- How often a page is on a list.
abbrev pub occurrences : ℕ → List ℕ → ℕ
occurrences page [] = 0
occurrences page (p ∷ pages) = (if page == p then 1 else 0) + occurrences page pages

-- How many blocks have the whole page.
abbrev pub whole : List Block → ℕ → ℕ
whole [] page = 0
whole (b ∷ blocks) page =
    (if leb b.addr (page * page_size) && leb (page * page_size + page_size) (b.addr + b.size)
      then 1
      else 0)
    + whole blocks page

free_all-append :
    (ps qs : List ℕ) (s : PageAlloc) → free_all (ps ++ qs) s ≡ free_all qs (free_all ps s)
free_all-append [] qs s = refl
free_all-append (p ∷ ps) qs s = free_all-append ps qs (free_page p s)

occurrences-append :
    (page : ℕ) (ps qs : List ℕ)
    → occurrences page (ps ++ qs) ≡ occurrences page ps + occurrences page qs
occurrences-append page [] qs = omega arith
occurrences-append page (p ∷ ps) qs = omega (arith, occurrences-append page ps qs)

-- `n` pages from the page `p` on.
abbrev run : ℕ → ℕ → List ℕ
run zero p = []
run (suc n) p = p ∷ run n (p + 1)

occurrences-run :
    (n p page : ℕ) → occurrences page (run n p) ≡ (if leb p page && ltb page (p + n) then 1 else 0)
occurrences-run zero p page = ground arith
occurrences-run (suc n) p page = ground (arith, occurrences-run n (p + 1) page)

free_pages-run : (n p : ℕ) (s : PageAlloc) → free_pages n (p * page_size) s ≡ free_all (run n p) s
unfolding free_pages
free_pages-run zero p s = refl
free_pages-run (suc n) p s =
    let here : p * page_size / page_size ≡ p = omega arith in
    let after : p * page_size + page_size ≡ (p + 1) * page_size = omega arith in
    rw (here, after) (free_pages-run n (p + 1) (free_page p s))

-- The pages of one block.
abbrev pages_of : Block → List ℕ
pages_of b =
    let n = sub64 (align_up b.addr page_size) b.addr in
    if leb b.size n then [] else run ((b.size - n) / page_size) ((b.addr + n) / page_size)

free_block-pages :
    (b : Block) (s : PageAlloc) → IsBlock b → free_block b s ≡ free_all (pages_of b) s
unfolding free_block
free_block-pages b s h =
    let n = sub64 (align_up b.addr page_size) b.addr in
    elim (Bool-cases (leb b.size n)) [
      | inl e ↦ rw e refl
      | inr e ↦
          let at_page : b.addr + n ≡ (b.addr + n) / page_size * page_size =
            ground (arith, align_up_lem 12 b.addr (omega arith), e, h.inside) in
          rw e (
            ap (λ a. free_pages ((b.size - n) / page_size) a s) at_page
            ∙ free_pages-run ((b.size - n) / page_size) ((b.addr + n) / page_size) s)
    ]

pages_of-occurrences :
    (b : Block) (page : ℕ)
    → IsBlock b
    → occurrences page (pages_of b) ≡ (
        if leb b.addr (page * page_size) && leb (page * page_size + page_size) (b.addr + b.size)
        then 1
        else 0)
pages_of-occurrences b page h =
    let n = sub64 (align_up b.addr page_size) b.addr in
    let up = align_up_lem 12 b.addr (omega arith) in
    elim (Bool-cases (leb b.size n)) [
      | inl e ↦ rw e (ground (arith, up, e, h.inside, h.filled))
      | inr e ↦ rw e (
          ground (
            arith,
            occurrences-run ((b.size - n) / page_size) ((b.addr + n) / page_size) page,
            up,
            e,
            h.inside,
          ))
    ]

-- For blocks that are not empty and lie in the address space, `early_free_everything_to_pgalloc` frees pages one after the
-- other, each as often as there are blocks that have the whole page, and no other page.
pub early_free_everything_to_pgalloc-whole :
    (blocks : List Block) (s : PageAlloc)
    → All IsBlock blocks
    → (pages : List ℕ) × (early_free_everything_to_pgalloc blocks s ≡ free_all pages s)
      × ((page : ℕ) → occurrences page pages ≡ whole blocks page)
unfolding early_free_everything_to_pgalloc
early_free_everything_to_pgalloc-whole [] s h = ([], refl, λ page. refl)
early_free_everything_to_pgalloc-whole (b ∷ blocks) s h =
    let (pages, same, counted) =
      early_free_everything_to_pgalloc-whole blocks (free_block b s) h.1 in
    (
      pages_of b ++ pages,
      same
          ∙ ap (free_all pages) (free_block-pages b s h.0)
          ∙ sym (free_all-append (pages_of b) pages s),
      λ page. omega (
        arith,
        occurrences-append page (pages_of b) pages,
        pages_of-occurrences b page h.0,
        counted page,
      ),
    )
