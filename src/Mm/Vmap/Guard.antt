-- ===== src/Mm/Vmap/Guard.antt =====
-- mm/vmap.cc: what `find_free_with_guard_pages` promises.
use davix.Prelude.{
  ℕ, ◌+◌, ◌%◌, ◌≤◌, ◌<◌, ◌≡◌, refl, ◌⊎◌, inl, inr, Option, none, some, arith, All, All-imp, ltb,
  false, List,
}
use davix.Prelude.Words.{word_mod, IsWord, add64}
use davix.Dsl.VmaTree.{Tree}
use davix.Dsl.VmaTree.Entries.{Entry, entries}
use davix.Dsl.VmaTree.Order.{Linked}
use davix.Dsl.VmaTree.Find.{find_free_bottomup}
use davix.Dsl.VmaTree.Hole.{find_free_bottomup-Suits}
use davix.Mm.Vmap.{shift_up, guarded_request, find_free_with_guard_pages}

-- A range of `size` bytes at `addr` with a free page before and behind it.
pub record IsGuarded (size low high addr : ℕ) (xs : List Entry) : Type 0 where
  pub aligned : addr % 4096 ≡ 0
  pub ge_low : low ≤ addr
  pub le_high : addr + size ≤ high + 1
  pub before : 4096 ≤ addr
  pub word : addr + size + 4096 ≤ word_mod
  pub apart : All (λ x. (x.last + 4096 < addr) ⊎ (addr + size + 4096 ≤ x.first)) xs

shift_up-some :
    (o : Option ℕ) (b : ℕ) → shift_up o ≡ some b → (a : ℕ) × (o ≡ some a) × (add64 a 4096 ≡ b)
shift_up-some none b e = cc
shift_up-some (some a) b e = (a, refl, cc)

-- For a positive size and limits that are words, and a tree whose sequence is in order: an address that
-- `find_free_with_guard_pages` returns is a multiple of the page size, and the range there lies within
-- the limits and has a page on each side of it that meets no entry of the tree either.
pub find_free_with_guard_pages-IsGuarded :
    (size low high : ℕ) (t : Tree) (b : ℕ)
    → 0 < size
    → IsWord size
    → IsWord low
    → IsWord high
    → Linked 0 (entries t)
    → find_free_with_guard_pages size low high t ≡ some b
    → IsGuarded size low high b (entries t)
unfolding find_free_with_guard_pages guarded_request
find_free_with_guard_pages-IsGuarded size low high t b pos ws wl wh linked e =
    let q = guarded_request size low high in
    let fits : ltb (add64 (add64 size 4096) 4096) size ≡ false = ground arith in
    let (a, found, shifted) = shift_up-some (find_free_bottomup q t) b (rw fits at e) in
    let s =
      find_free_bottomup-Suits 12 (omega arith) q refl (ground arith) t a (ground arith) linked
        found in
    let hole : q.size ≡ size + 8192 = ground arith in
    let limits : (q.max_addr < word_mod) × (q.max_addr ≤ high + 4096) = ground arith in
    let lowest : low ≤ q.min_addr + 4096 = ground arith in
    let here : b ≡ a + 4096 = omega (arith, shifted, s.le_max, hole, limits) in
    record {
      aligned = omega (arith, s.aligned, here);
      ge_low = omega (arith, s.ge_min, here, lowest);
      le_high = omega (arith, s.le_max, here, hole, limits);
      before = omega (arith, here);
      word = omega (arith, s.le_max, here, hole, limits);
      apart =
          All-imp
            (λ x p. elim p [
              | inl h ↦ inl (omega (arith, here, h))
              | inr h ↦ inr (omega (arith, here, hole, h))
            ])
            (entries t) s.free;
    }
