-- ===== src/Dsl/VmaTree/Search.antt =====
-- dsl/vmafind.cc: what both searches for a free block promise.
use davix.Prelude.{ℕ, ◌+◌, ◌%◌, ◌^◌, ◌≤◌, ◌<◌, ◌≡◌, ◌⊎◌, inl, inr, some}
use davix.Prelude.Words.{IsWord}
use davix.Dsl.VmaTree.{Tree}
use davix.Dsl.VmaTree.Entries.{entries}
use davix.Dsl.VmaTree.Order.{Linked}
use davix.Dsl.VmaTree.Shape.{IsShaped}
use davix.Dsl.VmaTree.Find.{Request, find_free_bottomup}
use davix.Dsl.VmaTree.TopDown.{find_free_topdown}
use davix.Dsl.VmaTree.Hole.{IsFree, Suits, find_free_bottomup-Suits}
use davix.Dsl.VmaTree.TopHole.{find_free_topdown-Suits}
use davix.Dsl.VmaTree.FirstFit.{find_free_bottomup_least}
use davix.Dsl.VmaTree.LastFit.{find_free_topdown_greatest}

-- For an alignment `2 ^ k` with `k < 64`, a size and an upper limit that are words, and a tree whose
-- sequence is in order: a block that either search gives is aligned, lies within the limits and meets no entry.
pub find_free-Suits :
    (k : ℕ) (q : Request) (t : Tree) (a : ℕ)
    → k < 64
    → q.align ≡ 2 ^ k
    → IsWord q.max_addr
    → IsWord q.size
    → Linked 0 (entries t)
    → (find_free_bottomup q t ≡ some a) ⊎ (find_free_topdown q t ≡ some a)
    → Suits q (entries t) a
find_free-Suits k q t a small pow word size h found = elim found [
  | inl e ↦ find_free_bottomup-Suits k small q pow word t a size h e
  | inr e ↦ find_free_topdown-Suits k small q pow word t a size h e
]

-- For an alignment `2 ^ k` with `k < 64`, an upper limit that is a word, a positive size that does
-- not pass that limit, and a balanced tree with right caches whose sequence is in order: if some
-- block `b` is aligned, lies within the limits and meets no entry, then `find_free_bottomup` succeeds
-- with a block that is not above `b`, and `find_free_topdown` with one that is not below it.
pub find_free_nearest :
    (k : ℕ) (q : Request) (b : ℕ) (t : Tree)
    → k < 64
    → q.align ≡ 2 ^ k
    → IsWord q.max_addr
    → 0 < q.size
    → b % q.align ≡ 0
    → q.min_addr ≤ b
    → b + q.size ≤ q.max_addr + 1
    → q.size ≤ q.max_addr
    → Linked 0 (entries t)
    → IsShaped t
    → IsFree q.size b (entries t)
    → ((a : ℕ) × (find_free_bottomup q t ≡ some a) × (a ≤ b))
      × ((a : ℕ) × (find_free_topdown q t ≡ some a) × (b ≤ a))
find_free_nearest k q b t small pow word pos aligned ge_min le_max size_le h s f =
    let up =
      find_free_bottomup_least k small q pow word b pos aligned ge_min le_max t size_le h s f in
    let down =
      find_free_topdown_greatest k small q pow word b pos aligned ge_min le_max t size_le h s f in
    (up, down)
