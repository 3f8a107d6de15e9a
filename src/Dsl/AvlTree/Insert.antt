-- ===== src/Dsl/AvlTree/Insert.antt =====
-- include/dsl/avltree.h: what `insert` promises.
use davix.Prelude.{ℕ, ◌≡◌}
use davix.Dsl.AvlTree.{Tree, insert}
use davix.Dsl.AvlTree.Entries.{entries}
use davix.Dsl.AvlTree.Sorted.{IsSorted, insert_sorted, insert-sorts}
use davix.Dsl.AvlTree.Shape.{IsShaped, avl-insert-IsShaped}

-- In a tree that is balanced with right heights and whose sequence is sorted by the key, `insert` puts the new
-- element before the first one with a larger key, and the tree is sorted and balanced with right heights
-- afterwards, although the fixup returns at the first node whose height has not changed.
pub insert_keeps_order {ℓ} :
    {A : Type ℓ} (key : A → ℕ) (new : A) (t : Tree A)
    → IsSorted key 0 (entries t)
    → IsShaped t
    → (entries (insert key new t) ≡ insert_sorted key new (entries t))
      × IsSorted key 0 (entries (insert key new t))
      × IsShaped (insert key new t)
insert_keeps_order key new t h a =
    let (same, sorted) = insert-sorts key new t h in (same, sorted, avl-insert-IsShaped key new t a)
