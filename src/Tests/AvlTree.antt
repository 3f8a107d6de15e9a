-- ===== src/Tests/AvlTree.antt =====
-- The theorems on include/dsl/avltree.h for a tree of numbers, and what `remove` leaves in one case.
use davix.Prelude.{ℕ, ◌≡◌, refl, [], ◌∷◌, ◌++◌, arith}
use davix.Dsl.AvlTree.{
  Tree, nil, node, left_of, insert, remove, replace, leftmost, fixup_above, rebalance, plug,
}
use davix.Dsl.AvlTree.Entries.{entries, entries-remove}
use davix.Dsl.AvlTree.Sorted.{IsSorted, insert_sorted}
use davix.Dsl.AvlTree.Shape.{IsShaped}
use davix.Dsl.AvlTree.Insert.{insert_keeps_order}

abbrev leaf : ℕ → Tree ℕ
leaf x = node nil x 1 nil

abbrev value : ℕ → ℕ
value x = x

abbrev sample : Tree ℕ
sample = node (leaf 1) 2 3 (node nil 3 2 (leaf 4))

insert_keeps_order_example :
    (entries (insert value 5 sample) ≡ insert_sorted value 5 (entries sample))
    × IsSorted value 0 (entries (insert value 5 sample))
    × IsShaped (insert value 5 sample)
insert_keeps_order_example = insert_keeps_order value 5 sample (omega arith) (omega arith)

-- The element 2 is taken out below the element 5.
entries-remove_example :
    entries (remove (leaf 1) (node nil 3 2 (leaf 4)) (left_of 5 4 (leaf 6) ∷ []))
    ≡ [] ++ (entries (leaf 1) ++ entries (node nil 3 2 (leaf 4))) ++ (5 ∷ 6 ∷ [])
entries-remove_example = entries-remove (leaf 1) (node nil 3 2 (leaf 4)) (left_of 5 4 (leaf 6) ∷ [])

-- The successor keeps its own height, 2, which is right at its new place. So the fixup returns there, and the height of
-- the node above stays 4 although it is 3.
keeps_height :
    remove (leaf 1) (node nil 3 2 (leaf 4)) (left_of 5 4 (node nil 6 2 (leaf 7)) ∷ [])
    ≡ node (node (leaf 1) 3 2 (leaf 4)) 5 4 (node nil 6 2 (leaf 7))
unfolding remove replace leftmost fixup_above rebalance plug
keeps_height = refl
