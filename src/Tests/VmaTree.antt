-- ===== src/Tests/VmaTree.antt =====
-- The theorems on the tree of memory areas at a tree of three nodes.
use davix.Prelude.{ℕ, ◌≤◌, ◌≡◌, refl, some, [], ◌∷◌, ◌++◌, arith}
use davix.Dsl.VmaTree.{VmaNode, Tree, nil, node, left_of}
use davix.Dsl.VmaTree.Modify.{insert, node_height, node_max_gap}
use davix.Dsl.VmaTree.Remove.{remove, last_node}
use davix.Dsl.VmaTree.Lookup.{find, find_above, find_below}
use davix.Dsl.VmaTree.Entries.{entry, entries}
use davix.Dsl.VmaTree.Insert.{link_in, insert_refines}
use davix.Dsl.VmaTree.Unlink.{regap_from, remove_refines}
use davix.Dsl.VmaTree.Shape.{IsShaped}
use davix.Dsl.VmaTree.Balance.{insert-IsShaped, remove-IsShaped}
use davix.Dsl.VmaTree.Scan.{seen, scan, scan_last, contains, searches-eq-scan}
use davix.Dsl.VmaTree.Find.{
  Request, find_free_bottomup, is_hopeless, finish_bottomup, visit_bottomup, look_at_gap,
  ends_at_max,
}
use davix.Dsl.Align.{align_up, align_down}
use davix.Dsl.VmaTree.Hole.{Suits}
use davix.Dsl.VmaTree.Search.{find_free-Suits, find_free_nearest}
use davix.Dsl.VmaTree.TopDown.{
  find_free_topdown, finish_topdown, try_rightmost, visit_topdown, look_at_gap_top,
}
use davix.Dsl.VmaTree.Adjust.{adjust}
use davix.Dsl.VmaTree.Relink.{adjust_refines}
use davix.Prelude.{ltb, leb, inr}

abbrev low : VmaNode
low = record { first = 100; last = 199; height = 1; prev_gap = 100; biggest_gap = 100 }

abbrev middle : VmaNode
middle = record { first = 300; last = 399; height = 2; prev_gap = 100; biggest_gap = 600 }

abbrev high : VmaNode
high = record { first = 1000; last = 1999; height = 1; prev_gap = 600; biggest_gap = 600 }

abbrev sample : Tree
sample = node (node nil low nil) middle (node nil high nil)

abbrev fresh : VmaNode
fresh = record { first = 500; last = 599; height = 0; prev_gap = 0; biggest_gap = 0 }

abbrev request : Request
request = record { size = 128; align = 64; min_addr = 10; max_addr = 4095 }

insert_refines_example : entries (insert fresh sample) ≡ link_in 500 599 0 (entries sample)
insert_refines_example = insert_refines fresh sample (omega arith) (omega arith)

insert-IsShaped_example : IsShaped (insert fresh sample)
unfolding node_height node_max_gap
insert-IsShaped_example = insert-IsShaped fresh sample (omega arith)

remove_refines_example :
    entries (remove (node nil low nil) middle (node nil high nil) [])
    ≡ (entry low ∷ []) ++ regap_from 200 (entry high ∷ [])
remove_refines_example =
    remove_refines (node nil low nil) middle (node nil high nil) [] (omega arith)

remove-IsShaped_example : IsShaped (remove nil low nil (left_of middle (node nil high nil) ∷ []))
unfolding node_height node_max_gap
remove-IsShaped_example =
    remove-IsShaped nil low nil (left_of middle (node nil high nil) ∷ []) (omega arith)
      (omega arith)

found_block : find_free_bottomup request sample ≡ some 448
unfolding find_free_bottomup is_hopeless finish_bottomup visit_bottomup look_at_gap align_up
    last_node
found_block = refl

abbrev narrow : Request
narrow = record { size = 128; align = 64; min_addr = 10; max_addr = 1500 }

high_block : find_free_topdown narrow sample ≡ some 832
unfolding find_free_topdown is_hopeless finish_topdown try_rightmost visit_topdown look_at_gap_top
    align_up align_down last_node ends_at_max
high_block = refl

-- The middle node after its range has grown at both ends.
abbrev grown : VmaNode
grown = record { first = 250; last = 499; height = 2; prev_gap = 100; biggest_gap = 600 }

adjust_refines_example :
    entries (adjust (node nil low nil) grown (node nil high nil) [])
    ≡ (entry low ∷ []) ++ regap_from 200 (entry grown ∷ regap_from 500 (entry high ∷ []))
adjust_refines_example =
    adjust_refines (node nil low nil) grown (node nil high nil) [] (omega arith) (omega arith)
      (omega arith)

searches-eq-scan_example :
    (seen (find 350 sample) ≡ scan (contains 350) (entries sample))
    × (seen (find_above 350 sample) ≡ scan (λ x. leb 350 x.last) (entries sample))
    × (seen (find_below 350 sample) ≡ scan_last (λ x. ltb x.first 350) (entries sample))
searches-eq-scan_example = searches-eq-scan 350 0 sample (omega arith)

find_free-Suits_example : Suits narrow (entries sample) 832
find_free-Suits_example =
    find_free-Suits 6 narrow sample 832 (omega arith) refl (omega arith) (omega arith) (omega arith)
      (inr high_block)

find_free_nearest_example :
    ((a : ℕ) × (find_free_bottomup narrow sample ≡ some a) × (a ≤ 512))
    × ((a : ℕ) × (find_free_topdown narrow sample ≡ some a) × (512 ≤ a))
unfolding node_height node_max_gap
find_free_nearest_example =
    find_free_nearest 6 narrow 512 sample (omega arith) refl (omega arith) (omega arith)
      (omega arith) (omega arith) (omega arith) (omega arith) (omega arith) (omega arith)
      (omega arith)
