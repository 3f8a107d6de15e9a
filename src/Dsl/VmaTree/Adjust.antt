-- ===== src/Dsl/VmaTree/Adjust.antt =====
-- dsl/vmamodify.cc: `VMATree::adjust`. As for `remove`, the node is a place in the tree; its range has
-- already changed.
use davix.Prelude.{ℕ, Bool, false, some, [], ◌∷◌, ◌++◌, ltb, if◌then◌else◌}
use davix.Dsl.VmaTree.{VmaNode, Tree, nil, node, left_of, right_of, Trail}
use davix.Dsl.VmaTree.Modify.{propagate, pred_of, gap_before, set_succ_gap}
use davix.Dsl.VmaTree.Remove.{last_node, leftmost}

-- The rest of the loop, when the node at the start is the parent of `t`.
unfoldable pub propagate_above : Tree → Trail → Tree
propagate_above t [] = t
propagate_above t (left_of n r ∷ up) = propagate_above (propagate t n r) up
propagate_above t (right_of l n ∷ up) = propagate_above (propagate l n t) up

-- The tree around a place that the loop does not touch.
unfoldable pub put_back : Tree → Trail → Tree
put_back t [] = t
put_back t (left_of n r ∷ up) = put_back (node t n r) up
put_back t (right_of l n ∷ up) = put_back (node l n t) up

-- `node = succ`, when the successor is an ancestor: the loop starts there.
unfoldable pub propagate_from_succ : Tree → Trail → Tree
unfolding propagate_above
propagate_from_succ t [] = t
propagate_from_succ t (left_of n r ∷ up) = propagate_above (propagate t n r) up
propagate_from_succ t (right_of l n ∷ up) = propagate_from_succ (node l n t) up

-- `succ->height < node->height`, when the successor is an ancestor.
unfoldable pub succ_is_lower : ℕ → Trail → Bool
succ_is_lower height [] = false
succ_is_lower height (left_of n r ∷ up) = ltb n.height height
succ_is_lower height (right_of l n ∷ up) = succ_is_lower height up

unfoldable pub adjust : Tree → VmaNode → Tree → Trail → Tree
adjust l n nil up =
    let n' = record n { prev_gap = gap_before n.first (last_node (pred_of up) l) } in
    let up' = set_succ_gap (λ first. gap_before first (some n)) up in
    if succ_is_lower n.height up'
    then propagate_from_succ (node l n' nil) up'
    else propagate_above (propagate l n' nil) up'
adjust l n (node rl rn rr) up =
    let n' = record n { prev_gap = gap_before n.first (last_node (pred_of up) l) } in
    let (z, zr, inner) = leftmost rl rn rr [] in
    let z' = record z { prev_gap = gap_before z.first (some n) } in
    if ltb z.height n.height
    then propagate_above (propagate nil z' zr) (inner ++ right_of l n' ∷ up)
    else propagate_above (propagate l n' (put_back (node nil z' zr) inner)) up
