-- ===== src/Dsl/VmaTree/Modify.antt =====
-- dsl/vmamodify.cc: the helpers of the AVL tree, `fixup` and `insert`.
use davix.Prelude.{ℕ, ◌+◌, max, Option, none, some, [], ◌∷◌, if◌then◌else◌, ltb}
use davix.Prelude.Words.{sub64}
use davix.Dsl.VmaTree.{VmaNode, Tree, nil, node, left_of, right_of, Trail}

unfoldable pub node_height : Tree → ℕ
node_height nil = 0
node_height (node l n r) = n.height

unfoldable pub node_max_gap : Tree → ℕ
node_max_gap nil = 0
node_max_gap (node l n r) = n.biggest_gap

unfoldable pub propagate : Tree → VmaNode → Tree → Tree
unfolding node_height node_max_gap
propagate l n r =
    node l
      (record n {
        height = 1 + max (node_height l) (node_height r);
        biggest_gap = max n.prev_gap (max (node_max_gap l) (node_max_gap r));
      })
      r

-- `rotate (node, LEFT)`. A null right child faults in the source; no caller passes one.
unfoldable pub rotate_left : Tree → VmaNode → Tree → Tree
rotate_left l n nil = node l n nil
rotate_left l n (node zl z zr) = propagate (propagate l n zl) z zr

-- `rotate (node, RIGHT)`
unfoldable pub rotate_right : Tree → VmaNode → Tree → Tree
rotate_right nil n r = node nil n r
rotate_right (node zl z zr) n r = propagate zl z (propagate zr n r)

-- The heavy child, turned first if it leans the other way.
unfoldable pub straighten_left : Tree → Tree
straighten_left nil = nil
straighten_left (node zl z zr) =
    if ltb (node_height zl) (node_height zr) then rotate_left zl z zr else node zl z zr

unfoldable pub straighten_right : Tree → Tree
straighten_right nil = nil
straighten_right (node zl z zr) =
    if ltb (node_height zr) (node_height zl) then rotate_right zl z zr else node zl z zr

-- The body of the loop of `fixup`, at one node: `-1 <= balance && balance <= 1`, then the side that
-- is heavy.
unfoldable pub rebalance : Tree → VmaNode → Tree → Tree
rebalance l n r =
    if ltb (node_height r + 1) (node_height l)
    then rotate_right (straighten_left l) n r
    else if ltb (node_height l + 1) (node_height r)
    then rotate_left l n (straighten_right r)
    else propagate l n r

-- `VMATree::fixup`, when the node at the start is the parent of `t`.
unfoldable pub fixup_above : Tree → Trail → Tree
unfolding rebalance
fixup_above t [] = t
fixup_above t (left_of n r ∷ up) = fixup_above (rebalance t n r) up
fixup_above t (right_of l n ∷ up) = fixup_above (rebalance l n t) up

-- `VMATree::fixup` from the node itself; a null pointer goes on with the parent, as in `remove`.
unfoldable pub fixup : Tree → Trail → Tree
unfolding fixup_above
fixup nil up = fixup_above nil up
fixup (node l n r) up = fixup_above (rebalance l n r) up

-- The `while (x)` of `insert`: the trail to the place of the new node.
unfoldable pub descend : ℕ → Tree → Trail → Trail
descend first nil up = up
descend first (node l x r) up =
    let at_left = descend first l (left_of x r ∷ up) in
    let at_right = descend first r (right_of l x ∷ up) in
    if ltb first x.first then at_left else at_right

-- `prev`: the list neighbour before a place, which is the nearest ancestor to the left of it.
unfoldable pub pred_of : Trail → Option VmaNode
pred_of [] = none
pred_of (left_of n r ∷ up) = pred_of up
pred_of (right_of l n ∷ up) = some n

unfoldable pub gap_before : ℕ → Option VmaNode → ℕ
gap_before first none = first
gap_before first (some pred) = sub64 (sub64 first pred.last) 1

-- `succ->prev_gap = ...`, at the nearest ancestor to the right of the place, if there is one.
unfoldable pub set_succ_gap : (ℕ → ℕ) → Trail → Trail
set_succ_gap gap [] = []
set_succ_gap gap (left_of n r ∷ up) = left_of (record n { prev_gap = gap n.first }) r ∷ up
set_succ_gap gap (right_of l n ∷ up) = right_of l n ∷ set_succ_gap gap up

-- `VMATree::insert`
unfoldable pub insert : VmaNode → Tree → Tree
insert n root =
    let up = descend n.first root [] in
    let n' = record n { height = 1; prev_gap = gap_before n.first (pred_of up) } in
    fixup (node nil n' nil) (set_succ_gap (λ first. sub64 (sub64 first n.last) 1) up)
