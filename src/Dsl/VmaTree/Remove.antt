-- ===== src/Dsl/VmaTree/Remove.antt =====
-- dsl/vmamodify.cc: `VMATree::remove`. The node that the caller points at is a place in the tree:
-- its subtrees and its trail.
use davix.Prelude.{Option, some, [], ◌∷◌, ◌++◌}
use davix.Dsl.VmaTree.{VmaNode, Tree, nil, node, left_of, right_of, Trail}
use davix.Dsl.VmaTree.Modify.{fixup, fixup_above, pred_of, gap_before, set_succ_gap}

-- `prev (node)`: the last node of the left subtree, or else an ancestor.
unfoldable pub last_node : Option VmaNode → Tree → Option VmaNode
last_node default nil = default
last_node default (node l n r) = last_node (some n) r

-- `next (node)` in the right subtree: the leftmost node, its right subtree, and the trail to it.
unfoldable pub leftmost : Tree → VmaNode → Tree → Trail → VmaNode × Tree × Trail
leftmost nil n r up = (n, r, up)
leftmost (node ll ln lr) n r up = leftmost ll ln lr (left_of n r ∷ up)

-- Whether the successor is the right child or lies deeper, it takes the place of `node`, and the fixup
-- starts where the successor was taken from (`fixup (Z)` and `fixup (Y)` in the source).
unfoldable pub remove : Tree → VmaNode → Tree → Trail → Tree
remove l n nil up = fixup l (set_succ_gap (λ first. gap_before first (last_node (pred_of up) l)) up)
remove nil n (node rl rn rr) up =
    let (z, zr, inner) = leftmost rl rn rr [] in
    let z' = record z { prev_gap = gap_before z.first (pred_of up) } in
    fixup (node nil z' zr) (inner ++ up)
remove (node ll ln lr) n (node rl rn rr) up =
    let (z, zr, inner) = leftmost rl rn rr [] in
    let pred = last_node (pred_of up) (node ll ln lr) in
    let z' = record z { prev_gap = gap_before z.first pred } in
    fixup_above zr (inner ++ right_of (node ll ln lr) z' ∷ up)
