-- ===== src/Dsl/VmaTree/Locate.antt =====
-- The place of a node in its tree. In dsl/vmamodify.cc a caller of `remove` has a pointer to the node,
-- which is known here by its first address.
use davix.Prelude.{ℕ, Option, none, some, [], ◌∷◌, ltb, ◌==◌, if◌then◌else◌}
use davix.Dsl.VmaTree.{VmaNode, Tree, nil, node, left_of, right_of, Trail}
use davix.Dsl.VmaTree.Remove.{remove}

unfoldable pub locate : ℕ → Tree → Trail → Option (Tree × VmaNode × Tree × Trail)
locate first nil up = none
locate first (node l n r) up =
    let at_left = locate first l (left_of n r ∷ up) in
    let at_right = locate first r (right_of l n ∷ up) in
    if first == n.first then some (l, n, r, up) else if ltb first n.first then at_left else at_right

abbrev pub remove_place : Tree → Option (Tree × VmaNode × Tree × Trail) → Tree
remove_place t none = t
remove_place t (some (l, n, r, up)) = remove l n r up

unfoldable pub remove_node : ℕ → Tree → Tree
unfolding locate
remove_node first t = remove_place t (locate first t [])
