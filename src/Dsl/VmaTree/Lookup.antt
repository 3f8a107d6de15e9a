-- ===== src/Dsl/VmaTree/Lookup.antt =====
-- dsl/vmafind.cc: `find`, `find_above` and `find_below`.
use davix.Prelude.{ℕ, Option, none, some, if◌then◌else◌, ltb, leb}
use davix.Dsl.VmaTree.{VmaNode, Tree, nil, node}

unfoldable pub find : ℕ → Tree → Option VmaNode
find addr nil = none
find addr (node l n r) =
    let at_left = find addr l in
    let at_right = find addr r in
    if ltb addr n.first then at_left else if ltb n.last addr then at_right else some n

-- The loop of `find_above`, over `found` and `current`.
unfoldable pub find_above_from : ℕ → Option VmaNode → Tree → Option VmaNode
find_above_from addr found nil = found
find_above_from addr found (node l n r) =
    let at_right = find_above_from addr found r in
    let at_left = find_above_from addr (some n) l in if ltb n.last addr then at_right else at_left

unfoldable pub find_above : ℕ → Tree → Option VmaNode
unfolding find_above_from
find_above addr root = find_above_from addr none root

-- The loop of `find_below`, over `found` and `current`.
unfoldable pub find_below_from : ℕ → Option VmaNode → Tree → Option VmaNode
find_below_from addr found nil = found
find_below_from addr found (node l n r) =
    let at_left = find_below_from addr found l in
    let at_right = find_below_from addr (some n) r in if leb addr n.first then at_left else at_right

unfoldable pub find_below : ℕ → Tree → Option VmaNode
unfolding find_below_from
find_below addr root = find_below_from addr none root
