-- ===== src/Dsl/VmaTree/TopDown.antt =====
-- dsl/vmafind.cc: `find_free_topdown`, as in Find: a visit of a subtree returns how the walk leaves it.
use davix.Prelude.{ℕ, min, max, ◌&&◌, ◌||◌, Option, none, some, if◌then◌else◌, ltb, leb, ◌==◌}
use davix.Prelude.Words.{word_max, add64, sub64}
use davix.Dsl.Align.{align_up, align_down}
use davix.Dsl.VmaTree.{VmaNode, Tree, nil, node}
use davix.Dsl.VmaTree.Remove.{last_node}
use davix.Dsl.VmaTree.Find.{
  Outcome, found, fail, go_up, Request, gap_start_after, otherwise, is_node, is_hopeless,
  ends_at_max,
}

-- The label `look_at_current` of `find_free_topdown`.
unfoldable pub look_at_gap_top : Request → Option VmaNode → VmaNode → Outcome
unfolding gap_start_after
look_at_gap_top q prev n =
    let gap_start = max (gap_start_after prev) q.min_addr in
    let gap_end = if q.max_addr == word_max then n.first else min n.first (add64 q.max_addr 1) in
    let alloc_start = align_up gap_start q.align in
    if ltb alloc_start gap_start || leb gap_end alloc_start
    then go_up
    else if leb q.size (sub64 gap_end alloc_start)
    then found (align_down (sub64 gap_end q.size) q.align)
    else if leb gap_start q.min_addr
    then fail
    else go_up

unfoldable pub visit_topdown : Request → Option VmaNode → Tree → Outcome
visit_topdown q prev nil = go_up
visit_topdown q prev (node l n r) =
    let at_left = visit_topdown q prev l in
    let at_right = visit_topdown q (some n) r in
    if ltb n.biggest_gap q.size
    then go_up
    else otherwise (if is_node r && ltb n.last q.max_addr then at_right else go_up)
        (otherwise (look_at_gap_top q (last_node prev l) n) at_left)

-- What comes before the label `start_loop`: the space behind the last node.
unfoldable pub try_rightmost : Request → Option VmaNode → Option ℕ
unfolding gap_start_after
try_rightmost q last =
    let gap_start = max (gap_start_after last) q.min_addr in
    let alloc_start = align_up gap_start q.align in
    let gap_end = sub64 (add64 alloc_start q.size) 1 in
    if ends_at_max last || ltb alloc_start gap_start
    then none
    else if leb alloc_start gap_end && leb gap_end q.max_addr
    then some (align_down (sub64 (add64 q.max_addr 1) q.size) q.align)
    else none

unfoldable pub finish_topdown : Option ℕ → Outcome → Option ℕ
finish_topdown (some a) o = some a
finish_topdown none (found a) = some a
finish_topdown none fail = none
finish_topdown none go_up = none

unfoldable pub find_free_topdown : Request → Tree → Option ℕ
find_free_topdown q root =
    if is_hopeless q
    then none
    else finish_topdown (try_rightmost q (last_node none root)) (visit_topdown q none root)
