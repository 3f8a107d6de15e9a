-- ===== src/Dsl/VmaTree/Find.antt =====
-- dsl/vmafind.cc: `find_free_bottomup`. The source walks the tree by `parent` pointers and jumps; here a
-- visit of a subtree returns how it left it: by an answer, by `return false`, or upwards.
use davix.Prelude.{
  ℕ, min, max, Bool, true, false, not, ◌&&◌, ◌||◌, Option, none, some, if◌then◌else◌, ltb, leb,
  ◌==◌,
}
use davix.Prelude.Words.{word_max, add64, sub64}
use davix.Dsl.Align.{align_up}
use davix.Dsl.VmaTree.{VmaNode, Tree, nil, node}
use davix.Dsl.VmaTree.Remove.{last_node}

pub data Outcome : Type 0 where
  found : ℕ → Outcome
  fail : Outcome
  go_up : Outcome

-- `tmp ? tmp->last + 1 : 0`
unfoldable pub gap_start_after : Option VmaNode → ℕ
gap_start_after none = 0
gap_start_after (some n) = add64 n.last 1

-- The arguments of a search.
pub record Request : Type 0 where
  pub size : ℕ
  pub align : ℕ
  pub min_addr : ℕ
  pub max_addr : ℕ

-- The label `look_at_current`, with `prev (current)`.
unfoldable pub look_at_gap : Request → Option VmaNode → VmaNode → Outcome
unfolding gap_start_after
look_at_gap q prev n =
    let gap_start = max (gap_start_after prev) q.min_addr in
    let gap_end = if q.max_addr == word_max then n.first else min n.first (add64 q.max_addr 1) in
    let alloc_start = align_up gap_start q.align in
    if ltb alloc_start gap_start || leb gap_end alloc_start
    then go_up
    else if leb q.size (sub64 gap_end alloc_start)
    then found alloc_start
    else if leb q.max_addr gap_end
    then fail
    else go_up

abbrev pub is_node : Tree → Bool
is_node nil = false
is_node (node l n r) = true

-- What comes next if a step did not end the search.
abbrev pub otherwise : Outcome → Outcome → Outcome
otherwise go_up next = next
otherwise (found a) next = found a
otherwise fail next = fail

unfoldable pub visit_bottomup : Request → Option VmaNode → Tree → Outcome
visit_bottomup q prev nil = go_up
visit_bottomup q prev (node l n r) =
    let at_left = visit_bottomup q prev l in
    let at_right = visit_bottomup q (some n) r in
    if ltb n.biggest_gap q.size
    then go_up
    else otherwise (if is_node l && ltb q.min_addr n.first then at_left else go_up)
        (otherwise (look_at_gap q (last_node prev l) n) at_right)

-- The label `look_at_rightmost`.
unfoldable pub look_at_rightmost : Request → Option VmaNode → Option ℕ
unfolding gap_start_after
look_at_rightmost q last =
    let gap_start = max (gap_start_after last) q.min_addr in
    let alloc_start = align_up gap_start q.align in
    let gap_end = sub64 (add64 alloc_start q.size) 1 in
    if ltb alloc_start gap_start || ltb gap_end alloc_start || ltb q.max_addr gap_end
    then none
    else some alloc_start

unfoldable pub ends_at_max : Option VmaNode → Bool
ends_at_max none = false
ends_at_max (some n) = n.last == word_max

-- The three tests at the start of both searches.
unfoldable pub is_hopeless : Request → Bool
is_hopeless q =
    q.size == 0
    || (ltb q.max_addr q.min_addr || ltb q.max_addr q.size)
    || ((not (q.max_addr == word_max) || not (q.min_addr == 0))
        && ltb (add64 (sub64 q.max_addr q.min_addr) 1) q.size)

unfoldable pub finish_bottomup : Request → Option VmaNode → Outcome → Option ℕ
finish_bottomup q last (found a) = some a
finish_bottomup q last fail = none
finish_bottomup q last go_up = if ends_at_max last then none else look_at_rightmost q last

unfoldable pub find_free_bottomup : Request → Tree → Option ℕ
find_free_bottomup q root =
    if is_hopeless q
    then none
    else finish_bottomup q (last_node none root) (visit_bottomup q none root)
