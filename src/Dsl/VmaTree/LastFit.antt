-- ===== src/Dsl/VmaTree/LastFit.antt =====
-- `find_free_topdown` finds the highest block that meets the request, if there is one.
use mathlib.Core.Path.{subst}
use davix.Prelude.{
  min, ℕ, ◌+◌, ◌-◌, ◌%◌, ◌^◌, ◌≤◌, ◌<◌, ◌≡◌, ◌≢◌, refl, inl, inr, true, false, ◌&&◌, ◌==◌, Option,
  none, some, arith, max, ltb, ltb→lt, ltb→ge, ge→ltb, lt→ltb, if◌then◌else◌, All-append_left,
  All-append_right, Bool-cases,
}
use davix.Prelude.Words.{word_mod, word_max, IsWord, add64, sub64}
use davix.Dsl.Align.{align_up, align_down}
use davix.Dsl.Align.Laws.{align_up_least, align_down_greatest}
use davix.Dsl.VmaTree.{VmaNode, Tree, nil, node}
use davix.Dsl.VmaTree.Modify.{node_max_gap}
use davix.Dsl.VmaTree.Remove.{last_node}
use davix.Dsl.VmaTree.Shape.{IsShaped}
use davix.Dsl.VmaTree.Entries.{entries}
use davix.Dsl.VmaTree.Order.{
  Linked, end_of, next_free, Linked-append_left, Linked-append_right, end_of-append, le-end_of,
}
use davix.Dsl.VmaTree.Unlink.{next_free-last_node}
use davix.Dsl.VmaTree.Hole.{IsFree, gap_start-next_free, end_of-le_word}
use davix.Dsl.VmaTree.Find.{
  Outcome, found, fail, go_up, Request, gap_start_after, is_hopeless, is_node,
}
use davix.Dsl.VmaTree.TopDown.{
  look_at_gap_top, visit_topdown, try_rightmost, finish_topdown, find_free_topdown,
}
use davix.Dsl.VmaTree.TopHole.{try_rightmost_sound, look_at_gap_top_sound}
use davix.Dsl.VmaTree.Outcomes.{
  Hits, Passes, otherwise-Hits, otherwise-Hits_first, otherwise-Passes, guarded-Passes,
  unless-Passes, guarded-Hits, both_true,
}
use davix.Dsl.VmaTree.FirstFit.{gap-large, not_at_max}

abbrev AtLeast : ℕ → ℕ → Type 0
AtLeast b a = b ≤ a

-- A right subtree with an entry that begins at or before the end of the limits.
is_node-reached : (lo b : ℕ) (t : Tree) → lo ≤ b → b < end_of lo (entries t) → is_node t ≡ true
is_node-reached lo b nil le lt = absurd (omega arith)
is_node-reached lo b (node l n r) le lt = refl

finish_topdown-Hits :
    (b : ℕ) (m : Option ℕ) (o : Outcome)
    → ((a : ℕ) → m ≡ some a → b ≤ a)
    → Hits (AtLeast b) o
    → (a : ℕ) × (finish_topdown m o ≡ some a) × (b ≤ a)
unfolding finish_topdown
finish_topdown-Hits b (some a) o f h = (a, refl, f a refl)
finish_topdown-Hits b none (found a) f h = (a, refl, h)
finish_topdown-Hits b none fail f h = absurd h
finish_topdown-Hits b none go_up f h = absurd h

module _ (k : ℕ) (small : k < 64) (q : Request) (pow : q.align ≡ 2 ^ k) (word : IsWord q.max_addr)
    (b : ℕ) (pos : 0 < q.size) (aligned : b % q.align ≡ 0) (ge_min : q.min_addr ≤ b)
    (le_max : b + q.size ≤ q.max_addr + 1) where
  start-le : (v : ℕ) → v ≤ b → (v ≤ align_up v q.align) × (align_up v q.align ≤ b)
  start-le v le =
      let d = align_up_least k v b small (omega arith) le (rw pow at aligned) in rw pow (d.0, d.2)

  -- The highest aligned block that ends at or below `stop` is not below `b`.
  highest-ge :
      (stop : ℕ) → stop ≤ word_mod → b + q.size ≤ stop → b ≤ align_down (sub64 stop q.size) q.align
  highest-ge stop w room =
      let no_wrap : sub64 stop q.size ≡ stop - q.size = omega arith in
      let d =
        align_down_greatest k (stop - q.size) b small (omega arith) (omega arith)
          (rw pow at aligned) in
      rw no_wrap (rw pow d.2)

  look_top-Hits :
      (prev : Option VmaNode) (n : VmaNode)
      → next_free prev ≤ b
      → b + q.size ≤ n.first
      → IsWord n.first
      → Hits (AtLeast b) (look_at_gap_top q prev n)
  unfolding look_at_gap_top
  look_top-Hits prev n le front w =
      let e = gap_start-next_free prev (omega arith) in
      let up = start-le (max (gap_start_after prev) q.min_addr) (omega (arith, e)) in
      let stop = if q.max_addr == word_max then n.first else min n.first (add64 q.max_addr 1) in
      let room : (stop ≤ word_mod) × (b + q.size ≤ stop) = ground arith in
      let high = highest-ge stop room.0 room.1 in ground arith

  no_fail :
      (prev : Option VmaNode) (n : VmaNode)
      → IsWord (next_free prev)
      → b < next_free prev
      → look_at_gap_top q prev n ≢ fail
  unfolding look_at_gap_top
  no_fail prev n w past h = let e = gap_start-next_free prev w in ground arith

  answered :
      (prev : Option VmaNode) (n : VmaNode)
      → next_free prev ≤ n.first
      → IsWord n.first
      → b < next_free prev
      → (o : Outcome) → look_at_gap_top q prev n ≡ o
      → Passes (AtLeast b) o
  answered prev n le w past (found a) h =
      let s = look_at_gap_top_sound k small q pow word prev n a pos le w h in
      omega (arith, s.above, past)
  answered prev n le w past fail h = absurd (no_fail prev n (omega arith) past h)
  answered prev n le w past go_up h = tt

  look_top-Passes :
      (prev : Option VmaNode) (n : VmaNode)
      → next_free prev ≤ n.first
      → IsWord n.first
      → b < next_free prev
      → Passes (AtLeast b) (look_at_gap_top q prev n)
  look_top-Passes prev n le w past = answered prev n le w past _ refl

  top-Passes :
      (prev : Option VmaNode) (t : Tree)
      → Linked (next_free prev) (entries t)
      → b < next_free prev
      → Passes (AtLeast b) (visit_topdown q prev t)
  unfolding visit_topdown
  top-Passes prev nil h lt = tt
  top-Passes prev (node l n r) h lt =
      let lo = next_free prev in
      let left = Linked-append_left lo (entries l) _ h in
      let right = Linked-append_right lo (entries l) _ h in
      let before = next_free-last_node prev l in
      let mid = le-end_of lo (entries l) left in
      unless-Passes (AtLeast b) (ltb n.biggest_gap q.size) _ (
        otherwise-Passes (AtLeast b) _ _
          (guarded-Passes (AtLeast b) (is_node r && ltb n.last q.max_addr) _
            (top-Passes (some n) r right.4 (omega (arith, right, mid))))
          (otherwise-Passes (AtLeast b) _ _
            (look_top-Passes (last_node prev l) n (omega (arith, before, right))
              (omega (arith, right)) (omega (arith, before, mid)))
            (top-Passes prev l left lt)))

  top-Hits :
      (prev : Option VmaNode) (t : Tree)
      → Linked (next_free prev) (entries t)
      → IsShaped t
      → IsFree q.size b (entries t)
      → next_free prev ≤ b
      → b < end_of (next_free prev) (entries t)
      → Hits (AtLeast b) (visit_topdown q prev t)
  unfolding visit_topdown node_max_gap
  top-Hits prev nil h s f le lt = absurd (omega arith)
  top-Hits prev (node l n r) h s f le lt =
      let lo = next_free prev in
      let left = Linked-append_left lo (entries l) _ h in
      let right = Linked-append_right lo (entries l) _ h in
      let before = next_free-last_node prev l in
      let free_l = All-append_left _ (entries l) _ f in
      let rest = All-append_right _ (entries l) _ f in
      let big : q.size ≤ n.biggest_gap = gap-large q.size b lo (node l n r) h s f le lt in
      let skip_right : b ≤ n.last
          → Passes (AtLeast b)
              (if is_node r && ltb n.last q.max_addr then visit_topdown q (some n) r else go_up) =
        λ under.
          guarded-Passes (AtLeast b) (is_node r && ltb n.last q.max_addr) _
            (top-Passes (some n) r right.4 (omega arith)) in
      rw (ge→ltb n.biggest_gap q.size big) (elim rest.0 [
        | inl past ↦
            let inside : b < end_of (n.last + 1) (entries r) =
              subst (λ t. b < t) (end_of-append lo (entries l) _) lt in
            otherwise-Hits_first (AtLeast b) _ _ (
              guarded-Hits (AtLeast b) (is_node r && ltb n.last q.max_addr) _
                (both_true (is_node-reached (n.last + 1) b r (omega arith) inside)
                  (lt→ltb _ _ (omega arith)))
                (top-Hits (some n) r right.4 s.1 rest.1 (omega arith) inside))
        | inr front ↦
            otherwise-Hits (AtLeast b) _ _ (skip_right (omega (arith, right)))
              (elim (Bool-cases (ltb b (end_of lo (entries l)))) [
                | inl e ↦
                    let inside = ltb→lt _ _ e in
                    otherwise-Hits (AtLeast b) _ _
                      (look_top-Passes (last_node prev l) n (omega (arith, before, right))
                        (omega (arith, right)) (omega (arith, before, inside)))
                      (top-Hits prev l left s.0 free_l le inside)
                | inr e ↦
                    let reached = ltb→ge _ _ e in
                    otherwise-Hits_first (AtLeast b) _ _ (
                      look_top-Hits (last_node prev l) n (omega (arith, before, reached)) front
                        (omega (arith, right)))
              ])
      ])

  rightmost_top-Hits :
      (last : Option VmaNode)
      → IsWord (next_free last)
      → next_free last ≤ b
      → (a : ℕ) × (try_rightmost q last ≡ some a) × (b ≤ a)
  unfolding try_rightmost
  rightmost_top-Hits last w le =
      let e = gap_start-next_free last w in
      let from = max (gap_start_after last) q.min_addr in
      let up = start-le from (omega (arith, e)) in
      let inside = not_at_max last w in
      let same : sub64 (add64 q.max_addr 1) q.size ≡ sub64 (q.max_addr + 1) q.size = omega arith in
      let high = highest-ge (q.max_addr + 1) (omega arith) le_max in
      (align_down (sub64 (add64 q.max_addr 1) q.size) q.align, ground arith, rw same high)

  hopeful_top : q.size ≤ q.max_addr → is_hopeless q ≡ false
  unfolding is_hopeless
  hopeful_top le = ground arith

  finish_topdown-some_first :
      (m : Option ℕ) (o : Outcome) (a : ℕ) → m ≡ some a → finish_topdown m o ≡ some a
  unfolding finish_topdown
  finish_topdown-some_first m o a e = rw e refl

  -- For an alignment `2 ^ k` with `k < 64`, an upper limit that is a word, a positive size that does
  -- not pass that limit, and a balanced tree with right caches whose sequence is in order: if some
  -- block `b` is aligned, lies within the limits and meets no entry, then `find_free_topdown` succeeds
  -- with a block that is not below `b`.
  pub find_free_topdown_greatest :
      (t : Tree)
      → q.size ≤ q.max_addr
      → Linked 0 (entries t)
      → IsShaped t
      → IsFree q.size b (entries t)
      → (a : ℕ) × (find_free_topdown q t ≡ some a) × (b ≤ a)
  unfolding find_free_topdown
  find_free_topdown_greatest t size_le h s f =
      let end = next_free-last_node none t in
      let end_le = end_of-le_word 0 (entries t) (omega arith) h in
      rw (hopeful_top size_le) (elim (Bool-cases (ltb b (end_of 0 (entries t)))) [
        | inl e ↦
            let inside = ltb→lt _ _ e in
            finish_topdown-Hits b (try_rightmost q (last_node none t)) _
              (λ a g. omega (
                arith,
                try_rightmost_sound k small q pow word (last_node none t) a
                    (omega (arith, end, end_le)) pos (omega arith) g,
                end,
                inside,
              ))
              (top-Hits none t h s f (omega arith) inside)
        | inr e ↦
            let reached = ltb→ge _ _ e in
            let (a, g, le) =
              rightmost_top-Hits (last_node none t) (omega (arith, end, reached))
                (omega (arith, end, reached)) in
            (a, finish_topdown-some_first _ _ a g, le)
      ])
