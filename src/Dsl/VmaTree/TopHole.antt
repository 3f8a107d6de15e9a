-- ===== src/Dsl/VmaTree/TopHole.antt =====
-- Whatever `find_free_topdown` returns is a block that the request accepts.
use mathlib.Core.Path.{subst}
use davix.Prelude.{
  min, sym, ap, ◌∙◌, false, ◌==◌, ℕ, ◌+◌, ◌-◌, ◌%◌, ◌^◌, ◌≤◌, ◌<◌, ◌≡◌, refl, ◌⊎◌, inl, inr, ◌&&◌,
  Option, none, some, arith, max, ltb, if◌then◌else◌, All-imp,
}
use davix.Prelude.Words.{word_mod, word_max, IsWord, sub64, add64}
use davix.Dsl.Align.{align_up, align_down}
use davix.Dsl.Align.Laws.{align_up-mod, align_up-IsWord, align_down_greatest}
use davix.Dsl.VmaTree.{VmaNode, Tree, nil, node}
use davix.Dsl.VmaTree.Remove.{last_node}
use davix.Dsl.VmaTree.Entries.{entries}
use davix.Dsl.VmaTree.Order.{Linked, end_of, next_free, Linked-lt_end}
use davix.Dsl.VmaTree.Unlink.{next_free-last_node}
use davix.Dsl.VmaTree.Find.{
  Outcome, found, fail, go_up, Request, gap_start_after, is_hopeless, ends_at_max, is_node,
  otherwise,
}
use davix.Dsl.VmaTree.TopDown.{
  look_at_gap_top, visit_topdown, try_rightmost, finish_topdown, find_free_topdown,
}
use davix.Dsl.VmaTree.Hole.{
  IsFree, Suits, Between, gap_start-next_free, otherwise-found, guarded-found, unless-found,
  end_of-le_word, below_max, left, right, at_left, at_node, at_right,
}

finish_topdown-some :
    (q : Request) (m : Option ℕ) (o : Outcome) (a : ℕ)
    → finish_topdown m o ≡ some a
    → (m ≡ some a) ⊎ ((m ≡ none) × (o ≡ found a))
unfolding finish_topdown
finish_topdown-some q (some x) o a h = inl h
finish_topdown-some q none (found b) a h = inr (refl, cc)
finish_topdown-some q none fail a h = cc
finish_topdown-some q none go_up a h = cc

passed_checks :
    (q : Request) (t : Tree) (a : ℕ)
    → find_free_topdown q t ≡ some a
    → (0 < q.size)
      × (finish_topdown (try_rightmost q (last_node none t)) (visit_topdown q none t) ≡ some a)
unfolding find_free_topdown is_hopeless
passed_checks q t a h = ground arith

module _ (k : ℕ) (small : k < 64) (q : Request) (pow : q.align ≡ 2 ^ k)
    (word : IsWord q.max_addr) where
  -- The highest aligned block that ends at or below an address, above an aligned start that leaves room.
  pub highest_in :
      (start stop : ℕ)
      → stop ≤ word_mod
      → 0 < q.size
      → start % q.align ≡ 0
      → start + q.size ≤ stop
      → (align_down (stop - q.size) q.align % q.align ≡ 0)
        × (start ≤ align_down (stop - q.size) q.align)
        × (align_down (stop - q.size) q.align + q.size ≤ stop)
  highest_in start stop w pos aligned room =
      let d =
        align_down_greatest k (stop - q.size) start small (omega arith) (omega arith)
          (rw pow at aligned) in
      rw pow (d.1, d.2, omega (arith, d.0))

  pub start_aligned : (v : ℕ) → align_up v q.align % q.align ≡ 0
  start_aligned v = rw pow (align_up-mod k v small)

  pub look_at_gap_top_sound :
      (prev : Option VmaNode) (n : VmaNode) (a : ℕ)
      → 0 < q.size
      → next_free prev ≤ n.first
      → IsWord n.first
      → look_at_gap_top q prev n ≡ found a
      → Between q (next_free prev) n.first a
  unfolding look_at_gap_top
  look_at_gap_top_sound prev n a pos le w h =
      let e = gap_start-next_free prev (omega arith) in
      let from = max (gap_start_after prev) q.min_addr in
      let start = align_up from q.align in
      let stop = if q.max_addr == word_max then n.first else min n.first (add64 q.max_addr 1) in
      let limits : (stop ≤ n.first) × (stop ≤ q.max_addr + 1) = ground arith in
      let room : (from ≤ start)
          × (start + q.size ≤ stop)
          × (align_down (sub64 stop q.size) q.align ≡ a) =
        ground arith in
      let high = highest_in start stop (omega (arith, limits)) pos (start_aligned from) room.1 in
      let no_wrap : sub64 stop q.size ≡ stop - q.size = omega (arith, limits, room) in
      let it : align_down (stop - q.size) q.align ≡ a =
        sym (ap (λ v. align_down v q.align) no_wrap) ∙ room.2 in
      record {
        aligned = rw it at high.0;
        ge_min = omega (arith, it, high, room);
        le_max = omega (arith, it, high, limits);
        above = omega (arith, it, high, room, e);
        below = omega (arith, it, high, limits);
      }

  pub visit_topdown_sound :
      (prev : Option VmaNode) (t : Tree) (a : ℕ)
      → 0 < q.size
      → Linked (next_free prev) (entries t)
      → visit_topdown q prev t ≡ found a
      → Between q (next_free prev) (end_of (next_free prev) (entries t)) a
        × IsFree q.size a (entries t)
  unfolding visit_topdown
  visit_topdown_sound prev nil a pos h e = cc
  visit_topdown_sound prev (node l n r) a pos h e =
      let lo = next_free prev in
      let before = next_free-last_node prev l in
      let r_facts = right q lo l n r h in
      elim (otherwise-found
        (if is_node r && ltb n.last q.max_addr then visit_topdown q (some n) r else go_up)
        (otherwise (look_at_gap_top q (last_node prev l) n) (visit_topdown q prev l))
        (unless-found (ltb n.biggest_gap q.size) _ e)) [
          | inl e1 ↦ at_right q lo l n r h a (
              visit_topdown_sound (some n) r a pos r_facts.4
                (guarded-found (is_node r && ltb n.last q.max_addr) _ e1))
          | inr (_, e2) ↦
              elim (otherwise-found (look_at_gap_top q (last_node prev l) n)
                (visit_topdown q prev l) e2) [
                  | inl e3 ↦ at_node q lo l n r h a (
                      subst (λ t. Between q t n.first a) before
                        (look_at_gap_top_sound (last_node prev l) n a pos
                          (omega (arith, before, r_facts)) (omega (arith, r_facts)) e3))
                  | inr (_, e4) ↦
                      at_left q lo l n r h a
                        (visit_topdown_sound prev l a pos (left q lo l n r h) e4)
                ]
        ]

  pub try_rightmost_sound :
      (last : Option VmaNode) (a : ℕ)
      → next_free last ≤ word_mod
      → 0 < q.size
      → IsWord q.size
      → try_rightmost q last ≡ some a
      → (a % q.align ≡ 0) × (q.min_addr ≤ a) × (a + q.size ≤ q.max_addr + 1) × (next_free last ≤ a)
  unfolding try_rightmost
  try_rightmost_sound last a le pos ws h =
      let from = max (gap_start_after last) q.min_addr in
      let start = align_up from q.align in
      let is_word : IsWord start = rw pow (align_up-IsWord k from small) in
      let inside : ends_at_max last ≡ false = ground arith in
      let e = gap_start-next_free last (below_max last le inside) in
      let room : (from ≤ start)
          × (start + q.size ≤ q.max_addr + 1)
          × (align_down (sub64 (add64 q.max_addr 1) q.size) q.align ≡ a) =
        ground arith in
      let high = highest_in start (q.max_addr + 1) (omega arith) pos (start_aligned from) room.1 in
      let no_wrap : sub64 (add64 q.max_addr 1) q.size ≡ q.max_addr + 1 - q.size =
        omega (arith, room) in
      let it : align_down (q.max_addr + 1 - q.size) q.align ≡ a =
        sym (ap (λ v. align_down v q.align) no_wrap) ∙ room.2 in
      (
        rw it at high.0,
        omega (arith, it, high, room),
        omega (arith, it, high),
        omega (arith, it, high, room, e),
      )

  -- For an alignment `2 ^ k` with `k < 64`, a size and an upper limit that are words, and a tree whose
  -- sequence is in order: a block that `find_free_topdown` returns is aligned, lies within the limits
  -- and meets no entry of the tree.
  pub find_free_topdown-Suits :
      (t : Tree) (a : ℕ)
      → IsWord q.size
      → Linked 0 (entries t)
      → find_free_topdown q t ≡ some a
      → Suits q (entries t) a
  find_free_topdown-Suits t a ws h e =
      let last = last_node none t in
      let end = next_free-last_node none t in
      let (hope, e') = passed_checks q t a e in
      elim (finish_topdown-some q (try_rightmost q last) (visit_topdown q none t) a e') [
        | inl e1 ↦
            let s =
              try_rightmost_sound last a
                (omega (arith, end, end_of-le_word 0 (entries t) (omega arith) h)) hope ws e1 in
            record {
              aligned = s.0;
              ge_min = s.1;
              le_max = s.2;
              free =
                  All-imp (λ x p. inl (omega (arith, s.3, end))) (entries t)
                    (Linked-lt_end 0 (entries t) h);
            }
        | inr (_, e2) ↦
            let (b, f) = visit_topdown_sound none t a hope h e2 in
            record { aligned = b.aligned; ge_min = b.ge_min; le_max = b.le_max; free = f }
      ]
