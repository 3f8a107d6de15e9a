-- ===== src/Dsl/VmaTree/Relink.antt =====
-- `adjust` against the ordered sequence: the two gaps beside the node are counted again.
use davix.Prelude.{
  ℕ, ◌+◌, ◌-◌, ◌≤◌, ◌<◌, ◌≡◌, ap, sym, ◌∙◌, some, List, [], ◌∷◌, ◌++◌, arith, All, All-imp,
  Bool-cases, inl, inr, ltb,
}
use davix.Prelude.Words.{IsWord}
use davix.Dsl.VmaTree.{VmaNode, Tree, nil, node, left_of, right_of, Trail}
use davix.Dsl.VmaTree.Modify.{propagate, pred_of, set_succ_gap, gap_before}
use davix.Dsl.VmaTree.Remove.{last_node, leftmost}
use davix.Dsl.VmaTree.Adjust.{propagate_above, put_back, propagate_from_succ, succ_is_lower, adjust}
use davix.Dsl.VmaTree.Entries.{Entry, entry, entries, before, after, entries-propagate}
use davix.Dsl.VmaTree.Insert.{before-set_succ_gap, gap_before-next_free}
use davix.Dsl.VmaTree.Order.{end_of, next_free, end_of-before, end_of-append}
use davix.Dsl.VmaTree.Unlink.{
  regap_from, next_free-last_node, leftmost_regap, after-set_succ_gap, after-append,
  before-leftmost, before-leftmost_whole,
}
use mathlib.Core.List.{append_assoc, append-nil}

entries-propagate_above :
    (t : Tree) (up : Trail) → entries (propagate_above t up) ≡ before up ++ (entries t ++ after up)
unfolding propagate_above
entries-propagate_above t [] = sym (append-nil _)
entries-propagate_above t (left_of n r ∷ up) =
    entries-propagate_above (propagate t n r) up ∙ simp (entries-propagate, append_assoc)
entries-propagate_above t (right_of l n ∷ up) =
    entries-propagate_above (propagate l n t) up ∙ simp (entries-propagate, append_assoc)

entries-put_back :
    (t : Tree) (up : Trail) → entries (put_back t up) ≡ before up ++ (entries t ++ after up)
unfolding put_back
entries-put_back t [] = sym (append-nil _)
entries-put_back t (left_of n r ∷ up) = entries-put_back (node t n r) up ∙ simp append_assoc
entries-put_back t (right_of l n ∷ up) = entries-put_back (node l n t) up ∙ simp append_assoc

entries-propagate_from_succ :
    (t : Tree) (up : Trail)
    → entries (propagate_from_succ t up) ≡ before up ++ (entries t ++ after up)
unfolding propagate_from_succ
entries-propagate_from_succ t [] = sym (append-nil _)
entries-propagate_from_succ t (left_of n r ∷ up) =
    entries-propagate_above (propagate t n r) up ∙ simp (entries-propagate, append_assoc)
entries-propagate_from_succ t (right_of l n ∷ up) =
    entries-propagate_from_succ (node l n t) up ∙ simp append_assoc

adjust_split :
    (l : Tree) (n : VmaNode) (r : Tree) (up : Trail) (lo : ℕ)
    → All (λ y. gap_before y.first (some n) ≡ y.first - lo) (entries r ++ after up)
    → let n' = record n { prev_gap = gap_before n.first (last_node (pred_of up) l) } in
      entries (adjust l n r up)
      ≡ before up ++ (entries l ++ entry n' ∷ regap_from lo (entries r ++ after up))
unfolding adjust
adjust_split l n nil up lo a =
    let gap = λ (first : ℕ). gap_before first (some n) in
    let n' = record n { prev_gap = gap_before n.first (last_node (pred_of up) l) } in
    let finish : before (set_succ_gap gap up)
          ++ ((entries l ++ entry n' ∷ []) ++ after (set_succ_gap gap up))
        ≡ before up ++ (entries l ++ entry n' ∷ regap_from lo (after up)) =
      rw (before-set_succ_gap gap up) (
        rw (after-set_succ_gap gap lo up a)
          (ap (λ t. before up ++ t) (append_assoc (entries l) (entry n' ∷ []) _))) in
    elim (Bool-cases (succ_is_lower n.height (set_succ_gap gap up))) [
      | inl e ↦ rw e (entries-propagate_from_succ (node l n' nil) (set_succ_gap gap up) ∙ finish)
      | inr e ↦ rw e (
          entries-propagate_above (propagate l n' nil) (set_succ_gap gap up)
          ∙ rw (entries-propagate l n' nil) finish)
    ]
adjust_split l n (node rl rn rr) up lo a =
    let n' = record n { prev_gap = gap_before n.first (last_node (pred_of up) l) } in
    let (z, zr, inner) = leftmost rl rn rr [] in
    let z' = record z { prev_gap = gap_before z.first (some n) } in
    let tail = leftmost_regap lo (some n) rl rn rr up a in
    let whole : (before up ++ (entries l ++ entry n' ∷ []))
          ++ (entry z' ∷ (entries zr ++ after (inner ++ up)))
        ≡ before up
          ++ (entries l ++ entry n' ∷ regap_from lo (entries (node rl rn rr) ++ after up)) =
      append_assoc (before up) (entries l ++ entry n' ∷ []) _
      ∙ ap (λ t. before up ++ t)
          (append_assoc (entries l) (entry n' ∷ []) _ ∙ ap (λ t. entries l ++ entry n' ∷ t) tail) in
    elim (Bool-cases (ltb z.height n.height)) [
      | inl e ↦ rw e (
          entries-propagate_above (propagate nil z' zr) (inner ++ right_of l n' ∷ up)
          ∙ rw (entries-propagate nil z' zr) (
              rw (before-leftmost_whole rl rn rr (right_of l n' ∷ up))
                (rw (after-append inner (right_of l n' ∷ up) ∙ sym (after-append inner up)) whole)))
      | inr e ↦ rw e (
          entries-propagate_above (propagate l n' (put_back (node nil z' zr) inner)) up
          ∙ rw (entries-propagate l n' (put_back (node nil z' zr) inner)) (
              rw (entries-put_back (node nil z' zr) inner) (
                rw (before-leftmost rl rn rr []) (
                  ap (λ t. before up ++ t)
                    (append_assoc (entries l) _ (after up)
                      ∙ ap (λ t. entries l ++ entry n' ∷ t)
                          (ap (λ t. entry z' ∷ t)
                              (append_assoc (entries zr) (after inner) (after up)
                                ∙ ap (λ t. entries zr ++ t) (sym (after-append inner up)))
                            ∙ tail))))))
    ]

module _ (l : Tree) (n : VmaNode) (r : Tree) (up : Trail) where
  abbrev lower : List Entry
  lower = before up ++ entries l

  abbrev upper : List Entry
  upper = entries r ++ after up

  -- For a node at a place of a tree that begins behind the end of the entries before the place and ends
  -- in front of all entries after it, where these begin at words: in the sequence of the tree after
  -- `adjust`, the gap of the node counts from the end of the previous entry and the gap of the next
  -- entry from the end of the node, and nothing else has changed.
  pub adjust_refines :
      end_of 0 lower ≤ n.first
      → IsWord n.first
      → All (λ y. (n.last < y.first) × IsWord y.first) upper
      → entries (adjust l n r up)
        ≡ lower ++ regap_from (end_of 0 lower) (entry n ∷ regap_from (n.last + 1) upper)
  adjust_refines le w a =
      let pred = last_node (pred_of up) l in
      let below : next_free pred ≡ end_of 0 lower =
        next_free-last_node (pred_of up) l
        ∙ ap (λ t. end_of t (entries l)) (sym (end_of-before up))
        ∙ sym (end_of-append 0 (before up) (entries l)) in
      let gap : gap_before n.first pred ≡ n.first - end_of 0 lower =
        gap_before-next_free n.first pred (omega (arith, below)) w ∙ omega (arith, below) in
      adjust_split l n r up (n.last + 1)
        (All-imp (λ y p. gap_before-next_free y.first (some n) (omega arith) p.1) upper a)
      ∙ sym (append_assoc (before up) (entries l) _)
      ∙ ap
          (λ (g : ℕ).
            lower
            ++ record { first = n.first; last = n.last; prev_gap = g }
              ∷ regap_from (n.last + 1) upper)
          gap
