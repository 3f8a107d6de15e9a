-- ===== src/Dsl/VmaTree/Recache.antt =====
-- `adjust` keeps the cached heights and gaps right.
use mathlib.Core.Path.{subst}
use davix.Prelude.{ℕ, ◌+◌, ◌≤◌, ◌≡◌, refl, max, false, some, [], ◌∷◌, ◌++◌, arith, ge→ltb, lt→ltb}
use davix.Dsl.VmaTree.{VmaNode, Tree, nil, node, left_of, right_of, Trail}
use davix.Dsl.VmaTree.Modify.{node_height, propagate, set_succ_gap, gap_before, pred_of}
use davix.Dsl.VmaTree.Remove.{leftmost, last_node}
use davix.Dsl.VmaTree.Adjust.{propagate_above, put_back, succ_is_lower, adjust}
use davix.Dsl.VmaTree.Shape.{IsShaped, Surrounds}
use davix.Dsl.VmaTree.Balance.{Surrounds-set_succ_gap, removed}

propagate_above-IsShaped :
    (h : ℕ) (t : Tree) (up : Trail)
    → IsShaped t
    → node_height t ≡ h
    → Surrounds h up
    → IsShaped (propagate_above t up)
unfolding propagate_above propagate node_height
propagate_above-IsShaped h t [] a e s = a
propagate_above-IsShaped h t (left_of n r ∷ up) a e s =
    propagate_above-IsShaped (1 + max h (node_height r)) (propagate t n r) up
      (a, s.0, refl, omega (arith, e, s), omega (arith, e, s), refl) (omega (arith, e)) s.3
propagate_above-IsShaped h t (right_of l n ∷ up) a e s =
    propagate_above-IsShaped (1 + max h (node_height l)) (propagate l n t) up
      (s.0, a, refl, omega (arith, e, s), omega (arith, e, s), refl) (omega (arith, e)) s.3

-- What is right in a whole tree is right at a place and around it.
put_back-IsShaped : (t : Tree) (up : Trail) → IsShaped (put_back t up) → IsShaped t
unfolding put_back
put_back-IsShaped t [] a = a
put_back-IsShaped t (left_of n r ∷ up) a = (put_back-IsShaped (node t n r) up a).0
put_back-IsShaped t (right_of l n ∷ up) a = (put_back-IsShaped (node l n t) up a).1

put_back-Surrounds :
    (t : Tree) (up : Trail) → IsShaped (put_back t up) → Surrounds (node_height t) up
unfolding put_back node_height
put_back-Surrounds t [] a = tt
put_back-Surrounds t (left_of n r ∷ up) a =
    let p = put_back-IsShaped (node t n r) up a in
    (p.1, p.3, p.4, subst (λ h. Surrounds h up) p.2 (put_back-Surrounds (node t n r) up a))
put_back-Surrounds t (right_of l n ∷ up) a =
    let p = put_back-IsShaped (node l n t) up a in
    (
      p.0,
      p.4,
      p.3,
      subst (λ h. Surrounds h up) (omega (arith, p.2)) (put_back-Surrounds (node l n t) up a),
    )

-- No ancestor is lower than a node.
succ_not_lower :
    (g : ℕ → ℕ) (h : ℕ) (t : Tree) (up : Trail)
    → IsShaped (put_back t up)
    → h ≤ node_height t
    → succ_is_lower h (set_succ_gap g up) ≡ false
unfolding succ_is_lower set_succ_gap put_back node_height
succ_not_lower g h t [] a le = refl
succ_not_lower g h t (left_of n r ∷ up) a le =
    let p = put_back-IsShaped (node t n r) up a in ge→ltb n.height h (omega (arith, p, le))
succ_not_lower g h t (right_of l n ∷ up) a le =
    let p = put_back-IsShaped (node l n t) up a in
    succ_not_lower g h (node l n t) up a (omega (arith, p, le))

leftmost_low :
    (l : Tree) (n : VmaNode) (r : Tree) (up : Trail)
    → IsShaped (node l n r)
    → (node_height (leftmost l n r up).1 ≤ 1) × ((leftmost l n r up).0.height ≤ n.height)
unfolding leftmost node_height
leftmost_low nil n r up a = (omega (arith, a), omega arith)
leftmost_low (node ll ln lr) n r up a =
    let low = leftmost_low ll ln lr (left_of n r ∷ up) a.0 in (low.0, omega (arith, low, a))

-- If a tree is balanced and every cached height and cached gap in it is right, the same holds after
-- `adjust` of a node in it, whatever its range now is.
pub adjust-IsShaped :
    (l : Tree) (n : VmaNode) (r : Tree) (up : Trail)
    → IsShaped (put_back (node l n r) up)
    → IsShaped (adjust l n r up)
unfolding adjust propagate node_height
adjust-IsShaped l n nil up a =
    let gap = λ (first : ℕ). gap_before first (some n) in
    let p = put_back-IsShaped (node l n nil) up a in
    rw (succ_not_lower gap n.height (node l n nil) up a (omega arith)) (
      propagate_above-IsShaped n.height _ (set_succ_gap gap up) (p.0, tt, refl, p.3, p.4, refl)
        (omega (arith, p))
        (Surrounds-set_succ_gap gap n.height up (put_back-Surrounds (node l n nil) up a)))
adjust-IsShaped l n (node rl rn rr) up a =
    let n' = record n { prev_gap = gap_before n.first (last_node (pred_of up) l) } in
    let (z, zr, inner) = leftmost rl rn rr [] in
    let p = put_back-IsShaped (node l n (node rl rn rr)) up a in
    let low = leftmost_low rl rn rr [] p.1 in
    let (shaped, around) = removed rl rn rr l n' up p.1 (
      p.0,
      p.4,
      p.3,
      subst (λ h. Surrounds h up) (omega (arith, p))
          (put_back-Surrounds (node l n (node rl rn rr)) up a),
    ) in
    rw (lt→ltb z.height n.height (omega (arith, low, p))) (
      propagate_above-IsShaped (1 + node_height zr) _ (inner ++ right_of l n' ∷ up)
        (tt, shaped, refl, omega arith, omega (arith, low), refl) (omega arith) around)
