-- ===== src/Dsl/VmaTree/Balance.antt =====
-- `insert` and `remove` keep the tree balanced and its cached data right.
use mathlib.Core.Path.{subst}
use davix.Prelude.{ℕ, ◌+◌, ◌≡◌, refl, max, [], ◌∷◌, ◌++◌, arith, ltb, Bool-cases, inl, inr}
use davix.Dsl.VmaTree.{VmaNode, Tree, nil, node, left_of, right_of, Trail}
use davix.Dsl.VmaTree.Modify.{
  node_height, rebalance, fixup, descend, set_succ_gap, pred_of, gap_before, insert,
}
use davix.Dsl.VmaTree.Remove.{leftmost, last_node, remove}
use davix.Dsl.VmaTree.Shape.{
  IsShaped, Surrounds, rebalance-Grown, rebalance-flat, fixup_above-IsShaped,
}

pub Surrounds-set_succ_gap :
    (g : ℕ → ℕ) (h : ℕ) (up : Trail) → Surrounds h up → Surrounds h (set_succ_gap g up)
unfolding set_succ_gap
Surrounds-set_succ_gap g h [] s = tt
Surrounds-set_succ_gap g h (left_of n r ∷ up) s = s
Surrounds-set_succ_gap g h (right_of l n ∷ up) s =
    (s.0, s.1, s.2, Surrounds-set_succ_gap g (1 + max h (node_height l)) up s.3)

Surrounds-descend :
    (f : ℕ) (t : Tree) (up : Trail)
    → IsShaped t
    → Surrounds (node_height t) up
    → Surrounds 0 (descend f t up)
unfolding descend node_height
Surrounds-descend f nil up a s = s
Surrounds-descend f (node l n r) up a s = elim (Bool-cases (ltb f n.first)) [
  | inl e ↦ rw e (Surrounds-descend f l (left_of n r ∷ up) a.0 (a.1, a.3, a.4, rw (← a.2) s))
  | inr e ↦ rw e (
      Surrounds-descend f r (right_of l n ∷ up) a.1
        (a.0, a.4, a.3, subst (λ h. Surrounds h up) (omega (arith, a)) s))
]

-- If a tree is balanced and every cached height and cached gap in it is right, the same holds after
-- `insert`.
pub insert-IsShaped : (n : VmaNode) (t : Tree) → IsShaped t → IsShaped (insert n t)
unfolding insert fixup node_height
insert-IsShaped n t a =
    let g =
      rebalance-Grown nil
        (record n { height = 1; prev_gap = gap_before n.first (pred_of (descend n.first t [])) })
        nil tt tt (omega arith) (omega arith) in
    fixup_above-IsShaped 0 _ _ g.shaped (omega arith) (omega (arith, g.le))
      (Surrounds-set_succ_gap _ 0 (descend n.first t []) (Surrounds-descend n.first t [] a tt))

Surrounds-leftmost :
    (l : Tree) (n : VmaNode) (r : Tree) (up : Trail)
    → IsShaped (node l n r)
    → Surrounds n.height up
    → let (z, zr, inner) = leftmost l n r up in IsShaped zr × Surrounds (1 + node_height zr) inner
unfolding leftmost node_height
Surrounds-leftmost nil n r up a s = (a.1, subst (λ h. Surrounds h up) (omega (arith, a)) s)
Surrounds-leftmost (node ll ln lr) n r up a s =
    Surrounds-leftmost ll ln lr (left_of n r ∷ up) a.0 (a.1, a.3, a.4, rw (← a.2) s)

leftmost-append :
    (l : Tree) (n : VmaNode) (r : Tree) (up down : Trail)
    → leftmost l n r (up ++ down)
      ≡ ((leftmost l n r up).0, (leftmost l n r up).1, (leftmost l n r up).2 ++ down)
unfolding leftmost
leftmost-append nil n r up down = refl
leftmost-append (node ll ln lr) n r up down = leftmost-append ll ln lr (left_of n r ∷ up) down

-- The leftmost node taken out of the right subtree of a place.
pub removed :
    (rl : Tree) (rn : VmaNode) (rr : Tree) (l : Tree) (z : VmaNode) (up : Trail)
    → IsShaped (node rl rn rr)
    → Surrounds rn.height (right_of l z ∷ up)
    → IsShaped (leftmost rl rn rr []).1
      × Surrounds
          (1 + node_height (leftmost rl rn rr []).1)
          ((leftmost rl rn rr []).2 ++ right_of l z ∷ up)
removed rl rn rr l z up a s =
    subst (λ p. IsShaped p.1 × Surrounds (1 + node_height p.1) p.2)
      (leftmost-append rl rn rr [] (right_of l z ∷ up))
      (Surrounds-leftmost rl rn rr (right_of l z ∷ up) a s)

-- `fixup` from a tree that has taken the place of one that was higher by one.
fixup-IsShaped :
    (t : Tree) (up : Trail) → IsShaped t → Surrounds (1 + node_height t) up → IsShaped (fixup t up)
unfolding fixup node_height
fixup-IsShaped nil up a s = fixup_above-IsShaped 1 nil up tt (omega arith) (omega arith) s
fixup-IsShaped (node l n r) up a s =
    let g = rebalance-Grown l n r a.0 a.1 (omega (arith, a)) (omega (arith, a)) in
    fixup_above-IsShaped (1 + n.height) (rebalance l n r) up g.shaped
      (omega (arith, a, rebalance-flat l n r)) (omega (arith, a, g.le)) s

-- If the subtree of a node is balanced with every cached height and cached gap right, and so is all
-- that surrounds it, the same holds for the whole tree after `remove` of the node.
pub remove-IsShaped :
    (l : Tree) (n : VmaNode) (r : Tree) (up : Trail)
    → IsShaped (node l n r)
    → Surrounds n.height up
    → IsShaped (remove l n r up)
unfolding remove node_height leftmost fixup
remove-IsShaped l n nil up a s = fixup-IsShaped l _ a.0 (
    Surrounds-set_succ_gap _ (1 + node_height l) up
      (subst (λ h. Surrounds h up) (omega (arith, a)) s))
remove-IsShaped nil n (node nil rn rr) up a s =
    let z' = record rn { prev_gap = gap_before rn.first (pred_of up) } in
    let g = rebalance-Grown nil z' rr tt a.1.1 (omega (arith, a)) (omega (arith, a)) in
    fixup_above-IsShaped n.height (rebalance nil z' rr) up g.shaped
      (omega (arith, a, rebalance-flat nil z' rr)) (omega (arith, a, g.le)) s
remove-IsShaped nil n (node (node rll rln rlr) rn rr) up a s = absurd (omega (arith, a))
remove-IsShaped (node ll ln lr) n (node rl rn rr) up a s =
    let (z, zr, inner) = leftmost rl rn rr [] in
    let l = node ll ln lr in
    let z' = record z { prev_gap = gap_before z.first (last_node (pred_of up) l) } in
    let (shaped, around) =
      removed rl rn rr l z' up a.1
        (a.0, a.4, a.3, subst (λ h. Surrounds h up) (omega (arith, a)) s) in
    fixup_above-IsShaped (1 + node_height zr) zr (inner ++ right_of l z' ∷ up) shaped (omega arith)
      (omega arith) around
