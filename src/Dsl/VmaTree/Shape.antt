-- ===== src/Dsl/VmaTree/Shape.antt =====
-- The balance of the tree and the data that its nodes cache, through rotations and `fixup`.
use mathlib.Core.Path.{subst}
use davix.Prelude.{
  ℕ, ◌+◌, ◌≤◌, ◌<◌, ◌≡◌, refl, ◌⊎◌, max, [], ◌∷◌, arith, ltb, Bool-cases, inl, inr, ltb→lt, ltb→ge,
}
use davix.Dsl.VmaTree.{VmaNode, Tree, nil, node, left_of, right_of, Trail}
use davix.Dsl.VmaTree.Modify.{
  node_height, node_max_gap, propagate, rotate_left, rotate_right, straighten_left,
  straighten_right, rebalance, fixup_above,
}

-- An AVL tree whose `height` and `biggest_gap` fields are those of its subtrees.
abbrev pub IsShaped : Tree → Type 0
IsShaped nil = Unit
IsShaped (node l n r) =
    IsShaped l
    × IsShaped r
    × (n.height ≡ 1 + max (node_height l) (node_height r))
    × (node_height l ≤ node_height r + 1)
    × (node_height r ≤ node_height l + 1)
    × (n.biggest_gap ≡ max n.prev_gap (max (node_max_gap l) (node_max_gap r)))

-- A subtree that replaces one of height `h` or `h - 1`.
pub record Grown (h : ℕ) (t : Tree) : Type 0 where
  pub shaped : IsShaped t
  pub ge : h ≤ node_height t
  pub le : node_height t ≤ h + 1

propagate-IsShaped :
    (l : Tree) (n : VmaNode) (r : Tree)
    → IsShaped l
    → IsShaped r
    → node_height l ≤ node_height r + 1
    → node_height r ≤ node_height l + 1
    → IsShaped (propagate l n r)
unfolding propagate
propagate-IsShaped l n r hl hr a b = (hl, hr, refl, a, b, refl)

height-propagate :
    (l : Tree) (n : VmaNode) (r : Tree)
    → node_height (propagate l n r) ≡ 1 + max (node_height l) (node_height r)
unfolding propagate node_height
height-propagate l n r = refl

-- One rotation.
rotate_right-Grown :
    (zl : Tree) (z : VmaNode) (zr : Tree) (n : VmaNode) (r : Tree)
    → IsShaped zl
    → IsShaped zr
    → IsShaped r
    → node_height zr ≤ node_height zl
    → node_height zl ≤ node_height zr + 1
    → node_height zl ≡ node_height r + 1
    → Grown (node_height zl + 1) (rotate_right (node zl z zr) n r)
unfolding rotate_right
rotate_right-Grown zl z zr n r a b c d e f = record {
  shaped =
      propagate-IsShaped zl z (propagate zr n r) a
        (propagate-IsShaped zr n r b c (omega arith) (omega arith))
        (omega (arith, height-propagate zr n r)) (omega (arith, height-propagate zr n r));
  ge = omega (arith, height-propagate zr n r, height-propagate zl z (propagate zr n r));
  le = omega (arith, height-propagate zr n r, height-propagate zl z (propagate zr n r));
}

rotate_left-Grown :
    (l : Tree) (n : VmaNode) (zl : Tree) (z : VmaNode) (zr : Tree)
    → IsShaped l
    → IsShaped zl
    → IsShaped zr
    → node_height zl ≤ node_height zr
    → node_height zr ≤ node_height zl + 1
    → node_height zr ≡ node_height l + 1
    → Grown (node_height zr + 1) (rotate_left l n (node zl z zr))
unfolding rotate_left
rotate_left-Grown l n zl z zr a b c d e f = record {
  shaped =
      propagate-IsShaped (propagate l n zl) z zr
        (propagate-IsShaped l n zl a b (omega arith) (omega arith)) c
        (omega (arith, height-propagate l n zl)) (omega (arith, height-propagate l n zl));
  ge = omega (arith, height-propagate l n zl, height-propagate (propagate l n zl) z zr);
  le = omega (arith, height-propagate l n zl, height-propagate (propagate l n zl) z zr);
}

-- The double rotations, with the inner subtree taken apart.
double_right-Grown :
    (zl : Tree) (z : VmaNode) (wl : Tree) (w : VmaNode) (wr : Tree) (n : VmaNode) (r : Tree)
    → IsShaped zl
    → IsShaped (node wl w wr)
    → IsShaped r
    → w.height ≡ node_height zl + 1
    → node_height zl ≡ node_height r
    → Grown (node_height r + 2) (rotate_right (rotate_left zl z (node wl w wr)) n r)
unfolding rotate_right rotate_left propagate
double_right-Grown zl z wl w wr n r a b c d e = record {
  shaped = (
    (a, b.0, refl, omega (arith, b), omega (arith, b), refl),
    (b.1, c, refl, omega (arith, b), omega (arith, b), refl),
    refl,
    omega (arith, b),
    omega (arith, b),
    refl,
  );
  ge = omega (arith, b);
  le = omega (arith, b);
}

double_left-Grown :
    (l : Tree) (n : VmaNode) (wl : Tree) (w : VmaNode) (wr : Tree) (z : VmaNode) (zr : Tree)
    → IsShaped l
    → IsShaped (node wl w wr)
    → IsShaped zr
    → w.height ≡ node_height zr + 1
    → node_height zr ≡ node_height l
    → Grown (node_height l + 2) (rotate_left l n (rotate_right (node wl w wr) z zr))
unfolding rotate_right rotate_left propagate
double_left-Grown l n wl w wr z zr a b c d e = record {
  shaped = (
    (a, b.0, refl, omega (arith, b), omega (arith, b), refl),
    (b.1, c, refl, omega (arith, b), omega (arith, b), refl),
    refl,
    omega (arith, b),
    omega (arith, b),
    refl,
  );
  ge = omega (arith, b);
  le = omega (arith, b);
}

lean_right-Grown :
    (zl : Tree) (z : VmaNode) (zr : Tree) (n : VmaNode) (r : Tree)
    → IsShaped zl
    → IsShaped zr
    → IsShaped r
    → node_height zr ≡ node_height zl + 1
    → node_height zl ≡ node_height r
    → Grown (node_height r + 2) (rotate_right (rotate_left zl z zr) n r)
unfolding node_height
lean_right-Grown zl z nil n r a s b q e = absurd (omega arith)
lean_right-Grown zl z (node wl w wr) n r a s b q e = double_right-Grown zl z wl w wr n r a s b q e

lean_left-Grown :
    (l : Tree) (n : VmaNode) (zl : Tree) (z : VmaNode) (zr : Tree)
    → IsShaped l
    → IsShaped zl
    → IsShaped zr
    → node_height zl ≡ node_height zr + 1
    → node_height zr ≡ node_height l
    → Grown (node_height l + 2) (rotate_left l n (rotate_right zl z zr))
unfolding node_height
lean_left-Grown l n nil z zr a s b q e = absurd (omega arith)
lean_left-Grown l n (node wl w wr) z zr a s b q e = double_left-Grown l n wl w wr z zr a s b q e

-- The heavy side, with the turn of the child that leans the other way.
heavy_left-Grown :
    (l : Tree) (n : VmaNode) (r : Tree)
    → IsShaped l
    → IsShaped r
    → node_height l ≡ node_height r + 2
    → Grown (node_height r + 2) (rotate_right (straighten_left l) n r)
unfolding straighten_left node_height
heavy_left-Grown nil n r a b e = absurd (omega arith)
heavy_left-Grown (node zl z zr) n r a b e =
    elim (Bool-cases (ltb (node_height zl) (node_height zr))) [
      | inl lt ↦ rw lt (
          lean_right-Grown zl z zr n r a.0 a.1 b (omega (arith, a, ltb→lt _ _ lt))
            (omega (arith, a, ltb→lt _ _ lt)))
      | inr ge ↦
          let flat = ltb→ge _ _ ge in
          rw ge (
            subst (λ h. Grown h (rotate_right (node zl z zr) n r)) (omega (arith, a))
              (rotate_right-Grown zl z zr n r a.0 a.1 b flat (omega (arith, a)) (omega (arith, a))))
    ]

heavy_right-Grown :
    (l : Tree) (n : VmaNode) (r : Tree)
    → IsShaped l
    → IsShaped r
    → node_height r ≡ node_height l + 2
    → Grown (node_height l + 2) (rotate_left l n (straighten_right r))
unfolding straighten_right node_height
heavy_right-Grown l n nil a b e = absurd (omega arith)
heavy_right-Grown l n (node zl z zr) a b e =
    elim (Bool-cases (ltb (node_height zr) (node_height zl))) [
      | inl lt ↦ rw lt (
          lean_left-Grown l n zl z zr a b.0 b.1 (omega (arith, b, ltb→lt _ _ lt))
            (omega (arith, b, ltb→lt _ _ lt)))
      | inr ge ↦
          let flat = ltb→ge _ _ ge in
          rw ge (
            subst (λ h. Grown h (rotate_left l n (node zl z zr))) (omega (arith, b))
              (rotate_left-Grown l n zl z zr a b.0 b.1 flat (omega (arith, b)) (omega (arith, b))))
    ]

-- The loop body, at subtrees whose heights differ by at most two.
pub rebalance-Grown :
    (l : Tree) (n : VmaNode) (r : Tree)
    → IsShaped l
    → IsShaped r
    → node_height l ≤ node_height r + 2
    → node_height r ≤ node_height l + 2
    → Grown (max (node_height l) (node_height r)) (rebalance l n r)
unfolding rebalance
rebalance-Grown l n r a b c d = elim (Bool-cases (ltb (node_height r + 1) (node_height l))) [
  | inl e ↦
      let lt = ltb→lt _ _ e in
      rw e (
        subst (λ h. Grown h (rotate_right (straighten_left l) n r)) (omega arith)
          (heavy_left-Grown l n r a b (omega arith)))
  | inr e ↦
      let ge = ltb→ge _ _ e in
      elim (Bool-cases (ltb (node_height l + 1) (node_height r))) [
        | inl f ↦
            let lt = ltb→lt _ _ f in
            rw (e, f)
              (subst (λ h. Grown h (rotate_left l n (straighten_right r))) (omega arith)
                (heavy_right-Grown l n r a b (omega arith)))
        | inr f ↦
            let le = ltb→ge _ _ f in
            rw (e, f)
              (record {
                shaped = propagate-IsShaped l n r a b ge le;
                ge = omega (arith, height-propagate l n r);
                le = omega (arith, height-propagate l n r);
              })
      ]
]

-- The node stays on top of its subtrees unless one of them is too high.
pub rebalance-flat :
    (l : Tree) (n : VmaNode) (r : Tree)
    → (node_height (rebalance l n r) ≡ 1 + max (node_height l) (node_height r))
      ⊎ ((node_height r + 1 < node_height l) ⊎ (node_height l + 1 < node_height r))
unfolding rebalance
rebalance-flat l n r = elim (Bool-cases (ltb (node_height r + 1) (node_height l))) [
  | inl e ↦ inr (inl (ltb→lt _ _ e))
  | inr e ↦ elim (Bool-cases (ltb (node_height l + 1) (node_height r))) [
    | inl f ↦ inr (inr (ltb→lt _ _ f))
    | inr f ↦ inl (rw (e, f) (height-propagate l n r))
  ]
]

-- Above the place, everything has its shape, if a tree of height `h` stands there.
abbrev pub Surrounds : ℕ → Trail → Type 0
Surrounds h [] = Unit
Surrounds h (left_of n r ∷ up) =
    IsShaped r
    × (h ≤ node_height r + 1)
    × (node_height r ≤ h + 1)
    × Surrounds (1 + max h (node_height r)) up
Surrounds h (right_of l n ∷ up) =
    IsShaped l
    × (h ≤ node_height l + 1)
    × (node_height l ≤ h + 1)
    × Surrounds (1 + max h (node_height l)) up

-- `fixup` mends a tree in which the subtree at one place has grown or shrunk by one.
pub fixup_above-IsShaped :
    (h : ℕ) (t : Tree) (up : Trail)
    → IsShaped t
    → h ≤ node_height t + 1
    → node_height t ≤ h + 1
    → Surrounds h up
    → IsShaped (fixup_above t up)
unfolding fixup_above
fixup_above-IsShaped h t [] a b c s = a
fixup_above-IsShaped h t (left_of n r ∷ up) a b c s =
    let flat = rebalance-flat t n r in
    let g = rebalance-Grown t n r a s.0 (omega arith) (omega arith) in
    fixup_above-IsShaped (1 + max h (node_height r)) (rebalance t n r) up g.shaped
      (omega (arith, g.ge, flat)) (omega (arith, g.le)) s.3
fixup_above-IsShaped h t (right_of l n ∷ up) a b c s =
    let flat = rebalance-flat l n t in
    let g = rebalance-Grown l n t s.0 a (omega arith) (omega arith) in
    fixup_above-IsShaped (1 + max h (node_height l)) (rebalance l n t) up g.shaped
      (omega (arith, g.ge, flat)) (omega (arith, g.le)) s.3
