-- ===== src/Dsl/VmaTree/Entries.antt =====
-- The in-order sequence of a tree, which is what its linked list holds, and that rebalancing and
-- `fixup` keep it.
use davix.Prelude.{ℕ, ◌+◌, ◌≡◌, refl, sym, ◌∙◌, List, [], ◌∷◌, ◌++◌, ltb, Bool-cases, inl, inr}
use davix.Dsl.VmaTree.{VmaNode, Tree, nil, node, left_of, right_of, Trail}
use davix.Dsl.VmaTree.Modify.{
  propagate, rotate_left, rotate_right, straighten_left, straighten_right, rebalance, fixup_above,
  fixup, node_height,
}
use mathlib.Core.List.{append-nil, append_assoc}

pub record Entry : Type 0 where
  pub first : ℕ
  pub last : ℕ
  pub prev_gap : ℕ

abbrev pub entry : VmaNode → Entry
entry n = record { first = n.first; last = n.last; prev_gap = n.prev_gap }

abbrev pub entries : Tree → List Entry
entries nil = []
entries (node l n r) = entries l ++ entry n ∷ entries r

-- What stands before and after the place that a trail leads to.
abbrev pub before : Trail → List Entry
before [] = []
before (left_of n r ∷ up) = before up
before (right_of l n ∷ up) = before up ++ (entries l ++ entry n ∷ [])

abbrev pub after : Trail → List Entry
after [] = []
after (left_of n r ∷ up) = (entry n ∷ entries r) ++ after up
after (right_of l n ∷ up) = after up

abbrev around : Tree → VmaNode → Tree → List Entry
around l n r = entries l ++ entry n ∷ entries r

pub entries-propagate :
    (l : Tree) (n : VmaNode) (r : Tree) → entries (propagate l n r) ≡ around l n r
unfolding propagate
entries-propagate l n r = refl

entries-rotate_left :
    (l : Tree) (n : VmaNode) (r : Tree) → entries (rotate_left l n r) ≡ around l n r
unfolding rotate_left
entries-rotate_left l n nil = refl
entries-rotate_left l n (node zl z zr) = simp (entries-propagate, append_assoc)

entries-rotate_right :
    (l : Tree) (n : VmaNode) (r : Tree) → entries (rotate_right l n r) ≡ around l n r
unfolding rotate_right
entries-rotate_right nil n r = refl
entries-rotate_right (node zl z zr) n r = simp (entries-propagate, append_assoc)

entries-straighten_left : (t : Tree) → entries (straighten_left t) ≡ entries t
unfolding straighten_left
entries-straighten_left nil = refl
entries-straighten_left (node l n r) = elim (Bool-cases (ltb (node_height l) (node_height r))) [
  | inl e ↦ rw e (entries-rotate_left l n r)
  | inr e ↦ rw e
]

entries-straighten_right : (t : Tree) → entries (straighten_right t) ≡ entries t
unfolding straighten_right
entries-straighten_right nil = refl
entries-straighten_right (node l n r) = elim (Bool-cases (ltb (node_height r) (node_height l))) [
  | inl e ↦ rw e (entries-rotate_right l n r)
  | inr e ↦ rw e
]

pub entries-rebalance :
    (l : Tree) (n : VmaNode) (r : Tree) → entries (rebalance l n r) ≡ around l n r
unfolding rebalance
entries-rebalance l n r = elim (Bool-cases (ltb (node_height r + 1) (node_height l))) [
  | inl e ↦ rw e (simp (entries-rotate_right, entries-straighten_left))
  | inr e ↦ elim (Bool-cases (ltb (node_height l + 1) (node_height r))) [
    | inl f ↦ rw (e, f) (simp (entries-rotate_left, entries-straighten_right))
    | inr f ↦ rw (e, f) (entries-propagate l n r)
  ]
]

pub entries-fixup_above :
    (t : Tree) (up : Trail) → entries (fixup_above t up) ≡ before up ++ (entries t ++ after up)
unfolding fixup_above
entries-fixup_above t [] = sym (append-nil _)
entries-fixup_above t (left_of n r ∷ up) =
    entries-fixup_above (rebalance t n r) up ∙ simp (entries-rebalance, append_assoc)
entries-fixup_above t (right_of l n ∷ up) =
    entries-fixup_above (rebalance l n t) up ∙ simp (entries-rebalance, append_assoc)

pub entries-fixup :
    (t : Tree) (up : Trail) → entries (fixup t up) ≡ before up ++ (entries t ++ after up)
unfolding fixup
entries-fixup nil up = entries-fixup_above nil up
entries-fixup (node l n r) up =
    entries-fixup_above (rebalance l n r) up ∙ simp (entries-rebalance, append_assoc)
