-- ===== src/Dsl/AvlTree.antt =====
-- include/dsl/avltree.h and dsl/avlfixup.cc: AVL trees whose nodes stand in elements of any type. A tree owns its
-- nodes, a null pointer is `nil`, and a `parent` pointer is the rest of the way to the root. The comparators in the kernel
-- compare one number of each element, which is `key` here.
pub mod Entries
pub mod Sorted
pub mod Shape
pub mod Insert
use davix.Prelude.{
  ℕ, zero, suc, ◌+◌, Bool, true, false, not, ◌&&◌, ◌||◌, Option, none, some, List, [], ◌∷◌, ◌++◌,
  max, ltb, ◌==◌, if◌then◌else◌,
}

-- The number is the `height` of the node.
pub data Tree {ℓ} (A : Type ℓ) : Type ℓ where
  nil : Tree A
  node : Tree A → A → ℕ → Tree A → Tree A

-- A step on the way up: the parent, with its height, and its other subtree.
pub data Crumb {ℓ} (A : Type ℓ) : Type ℓ where
  left_of : A → ℕ → Tree A → Crumb A
  right_of : Tree A → A → ℕ → Crumb A

abbrev pub Trail {ℓ} : Type ℓ → Type ℓ
Trail A = List (Crumb A)

module _ {ℓ} {A : Type ℓ} where
  abbrev pub node_height : Tree A → ℕ
  node_height nil = 0
  node_height (node l x h r) = h

  abbrev pub new_height : Tree A → Tree A → ℕ
  new_height l r = 1 + max (node_height l) (node_height r)

  -- A node with its new height.
  abbrev pub update : Tree A → A → Tree A → Tree A
  update l x r = node l x (new_height l r) r

  -- `rotate (node, LEFT)`. A null right child faults in the source; no caller passes one.
  unfoldable pub rotate_left : Tree A → A → Tree A → Tree A
  rotate_left l x nil = update l x nil
  rotate_left l x (node zl z h zr) = update (update l x zl) z zr

  -- `rotate (node, RIGHT)`
  unfoldable pub rotate_right : Tree A → A → Tree A → Tree A
  rotate_right nil x r = update nil x r
  rotate_right (node zl z h zr) x r = update zl z (update zr x r)

  -- The heavy child, turned first when it leans the other way.
  unfoldable pub turn_left : Tree A → Tree A
  turn_left nil = nil
  turn_left (node zl z h zr) =
      if ltb (node_height zl) (node_height zr) then rotate_left zl z zr else node zl z h zr

  unfoldable pub turn_right : Tree A → Tree A
  turn_right nil = nil
  turn_right (node zl z h zr) =
      if ltb (node_height zr) (node_height zl) then rotate_right zl z zr else node zl z h zr

  -- One round of the loop of `fixup`, where it does not return.
  unfoldable pub rebalance : Tree A → A → Tree A → Tree A
  rebalance l x r =
      if ltb (node_height r + 1) (node_height l)
      then rotate_right (turn_left l) x r
      else if ltb (node_height l + 1) (node_height r)
      then rotate_left l x (turn_right r)
      else update l x r

  -- The round returns: the node is balanced and has its height.
  abbrev pub is_settled : Tree A → ℕ → Tree A → Bool
  is_settled l h r =
      not (ltb (node_height r + 1) (node_height l))
      && (not (ltb (node_height l + 1) (node_height r)) && (new_height l r == h))

  -- The whole tree, with a subtree in its place.
  unfoldable pub plug : Tree A → Trail A → Tree A
  plug t [] = t
  plug t (left_of x h r ∷ up) = plug (node t x h r) up
  plug t (right_of l x h ∷ up) = plug (node l x h t) up

  -- `AVLTree::fixup` from the parent of `t` on.
  unfoldable pub fixup_above : Tree A → Trail A → Tree A
  fixup_above t [] = t
  fixup_above t (left_of x h r ∷ up) =
      let rest = fixup_above (rebalance t x r) up in
      if is_settled t h r then plug (node t x h r) up else rest
  fixup_above t (right_of l x h ∷ up) =
      let rest = fixup_above (rebalance l x t) up in
      if is_settled l h t then plug (node l x h t) up else rest

  -- The loop of `TypedAVLTree::insert`.
  unfoldable pub descend : (A → ℕ) → A → Tree A → Trail A → Trail A
  descend key new nil up = up
  descend key new (node l x h r) up =
      let at_left = descend key new l (left_of x h r ∷ up) in
      let at_right = descend key new r (right_of l x h ∷ up) in
      if ltb (key new) (key x) then at_left else at_right

  unfoldable pub insert_at : A → Trail A → Tree A
  insert_at new up = fixup_above (node nil new 1 nil) up

  unfoldable pub insert : (A → ℕ) → A → Tree A → Tree A
  insert key new t = insert_at new (descend key new t [])

  -- The in-order successor in the right subtree: its element and height, what is on its right, and the way to it.
  unfoldable pub leftmost : Tree A → A → ℕ → Tree A → Trail A → A × ℕ × Tree A × Trail A
  leftmost nil x h r up = (x, h, r, up)
  leftmost (node ll lx lh lr) x h r up = leftmost ll lx lh lr (left_of x h r ∷ up)

  -- The successor, which keeps its own height, takes the place of the node. When it is the right child the fixup
  -- begins with it, and otherwise with the node that it was taken from.
  unfoldable pub replace : Tree A → A × ℕ × Tree A × Trail A → Trail A → Tree A
  replace l (z, h, zr, inner) up = fixup_above zr (inner ++ right_of l z h ∷ up)

  -- `AVLTree::remove` of the node between two subtrees at a place.
  unfoldable pub remove : Tree A → Tree A → Trail A → Tree A
  remove nil r up = fixup_above r up
  remove (node ll lx lh lr) nil up = fixup_above (node ll lx lh lr) up
  remove (node ll lx lh lr) (node rl rx rh rr) up =
      replace (node ll lx lh lr) (leftmost rl rx rh rr []) up

  unfoldable pub first : Tree A → Option A
  first nil = none
  first (node nil x h r) = some x
  first (node (node ll lx lh lr) x h r) = first (node ll lx lh lr)

  unfoldable pub last : Tree A → Option A
  last nil = none
  last (node l x h nil) = some x
  last (node l x h (node rl rx rh rr)) = last (node rl rx rh rr)
