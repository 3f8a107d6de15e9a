-- ===== src/Dsl/VmaTree.antt =====
-- include/dsl/vmatree.h: the nodes and the tree. A tree owns its nodes, so `child` pointers are
-- subtrees, a null pointer is `nil`, and a `parent` pointer is the rest of a path to the root. The
-- linked list of nodes that runs beside the tree is its in-order sequence, `entries`.
pub mod Modify
pub mod Remove
pub mod Lookup
pub mod Scan
pub mod Entries
pub mod Order
pub mod Insert
pub mod Unlink
pub mod Shape
pub mod Balance
pub mod Find
pub mod Hole
pub mod Outcomes
pub mod FirstFit
pub mod TopDown
pub mod TopHole
pub mod LastFit
pub mod Search
pub mod Adjust
pub mod Relink
pub mod Recache
pub mod Locate
pub mod Undo
use davix.Prelude.{ℕ, List}

-- `struct VMANode`, less its pointers. `first` and `last` are inclusive.
pub record VmaNode : Type 0 where
  pub first : ℕ
  pub last : ℕ
  pub height : ℕ
  pub prev_gap : ℕ
  pub biggest_gap : ℕ

pub data Tree : Type 0 where
  nil : Tree
  node : Tree → VmaNode → Tree → Tree

-- A step on the way up: the parent and its other subtree.
pub data Crumb : Type 0 where
  left_of : VmaNode → Tree → Crumb
  right_of : Tree → VmaNode → Crumb

-- The chain of parents, nearest first.
abbrev pub Trail : Type 0
Trail = List Crumb
