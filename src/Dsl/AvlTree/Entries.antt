-- ===== src/Dsl/AvlTree/Entries.antt =====
-- dsl/avlfixup.cc, include/dsl/avltree.h: the sequence of the elements, which `fixup` keeps.
use mathlib.Core.List.{append_assoc, append-nil}
use davix.Prelude.{
  ℕ, ◌+◌, ◌≡◌, refl, sym, ap, ◌∙◌, inl, inr, Option, none, some, List, [], ◌∷◌, ◌++◌, ltb,
  Bool-cases,
}
use davix.Dsl.AvlTree.{
  Tree, nil, node, left_of, right_of, Trail, node_height, rotate_left, rotate_right, turn_left,
  turn_right, rebalance, is_settled, plug, fixup_above, leftmost, replace, remove, first, last,
}

module _ {ℓ} {A : Type ℓ} where
  abbrev pub entries : Tree A → List A
  entries nil = []
  entries (node l x h r) = entries l ++ x ∷ entries r

  -- The elements before and behind a place.
  abbrev pub before : Trail A → List A
  before [] = []
  before (left_of x h r ∷ up) = before up
  before (right_of l x h ∷ up) = before up ++ (entries l ++ x ∷ [])

  abbrev pub behind : Trail A → List A
  behind [] = []
  behind (left_of x h r ∷ up) = x ∷ entries r ++ behind up
  behind (right_of l x h ∷ up) = behind up

  entries-rotate_left :
      (l : Tree A) (x : A) (r : Tree A) → entries (rotate_left l x r) ≡ entries l ++ x ∷ entries r
  unfolding rotate_left
  entries-rotate_left l x nil = refl
  entries-rotate_left l x (node zl z h zr) = simp (append_assoc)

  entries-rotate_right :
      (l : Tree A) (x : A) (r : Tree A) → entries (rotate_right l x r) ≡ entries l ++ x ∷ entries r
  unfolding rotate_right
  entries-rotate_right nil x r = refl
  entries-rotate_right (node zl z h zr) x r = simp (append_assoc)

  entries-turn_left : (t : Tree A) → entries (turn_left t) ≡ entries t
  unfolding turn_left
  entries-turn_left nil = refl
  entries-turn_left (node zl z h zr) = elim (Bool-cases (ltb (node_height zl) (node_height zr))) [
    | inl e ↦ rw e (entries-rotate_left zl z zr)
    | inr e ↦ rw e refl
  ]

  entries-turn_right : (t : Tree A) → entries (turn_right t) ≡ entries t
  unfolding turn_right
  entries-turn_right nil = refl
  entries-turn_right (node zl z h zr) = elim (Bool-cases (ltb (node_height zr) (node_height zl))) [
    | inl e ↦ rw e (entries-rotate_right zl z zr)
    | inr e ↦ rw e refl
  ]

  pub entries-rebalance :
      (l : Tree A) (x : A) (r : Tree A) → entries (rebalance l x r) ≡ entries l ++ x ∷ entries r
  unfolding rebalance
  entries-rebalance l x r = elim (Bool-cases (ltb (node_height r + 1) (node_height l))) [
    | inl e ↦ rw e (
        entries-rotate_right (turn_left l) x r
        ∙ ap (λ xs. xs ++ x ∷ entries r) (entries-turn_left l))
    | inr e ↦ elim (Bool-cases (ltb (node_height l + 1) (node_height r))) [
      | inl f ↦
          rw (e, f)
            (entries-rotate_left l x (turn_right r)
              ∙ ap (λ bs. entries l ++ x ∷ bs) (entries-turn_right r))
      | inr f ↦ rw (e, f) refl
    ]
  ]

  pub entries-plug :
      (t : Tree A) (up : Trail A) → entries (plug t up) ≡ before up ++ entries t ++ behind up
  unfolding plug
  entries-plug t [] = sym (append-nil (entries t))
  entries-plug t (left_of x h r ∷ up) = entries-plug (node t x h r) up ∙ simp (append_assoc)
  entries-plug t (right_of l x h ∷ up) = entries-plug (node l x h t) up ∙ simp (append_assoc)

  pub entries-fixup_above :
      (t : Tree A) (up : Trail A) → entries (fixup_above t up) ≡ before up ++ entries t ++ behind up
  unfolding fixup_above
  entries-fixup_above t [] = sym (append-nil (entries t))
  entries-fixup_above t (left_of x h r ∷ up) = elim (Bool-cases (is_settled t h r)) [
    | inl e ↦ rw e (entries-plug (node t x h r) up ∙ simp (append_assoc))
    | inr e ↦
        rw e (entries-fixup_above (rebalance t x r) up ∙ simp (entries-rebalance, append_assoc))
  ]
  entries-fixup_above t (right_of l x h ∷ up) = elim (Bool-cases (is_settled l h t)) [
    | inl e ↦ rw e (entries-plug (node l x h t) up ∙ simp (append_assoc))
    | inr e ↦
        rw e (entries-fixup_above (rebalance l x t) up ∙ simp (entries-rebalance, append_assoc))
  ]

  before-append : (inner up : Trail A) → before (inner ++ up) ≡ before up ++ before inner
  before-append [] up = sym (append-nil (before up))
  before-append (left_of x h r ∷ inner) up = before-append inner up
  before-append (right_of l x h ∷ inner) up =
      ap (λ xs. xs ++ (entries l ++ x ∷ [])) (before-append inner up) ∙ simp (append_assoc)

  behind-append : (inner up : Trail A) → behind (inner ++ up) ≡ behind inner ++ behind up
  behind-append [] up = refl
  behind-append (left_of x h r ∷ inner) up =
      ap (λ xs. x ∷ entries r ++ xs) (behind-append inner up) ∙ simp (append_assoc)
  behind-append (right_of l x h ∷ inner) up = behind-append inner up

  -- The successor stands first, and what is left keeps its order.
  entries-leftmost :
      (l : Tree A) (x : A) (h : ℕ) (r : Tree A) (up : Trail A)
      → (before (leftmost l x h r up).3 ≡ before up)
        × ((leftmost l x h r up).0 ∷ entries (leftmost l x h r up).2
              ++ behind (leftmost l x h r up).3
            ≡ (entries l ++ x ∷ entries r) ++ behind up)
  unfolding leftmost
  entries-leftmost nil x h r up = (refl, refl)
  entries-leftmost (node ll lx lh lr) x h r up =
      let (left, all) = entries-leftmost ll lx lh lr (left_of x h r ∷ up) in
      (left, all ∙ simp (append_assoc))

  entries-replace :
      (l : Tree A) (q : A × ℕ × Tree A × Trail A) (up : Trail A)
      → before q.3 ≡ []
      → entries (replace l q up)
        ≡ before up ++ entries l ++ (q.0 ∷ entries q.2 ++ behind q.3) ++ behind up
  unfolding replace
  entries-replace l (z, h, zr, inner) up none_left =
      entries-fixup_above zr (inner ++ right_of l z h ∷ up)
      ∙ simp (before-append, behind-append, none_left, append_assoc)

  -- `remove` takes the element out of the sequence and keeps the order of the others.
  pub entries-remove :
      (l r : Tree A) (up : Trail A)
      → entries (remove l r up) ≡ before up ++ (entries l ++ entries r) ++ behind up
  unfolding remove
  entries-remove nil r up = entries-fixup_above r up
  entries-remove (node ll lx lh lr) nil up =
      entries-fixup_above (node ll lx lh lr) up
      ∙ ap (λ xs. before up ++ xs ++ behind up) (sym (append-nil (entries (node ll lx lh lr))))
  entries-remove (node ll lx lh lr) (node rl rx rh rr) up =
      let (left, all) = entries-leftmost rl rx rh rr [] in
      let l : Tree A = node ll lx lh lr in
      entries-replace l (leftmost rl rx rh rr []) up left
      ∙ ap (λ xs. before up ++ entries l ++ xs ++ behind up)
          (all ∙ append-nil (entries rl ++ rx ∷ entries rr))
      ∙ simp (append_assoc)

  abbrev pub first_of : List A → Option A
  first_of [] = none
  first_of (x ∷ xs) = some x

  abbrev pub last_of : List A → Option A
  last_of [] = none
  last_of (x ∷ []) = some x
  last_of (x ∷ y ∷ xs) = last_of (y ∷ xs)

  first_of-append :
      (xs ys zs : List A) (x : A) → first_of ((xs ++ x ∷ ys) ++ zs) ≡ first_of (xs ++ x ∷ ys)
  first_of-append [] ys zs x = refl
  first_of-append (y ∷ xs) ys zs x = refl

  last_of-append : (xs ys : List A) (x : A) → last_of (xs ++ x ∷ ys) ≡ last_of (x ∷ ys)
  last_of-append [] ys x = refl
  last_of-append (y ∷ []) ys x = refl
  last_of-append (y ∷ z ∷ xs) ys x = last_of-append (z ∷ xs) ys x

  first-entries : (t : Tree A) → first t ≡ first_of (entries t)
  unfolding first
  first-entries nil = refl
  first-entries (node nil x h r) = refl
  first-entries (node (node ll lx lh lr) x h r) =
      first-entries (node ll lx lh lr)
      ∙ sym (first_of-append (entries ll) (entries lr) (x ∷ entries r) lx)

  last-entries : (t : Tree A) → last t ≡ last_of (entries t)
  unfolding last
  last-entries nil = refl
  last-entries (node l x h nil) = sym (last_of-append (entries l) [] x)
  last-entries (node l x h (node rl rx rh rr)) =
      last-entries (node rl rx rh rr)
      ∙ last_of-append (entries rl) (entries rr) rx
      ∙ sym (last_of-append (x ∷ entries rl) (entries rr) rx)
      ∙ sym (last_of-append (entries l) (entries rl ++ rx ∷ entries rr) x)

  -- `first` and `last` give the ends of the sequence.
  pub ends-entries :
      (t : Tree A) → (first t ≡ first_of (entries t)) × (last t ≡ last_of (entries t))
  ends-entries t = (first-entries t, last-entries t)
