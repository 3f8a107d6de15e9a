-- ===== src/Dsl/AvlTree/Sorted.antt =====
-- include/dsl/avltree.h: insertion in order.
use mathlib.Core.List.{append_assoc, append-nil}
use mathlib.Core.Path.{subst}
use davix.Prelude.{
  ℕ, ◌≤◌, ◌≡◌, refl, sym, ap, ◌∙◌, inl, inr, true, false, List, [], ◌∷◌, ◌++◌, ltb, if◌then◌else◌,
  Bool-cases, ltb→ge, arith,
}
use davix.Dsl.AvlTree.{Tree, nil, node, left_of, right_of, Trail, descend, insert_at, insert}
use davix.Dsl.AvlTree.Entries.{entries, before, behind, entries-fixup_above}

module _ {ℓ} {A : Type ℓ} (key : A → ℕ) where
  -- The keys do not go down, from `lo` on.
  abbrev pub IsSorted : ℕ → List A → Type 0
  IsSorted lo [] = Unit
  IsSorted lo (x ∷ xs) = (lo ≤ key x) × IsSorted (key x) xs

  -- A new element comes before the first one with a larger key.
  abbrev pub insert_sorted : A → List A → List A
  insert_sorted new [] = new ∷ []
  insert_sorted new (x ∷ xs) =
      let rest = insert_sorted new xs in if ltb (key new) (key x) then new ∷ x ∷ xs else x ∷ rest

  insert_sorted-left :
      (new x : A) (xs ys : List A)
      → ltb (key new) (key x) ≡ true
      → insert_sorted new (xs ++ x ∷ ys) ≡ insert_sorted new xs ++ x ∷ ys
  insert_sorted-left new x [] ys e = rw e refl
  insert_sorted-left new x (y ∷ xs) ys e = elim (Bool-cases (ltb (key new) (key y))) [
    | inl f ↦ rw f refl
    | inr f ↦ rw f (ap (λ zs. y ∷ zs) (insert_sorted-left new x xs ys e))
  ]

  not_below :
      (new x : A) (from : ℕ) (zs ys : List A)
      → IsSorted from (zs ++ x ∷ ys)
      → ltb (key new) (key x) ≡ false
      → ltb (key new) from ≡ false
  not_below new x from [] ys s e = ground (arith, s.0, e)
  not_below new x from (z ∷ zs) ys s e = ground (arith, s.0, not_below new x (key z) zs ys s.1 e)

  insert_sorted-right :
      (new x : A) (lo : ℕ) (xs ys : List A)
      → IsSorted lo (xs ++ x ∷ ys)
      → ltb (key new) (key x) ≡ false
      → insert_sorted new (xs ++ x ∷ ys) ≡ xs ++ x ∷ insert_sorted new ys
  insert_sorted-right new x lo [] ys h e = rw e refl
  insert_sorted-right new x lo (y ∷ xs) ys h e =
      rw (not_below new x (key y) xs ys h.1 e)
        (ap (λ zs. y ∷ zs) (insert_sorted-right new x (key y) xs ys h.1 e))

  IsSorted-left : (lo : ℕ) (xs ys : List A) → IsSorted lo (xs ++ ys) → IsSorted lo xs
  IsSorted-left lo [] ys h = tt
  IsSorted-left lo (x ∷ xs) ys h = (h.0, IsSorted-left (key x) xs ys h.1)

  IsSorted-right :
      (lo : ℕ) (xs ys : List A) (x : A) → IsSorted lo (xs ++ x ∷ ys) → IsSorted (key x) ys
  IsSorted-right lo [] ys x h = h.1
  IsSorted-right lo (y ∷ xs) ys x h = IsSorted-right (key y) xs ys x h.1

  pub insert_sorted-IsSorted :
      (lo : ℕ) (new : A) (xs : List A)
      → lo ≤ key new
      → IsSorted lo xs
      → IsSorted lo (insert_sorted new xs)
  insert_sorted-IsSorted lo new [] le h = (le, tt)
  insert_sorted-IsSorted lo new (x ∷ xs) le h = elim (Bool-cases (ltb (key new) (key x))) [
    | inl e ↦ rw e (le, (ground (arith, e), h.1))
    | inr e ↦ rw e (h.0, insert_sorted-IsSorted (key x) new xs (ltb→ge (key new) (key x) e) h.1)
  ]

  -- The way down leads to the place of the new element.
  descend-place :
      (new : A) (lo : ℕ) (t : Tree A) (up : Trail A)
      → IsSorted lo (entries t)
      → before (descend key new t up) ++ new ∷ behind (descend key new t up)
        ≡ before up ++ insert_sorted new (entries t) ++ behind up
  unfolding descend
  descend-place new lo nil up h = simp (append_assoc)
  descend-place new lo (node l x k r) up h = elim (Bool-cases (ltb (key new) (key x))) [
    | inl e ↦
        rw (e, insert_sorted-left new x (entries l) (entries r) e)
          (descend-place new lo l (left_of x k r ∷ up)
              (IsSorted-left lo (entries l) (x ∷ entries r) h)
            ∙ simp (append_assoc))
    | inr e ↦
        rw (e, insert_sorted-right new x lo (entries l) (entries r) h e)
          (descend-place new (key x) r (right_of l x k ∷ up)
              (IsSorted-right lo (entries l) (entries r) x h)
            ∙ simp (append_assoc))
  ]

  -- In a tree whose sequence is sorted, `insert` puts the new element before the first one with a larger key, and
  -- the sequence stays sorted.
  pub insert-sorts :
      (new : A) (t : Tree A)
      → IsSorted 0 (entries t)
      → (entries (insert key new t) ≡ insert_sorted new (entries t))
        × IsSorted 0 (entries (insert key new t))
  unfolding insert insert_at
  insert-sorts new t h =
      let place = descend-place new 0 t [] h in
      let same : entries (insert key new t) ≡ insert_sorted new (entries t) =
        entries-fixup_above (node nil new 1 nil) (descend key new t [])
        ∙ append_assoc (before (descend key new t [])) (new ∷ []) (behind (descend key new t []))
        ∙ place
        ∙ append-nil (insert_sorted new (entries t)) in
      (
        same,
        subst (λ xs. IsSorted 0 xs) (sym same)
            (insert_sorted-IsSorted 0 new (entries t) (omega arith) h),
      )
