-- ===== src/Dsl/AvlTree/Shape.antt =====
-- dsl/avlfixup.cc: `fixup` mends the balance after an insertion, although it stops where a height stays.
use davix.Prelude.{
  ℕ, ◌+◌, ◌≤◌, ◌≡◌, refl, ◌⊎◌, inl, inr, true, false, max, [], ◌∷◌, ltb, Bool-cases, ltb→lt, ltb→ge,
  arith,
}
use davix.Dsl.AvlTree.{
  Tree, nil, node, left_of, right_of, Trail, node_height, new_height, update, rotate_left,
  rotate_right, turn_left, turn_right, rebalance, is_settled, plug, fixup_above, descend, insert_at,
  insert,
}

module _ {ℓ} {A : Type ℓ} where
  -- Every node has its height, and the heights of its subtrees differ by at most one.
  abbrev pub IsShaped : Tree A → Type 0
  IsShaped nil = Unit
  IsShaped (node l x h r) =
      IsShaped l
      × IsShaped r
      × (h ≡ new_height l r)
      × (node_height l ≤ node_height r + 1)
      × (node_height r ≤ node_height l + 1)

  -- A subtree that replaces one of height `h`, and is as high or higher by one.
  record Grown (h : ℕ) (t : Tree A) : Type 0 where
    shaped : IsShaped t
    ge : h ≤ node_height t
    le : node_height t ≤ h + 1

  update-IsShaped :
      (l : Tree A) (x : A) (r : Tree A)
      → IsShaped l
      → IsShaped r
      → node_height l ≤ node_height r + 1
      → node_height r ≤ node_height l + 1
      → IsShaped (update l x r)
  update-IsShaped l x r a b c d = (a, b, refl, c, d)

  heavy_left-Grown :
      (l : Tree A) (x : A) (r : Tree A)
      → IsShaped l
      → IsShaped r
      → node_height l ≡ node_height r + 2
      → Grown (node_height r + 2) (rotate_right (turn_left l) x r)
  unfolding turn_left rotate_right rotate_left
  heavy_left-Grown nil x r a b e = absurd (omega (arith, e))
  heavy_left-Grown (node zl z h nil) x r a b e =
      let straight : ltb (node_height zl) 0 ≡ false = ground arith in
      rw straight (record {
        shaped =
            update-IsShaped zl z (update nil x r) a.0
              (update-IsShaped nil x r tt b (omega (arith, a, e)) (omega (arith, a, e)))
              (omega (arith, a, e)) (omega (arith, a, e));
        ge = omega (arith, a, e);
        le = omega (arith, a, e);
      })
  heavy_left-Grown (node zl z h (node wl w k wr)) x r a b e =
      elim (Bool-cases (ltb (node_height zl) k)) [
        | inl f ↦
            let lt = ltb→lt (node_height zl) k f in
            rw f (record {
              shaped =
                  update-IsShaped (update zl z wl) w (update wr x r)
                    (update-IsShaped zl z wl a.0 a.1.0 (omega (arith, a, e, lt))
                      (omega (arith, a, e, lt)))
                    (update-IsShaped wr x r a.1.1 b (omega (arith, a, e, lt))
                      (omega (arith, a, e, lt)))
                    (omega (arith, a, e, lt)) (omega (arith, a, e, lt));
              ge = omega (arith, a, e, lt);
              le = omega (arith, a, e, lt);
            })
        | inr f ↦
            let ge = ltb→ge (node_height zl) k f in
            rw f (record {
              shaped =
                  update-IsShaped zl z (update (node wl w k wr) x r) a.0
                    (update-IsShaped (node wl w k wr) x r a.1 b (omega (arith, a, e, ge))
                      (omega (arith, a, e, ge)))
                    (omega (arith, a, e, ge)) (omega (arith, a, e, ge));
              ge = omega (arith, a, e, ge);
              le = omega (arith, a, e, ge);
            })
      ]

  heavy_right-Grown :
      (l : Tree A) (x : A) (r : Tree A)
      → IsShaped l
      → IsShaped r
      → node_height r ≡ node_height l + 2
      → Grown (node_height l + 2) (rotate_left l x (turn_right r))
  unfolding turn_right rotate_right rotate_left
  heavy_right-Grown l x nil a b e = absurd (omega (arith, e))
  heavy_right-Grown l x (node nil z h zr) a b e =
      let straight : ltb (node_height zr) 0 ≡ false = ground arith in
      rw straight (record {
        shaped =
            update-IsShaped (update l x nil) z zr
              (update-IsShaped l x nil a tt (omega (arith, b, e)) (omega (arith, b, e))) b.1
              (omega (arith, b, e)) (omega (arith, b, e));
        ge = omega (arith, b, e);
        le = omega (arith, b, e);
      })
  heavy_right-Grown l x (node (node wl w k wr) z h zr) a b e =
      elim (Bool-cases (ltb (node_height zr) k)) [
        | inl f ↦
            let lt = ltb→lt (node_height zr) k f in
            rw f (record {
              shaped =
                  update-IsShaped (update l x wl) w (update wr z zr)
                    (update-IsShaped l x wl a b.0.0 (omega (arith, b, e, lt))
                      (omega (arith, b, e, lt)))
                    (update-IsShaped wr z zr b.0.1 b.1 (omega (arith, b, e, lt))
                      (omega (arith, b, e, lt)))
                    (omega (arith, b, e, lt)) (omega (arith, b, e, lt));
              ge = omega (arith, b, e, lt);
              le = omega (arith, b, e, lt);
            })
        | inr f ↦
            let ge = ltb→ge (node_height zr) k f in
            rw f (record {
              shaped =
                  update-IsShaped (update l x (node wl w k wr)) z zr
                    (update-IsShaped l x (node wl w k wr) a b.0 (omega (arith, b, e, ge))
                      (omega (arith, b, e, ge)))
                    b.1 (omega (arith, b, e, ge)) (omega (arith, b, e, ge));
              ge = omega (arith, b, e, ge);
              le = omega (arith, b, e, ge);
            })
      ]

  -- The height of the tree that a round leaves: it is new, or that of the heavy side or one more.
  record IsRound (l r t : Tree A) : Type 0 where
    shaped : IsShaped t
    height :
        (node_height t ≡ new_height l r)
        ⊎ ((max (node_height l) (node_height r) ≤ node_height t)
            × (node_height t ≤ new_height l r)
            × ((node_height l ≡ node_height r + 2) ⊎ (node_height r ≡ node_height l + 2)))

  rebalance-IsRound :
      (l : Tree A) (x : A) (r : Tree A)
      → IsShaped l
      → IsShaped r
      → node_height l ≤ node_height r + 2
      → node_height r ≤ node_height l + 2
      → IsRound l r (rebalance l x r)
  unfolding rebalance
  rebalance-IsRound l x r a b c d = elim (Bool-cases (ltb (node_height r + 1) (node_height l))) [
    | inl e ↦
        let heavy : node_height l ≡ node_height r + 2 =
          omega (arith, c, ltb→lt (node_height r + 1) (node_height l) e) in
        let g = heavy_left-Grown l x r a b heavy in
        rw e (record {
          shaped = g.shaped;
          height = inr (omega (arith, heavy, g.ge), omega (arith, heavy, g.le), inl heavy);
        })
    | inr e ↦ elim (Bool-cases (ltb (node_height l + 1) (node_height r))) [
      | inl f ↦
          let heavy : node_height r ≡ node_height l + 2 =
            omega (arith, d, ltb→lt (node_height l + 1) (node_height r) f) in
          let g = heavy_right-Grown l x r a b heavy in
          rw (e, f)
            (record {
              shaped = g.shaped;
              height = inr (omega (arith, heavy, g.ge), omega (arith, heavy, g.le), inr heavy);
            })
      | inr f ↦
          rw (e, f)
            (record {
              shaped =
                  update-IsShaped l x r a b (ltb→ge (node_height r + 1) (node_height l) e)
                    (ltb→ge (node_height l + 1) (node_height r) f);
              height = inl refl;
            })
    ]
  ]

  -- Above a place, every node has its height when a tree of height `h` stands there.
  abbrev pub Surrounds : ℕ → Trail A → Type 0
  Surrounds h [] = Unit
  Surrounds h (left_of x k r ∷ up) =
      IsShaped r
      × (k ≡ 1 + max h (node_height r))
      × (h ≤ node_height r + 1)
      × (node_height r ≤ h + 1)
      × Surrounds k up
  Surrounds h (right_of l x k ∷ up) =
      IsShaped l
      × (k ≡ 1 + max (node_height l) h)
      × (h ≤ node_height l + 1)
      × (node_height l ≤ h + 1)
      × Surrounds k up

  plug-IsShaped :
      (t : Tree A) (up : Trail A) → IsShaped t → Surrounds (node_height t) up → IsShaped (plug t up)
  unfolding plug
  plug-IsShaped t [] a s = a
  plug-IsShaped t (left_of x k r ∷ up) a s =
      plug-IsShaped (node t x k r) up (a, s.0, s.1, s.2, s.3) s.4
  plug-IsShaped t (right_of l x k ∷ up) a s =
      plug-IsShaped (node l x k t) up (s.0, a, s.1, s.3, s.2) s.4

  -- A node at which the loop returns.
  settled-IsShaped :
      (l : Tree A) (x : A) (k : ℕ) (r : Tree A)
      → IsShaped l
      → IsShaped r
      → is_settled l k r ≡ true
      → IsShaped (node l x k r)
  settled-IsShaped l x k r a b e = (a, b, ground (arith, e), ground (arith, e), ground (arith, e))

  -- `fixup` mends a tree of which one subtree has become higher or lower by one.
  pub fixup_above-IsShaped :
      (h : ℕ) (t : Tree A) (up : Trail A)
      → IsShaped t
      → h ≤ node_height t + 1
      → node_height t ≤ h + 1
      → Surrounds h up
      → IsShaped (fixup_above t up)
  unfolding fixup_above
  fixup_above-IsShaped h t [] a le ge s = a
  fixup_above-IsShaped h t (left_of x k r ∷ up) a le ge s = elim (Bool-cases (is_settled t k r)) [
    | inl e ↦ rw e (plug-IsShaped (node t x k r) up (settled-IsShaped t x k r a s.0 e) s.4)
    | inr e ↦
        let g = rebalance-IsRound t x r a s.0 (omega (arith, ge, s)) (omega (arith, le, s)) in
        rw e (
          fixup_above-IsShaped k (rebalance t x r) up g.shaped
            (omega (arith, le, ge, s.1, s.2, s.3, g.height))
            (omega (arith, le, ge, s.1, s.2, s.3, g.height)) s.4)
  ]
  fixup_above-IsShaped h t (right_of l x k ∷ up) a le ge s = elim (Bool-cases (is_settled l k t)) [
    | inl e ↦ rw e (plug-IsShaped (node l x k t) up (settled-IsShaped l x k t s.0 a e) s.4)
    | inr e ↦
        let g = rebalance-IsRound l x t s.0 a (omega (arith, le, s)) (omega (arith, ge, s)) in
        rw e (
          fixup_above-IsShaped k (rebalance l x t) up g.shaped
            (omega (arith, le, ge, s.1, s.2, s.3, g.height))
            (omega (arith, le, ge, s.1, s.2, s.3, g.height)) s.4)
  ]

  descend-Surrounds :
      (key : A → ℕ) (new : A) (t : Tree A) (up : Trail A)
      → IsShaped t
      → Surrounds (node_height t) up
      → Surrounds 0 (descend key new t up)
  unfolding descend
  descend-Surrounds key new nil up a s = s
  descend-Surrounds key new (node l x k r) up a s = elim (Bool-cases (ltb (key new) (key x))) [
    | inl e ↦ rw e (descend-Surrounds key new l (left_of x k r ∷ up) a.0 (a.1, a.2, a.3, a.4, s))
    | inr e ↦ rw e (descend-Surrounds key new r (right_of l x k ∷ up) a.1 (a.0, a.2, a.4, a.3, s))
  ]

  -- In a balanced tree with right heights, `insert` leaves one, although its fixup returns at the first node whose
  -- height has not changed.
  pub avl-insert-IsShaped :
      (key : A → ℕ) (new : A) (t : Tree A) → IsShaped t → IsShaped (insert key new t)
  unfolding insert insert_at
  avl-insert-IsShaped key new t a =
      fixup_above-IsShaped 0 (node nil new 1 nil) (descend key new t [])
        (tt, tt, refl, omega arith, omega arith) (omega arith) (omega arith)
        (descend-Surrounds key new t [] a tt)
