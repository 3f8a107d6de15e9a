-- ===== src/Dsl/VmaTree/Undo.antt =====
-- `remove` undoes `insert`.
use mathlib.Core.Path.{subst}
use mathlib.Core.List.{append_assoc, append-nil}
use davix.Prelude.{
  ℕ, ◌+◌, ◌-◌, ◌≤◌, ◌<◌, ◌≡◌, ◌≢◌, refl, ap, sym, ◌∙◌, ◌⊎◌, inl, inr, some, List, [], ◌∷◌, ◌++◌,
  arith, ltb, ◌==◌, All, All-imp, Bool-cases, ltb→lt, ltb→ge, ==→eq, ==→ne,
}
use davix.Dsl.VmaTree.{VmaNode, Tree, nil, node, left_of, right_of, Trail}
use davix.Dsl.VmaTree.Modify.{insert}
use davix.Dsl.VmaTree.Locate.{locate, remove_node}
use davix.Dsl.VmaTree.Entries.{Entry, entry, entries, before, after}
use davix.Dsl.VmaTree.Order.{
  Linked, end_of, Linked-append_left, Linked-append_right, Linked-ge, Linked-first_lt_end,
}
use davix.Dsl.VmaTree.Insert.{link_in, Fits, insert_refines, insert-Linked}
use davix.Dsl.VmaTree.Unlink.{regap_from, remove_refines}

-- Some entry begins at `first`.
abbrev HasFirst : ℕ → List Entry → Type 0
HasFirst first [] = ⊥
HasFirst first (x ∷ xs) = (x.first ≡ first) ⊎ HasFirst first xs

HasFirst-link_in : (f l lo : ℕ) (xs : List Entry) → HasFirst f (link_in f l lo xs)
unfolding link_in
HasFirst-link_in f l lo [] = inl refl
HasFirst-link_in f l lo (x ∷ xs) = elim (Bool-cases (ltb f x.first)) [
  | inl e ↦ rw e (inl refl)
  | inr e ↦ rw e (inr (HasFirst-link_in f l (x.last + 1) xs))
]

not_in : (f : ℕ) (xs : List Entry) → All (λ x. x.first ≢ f) xs → HasFirst f xs → ⊥
not_in f [] a h = h
not_in f (x ∷ xs) a h = elim h [ inl e ↦ a.0 e | inr g ↦ not_in f xs a.1 g ]

split_first : (f : ℕ) (xs ys : List Entry) → HasFirst f (xs ++ ys) → HasFirst f xs ⊎ HasFirst f ys
split_first f [] ys h = inr h
split_first f (x ∷ xs) ys h = elim h [
  | inl e ↦ inl (inl e)
  | inr g ↦ elim (split_first f xs ys g) [ inl a ↦ inl (inr a) | inr b ↦ inr b ]
]

-- What `locate` finds in a tree that has the node: it, with all else around it.
record Located (f : ℕ) (t : Tree) (up : Trail) : Type 0 where
  left : Tree
  found : VmaNode
  right : Tree
  above : Trail
  same : locate f t up ≡ some (left, found, right, above)
  first : found.first ≡ f
  around :
      before above ++ ((entries left ++ entry found ∷ entries right) ++ after above)
      ≡ before up ++ (entries t ++ after up)

locate-Located :
    (f lo : ℕ) (t : Tree) (up : Trail)
    → Linked lo (entries t)
    → HasFirst f (entries t)
    → Located f t up
unfolding locate
locate-Located f lo nil up h m = absurd m
locate-Located f lo (node l n r) up h m =
    let left = Linked-append_left lo (entries l) _ h in
    let right = Linked-append_right lo (entries l) _ h in
    elim (Bool-cases (f == n.first)) [
      | inl e ↦ record {
        left = l;
        found = n;
        right = r;
        above = up;
        same = rw e refl;
        first = sym (==→eq f n.first e);
        around = refl;
      }
      | inr e ↦ elim (Bool-cases (ltb f n.first)) [
        | inl g ↦
            let there : HasFirst f (entries l) = elim (split_first f (entries l) _ m) [
              | inl a ↦ a
              | inr b ↦ absurd (
                  not_in f (entry n ∷ entries r)
                    (
                      omega (arith, ltb→lt f n.first g),
                      All-imp (λ x p. omega (arith, ltb→lt f n.first g, p)) (entries r)
                          (Linked-ge (n.last + 1) n.first (entries r) (omega (arith, right))
                            right.4),
                    )
                    b)
            ] in
            let d = locate-Located f lo l (left_of n r ∷ up) left there in
            record {
              left = d.left;
              found = d.found;
              right = d.right;
              above = d.above;
              same = rw (e, g) d.same;
              first = d.first;
              around = d.around ∙ simp append_assoc;
            }
        | inr g ↦
            let there : HasFirst f (entries r) = elim (split_first f (entries l) _ m) [
              | inl a ↦ absurd (
                  not_in f (entries l)
                    (All-imp (λ x p. omega (arith, ltb→ge f n.first g, p, right)) (entries l)
                      (Linked-first_lt_end lo (entries l) left))
                    a)
              | inr b ↦ elim b [ inl c ↦ absurd (==→ne f n.first e (sym c)) | inr c ↦ c ]
            ] in
            let d = locate-Located f (n.last + 1) r (right_of l n ∷ up) right.4 there in
            record {
              left = d.left;
              found = d.found;
              right = d.right;
              above = d.above;
              same = rw (e, g) d.same;
              first = d.first;
              around = d.around ∙ simp append_assoc;
            }
      ]
    ]

not_empty : (ys : List Entry) (e : Entry) (upper : List Entry) → ys ++ e ∷ upper ≡ [] → ⊥
not_empty [] e upper h = cc
not_empty (y ∷ ys) e upper h = cc

HasFirst-middle :
    (f : ℕ) (ys : List Entry) (e : Entry) (upper : List Entry)
    → e.first ≡ f
    → HasFirst f (ys ++ e ∷ upper)
HasFirst-middle f [] e upper h = inl h
HasFirst-middle f (y ∷ ys) e upper h = inr (HasFirst-middle f ys e upper h)

abbrev fresh : ℕ → ℕ → ℕ → Entry
fresh f l lo = record { first = f; last = l; prev_gap = f - lo }

abbrev pushed : ℕ → Entry → Entry
pushed l x = record x { prev_gap = x.first - l - 1 }

pulled :
    (lo : ℕ) (x : Entry) (xs : List Entry)
    → x.first - lo ≡ x.prev_gap
    → ◌≡◌ {A = List Entry}
        (record { first = x.first; last = x.last; prev_gap = x.first - lo } ∷ xs)
        (x ∷ xs)
pulled lo x xs h = ap (λ (g : ℕ). record { first = x.first; last = x.last; prev_gap = g } ∷ xs) h

-- The entry that `link_in` has put in taken out again, and the gap of the next one counted anew.
unlink-link_in :
    (f l lo : ℕ) (xs lower upper : List Entry) (e : Entry)
    → Linked lo xs
    → f ≤ l
    → All (λ x. (x.last < f) ⊎ (l < x.first)) xs
    → e.first ≡ f
    → lower ++ e ∷ upper ≡ link_in f l lo xs
    → lower ++ regap_from (end_of lo lower) upper ≡ xs
unfolding link_in
unlink-link_in f l lo [] [] upper e h ord a first same = let tail : upper ≡ [] = cc in rw tail refl
unlink-link_in f l lo [] (y ∷ ys) upper e h ord a first same =
    let tail : ys ++ e ∷ upper ≡ [] = cc in absurd (not_empty ys e upper tail)
unlink-link_in f l lo (x ∷ xs) [] upper e h ord a first same = elim (Bool-cases (ltb f x.first)) [
  | inl g ↦
      let same' : e ∷ upper ≡ fresh f l lo ∷ pushed l x ∷ xs = same ∙ rw g refl in
      let tail : upper ≡ pushed l x ∷ xs = cc in rw tail (pulled lo x xs (omega (arith, h)))
  | inr g ↦
      let same' : e ∷ upper ≡ x ∷ link_in f l (x.last + 1) xs = same ∙ rw g refl in
      let head : e ≡ x = cc in absurd (omega (arith, ap (λ t. t.first) head, a, h, ord, first))
]
unlink-link_in f l lo (x ∷ xs) (y ∷ ys) upper e h ord a first same =
    elim (Bool-cases (ltb f x.first)) [
      | inl g ↦
          let same' : y ∷ (ys ++ e ∷ upper) ≡ fresh f l lo ∷ pushed l x ∷ xs = same ∙ rw g refl in
          let tail : ys ++ e ∷ upper ≡ pushed l x ∷ xs = cc in
          absurd (
            not_in f (pushed l x ∷ xs)
              (
                omega (arith, ltb→lt f x.first g),
                All-imp (λ z p. omega (arith, ltb→lt f x.first g, p)) xs
                    (Linked-ge (x.last + 1) x.first xs (omega (arith, h)) h.4),
              )
              (subst (λ zs. HasFirst f zs) tail (HasFirst-middle f ys e upper first)))
      | inr g ↦
          let same' : y ∷ (ys ++ e ∷ upper) ≡ x ∷ link_in f l (x.last + 1) xs = same ∙ rw g refl in
          let head : x ≡ y = cc in
          let tail : ys ++ e ∷ upper ≡ link_in f l (x.last + 1) xs = cc in
          subst (λ z. z ∷ (ys ++ regap_from (end_of (z.last + 1) ys) upper) ≡ x ∷ xs) head
            (ap (λ t. x ∷ t) (unlink-link_in f l (x.last + 1) xs ys upper e h.4 ord a.1 first tail))
    ]

-- For a tree whose sequence is in order and a node whose range fits: the sequence of the tree after
-- `insert` of the node and `remove` of it is the one before.
pub remove_node-insert :
    (n : VmaNode) (t : Tree)
    → Linked 0 (entries t)
    → Fits n.first n.last (entries t)
    → entries (remove_node n.first (insert n t)) ≡ entries t
unfolding remove_node
remove_node-insert n t h fits =
    let refines = insert_refines n t h fits in
    let linked = insert-Linked n t h fits in
    let d = locate-Located n.first 0 (insert n t) [] linked (
      subst (λ xs. HasFirst n.first xs) (sym refines)
        (HasFirst-link_in n.first n.last 0 (entries t))) in
    let around = d.around ∙ append-nil (entries (insert n t)) in
    let middle : (before d.above ++ entries d.left)
          ++ entry d.found ∷ (entries d.right ++ after d.above)
        ≡ before d.above ++ ((entries d.left ++ entry d.found ∷ entries d.right) ++ after d.above) =
      simp append_assoc in
    rw d.same (
      remove_refines d.left d.found d.right d.above (subst (λ xs. Linked 0 xs) (sym around) linked)
      ∙ unlink-link_in n.first n.last 0 (entries t) _ _ (entry d.found) h fits.ordered fits.apart
          d.first (middle ∙ around ∙ refines))
