-- ===== src/Dsl/VmaTree/Unlink.antt =====
-- `remove` against the removal of an entry from the ordered sequence.
use davix.Prelude.{
  ℕ, ◌+◌, ◌-◌, ◌≤◌, ◌≡◌, refl, ap, sym, ◌∙◌, Option, some, List, [], ◌∷◌, ◌++◌, arith, All,
}
use davix.Dsl.VmaTree.{VmaNode, Tree, nil, node, left_of, right_of, Trail}
use davix.Dsl.VmaTree.Modify.{pred_of, set_succ_gap, gap_before}
use davix.Dsl.VmaTree.Remove.{last_node, leftmost, remove}
use davix.Dsl.VmaTree.Entries.{
  Entry, entry, entries, before, after, entries-fixup, entries-fixup_above,
}
use davix.Dsl.VmaTree.Insert.{before-set_succ_gap, gap_before-next_free}
use davix.Dsl.VmaTree.Order.{
  Linked, end_of, next_free, Linked-append_left, Linked-append_right, Linked-append, end_of-before,
  end_of-append,
}
use mathlib.Core.List.{append_assoc, append-nil}

-- The reference: the gap of the first of `ys` reaches down to `lo`.
abbrev pub regap_from : ℕ → List Entry → List Entry
regap_from lo [] = []
regap_from lo (y ∷ ys) = record y { prev_gap = y.first - lo } ∷ ys

pub next_free-last_node :
    (d : Option VmaNode) (t : Tree) → next_free (last_node d t) ≡ end_of (next_free d) (entries t)
unfolding last_node
next_free-last_node d nil = refl
next_free-last_node d (node l n r) =
    next_free-last_node (some n) r ∙ sym (end_of-append (next_free d) (entries l) _)

pub after-append : (up down : Trail) → after (up ++ down) ≡ after up ++ after down
after-append [] down = refl
after-append (left_of n r ∷ up) down =
    ap (λ t. (entry n ∷ entries r) ++ t) (after-append up down)
    ∙ sym (append_assoc (entry n ∷ entries r) (after up) _)
after-append (right_of l n ∷ up) down = after-append up down

pub before-append : (up down : Trail) → before (up ++ down) ≡ before down ++ before up
before-append [] down = sym (append-nil _)
before-append (left_of n r ∷ up) down = before-append up down
before-append (right_of l n ∷ up) down =
    ap (λ t. t ++ (entries l ++ entry n ∷ [])) (before-append up down)
    ∙ append_assoc (before down) _ _

pub before-leftmost :
    (l : Tree) (n : VmaNode) (r : Tree) (up : Trail) → before (leftmost l n r up).2 ≡ before up
unfolding leftmost
before-leftmost nil n r up = refl
before-leftmost (node ll ln lr) n r up = before-leftmost ll ln lr (left_of n r ∷ up)

after-leftmost :
    (l : Tree) (n : VmaNode) (r : Tree) (up : Trail)
    → let (z, zr, inner) = leftmost l n r up in
      entry z ∷ (entries zr ++ after inner) ≡ (entries l ++ entry n ∷ entries r) ++ after up
unfolding leftmost
after-leftmost nil n r up = refl
after-leftmost (node ll ln lr) n r up =
    after-leftmost ll ln lr (left_of n r ∷ up) ∙ simp append_assoc

pub after-set_succ_gap :
    (g : ℕ → ℕ) (lo : ℕ) (up : Trail)
    → All (λ y. g y.first ≡ y.first - lo) (after up)
    → after (set_succ_gap g up) ≡ regap_from lo (after up)
unfolding set_succ_gap
after-set_succ_gap g lo [] a = refl
after-set_succ_gap g lo (left_of n r ∷ up) a =
    ap
      (λ (g : ℕ). record { first = n.first; last = n.last; prev_gap = g } ∷ (entries r ++ after up))
      a.0
after-set_succ_gap g lo (right_of t n ∷ up) a = after-set_succ_gap g lo up a

Linked-regap_from :
    (lo hi : ℕ) (ys : List Entry) → lo ≤ hi → Linked hi ys → Linked lo (regap_from lo ys)
Linked-regap_from lo hi [] le h = tt
Linked-regap_from lo hi (y ∷ ys) le h = (omega arith, h.1, h.2, omega arith, h.4)

gaps_from :
    (lo hi : ℕ) (pred : Option VmaNode) (ys : List Entry)
    → next_free pred ≡ lo
    → lo ≤ hi
    → Linked hi ys
    → All (λ y. gap_before y.first pred ≡ y.first - lo) ys
gaps_from lo hi pred [] e le h = tt
gaps_from lo hi pred (y ∷ ys) e le h = (
  gap_before-next_free y.first pred (omega arith) (omega arith) ∙ ap (λ t. y.first - t) e,
  gaps_from lo (y.last + 1) pred ys e (omega arith) h.4,
)

-- The right subtree and what follows it, seen from its leftmost node.
after-leftmost_whole :
    (l : Tree) (n : VmaNode) (r : Tree) (up : Trail)
    → let (z, zr, inner) = leftmost l n r [] in
      entry z ∷ (entries zr ++ after (inner ++ up)) ≡ entries (node l n r) ++ after up
after-leftmost_whole l n r up =
    let (z, zr, inner) = leftmost l n r [] in
    rw (after-append inner up) (
      rw (← append_assoc (entries zr) (after inner) (after up))
        (ap (λ t. t ++ after up) (after-leftmost l n r [] ∙ append-nil _)))

pub before-leftmost_whole :
    (l : Tree) (n : VmaNode) (r : Tree) (up : Trail)
    → before ((leftmost l n r []).2 ++ up) ≡ before up
before-leftmost_whole l n r up =
    before-append (leftmost l n r []).2 up
    ∙ ap (λ t. before up ++ t) (before-leftmost l n r [])
    ∙ append-nil _

-- The leftmost entry, with its new gap, in front of what follows it.
pub leftmost_regap :
    (lo : ℕ) (pred : Option VmaNode) (l : Tree) (n : VmaNode) (r : Tree) (up : Trail)
    → All (λ y. gap_before y.first pred ≡ y.first - lo) (entries (node l n r) ++ after up)
    → let (z, zr, inner) = leftmost l n r [] in
      entry (record z { prev_gap = gap_before z.first pred }) ∷ (entries zr ++ after (inner ++ up))
      ≡ regap_from lo (entries (node l n r) ++ after up)
leftmost_regap lo pred l n r up a =
    let (z, zr, inner) = leftmost l n r [] in
    let e = after-leftmost_whole l n r up in
    let head = rw (← e) at a in
    ap
      (λ (g : ℕ).
        record { first = z.first; last = z.last; prev_gap = g }
        ∷ (entries zr ++ after (inner ++ up)))
      head.0
    ∙ ap (regap_from lo) e

remove_split :
    (l : Tree) (n : VmaNode) (r : Tree) (up : Trail) (lo : ℕ)
    → All
        (λ y. gap_before y.first (last_node (pred_of up) l) ≡ y.first - lo)
        (entries r ++ after up)
    → entries (remove l n r up) ≡ before up ++ (entries l ++ regap_from lo (entries r ++ after up))
unfolding remove last_node
remove_split l n nil up lo a =
    let gap = λ (first : ℕ). gap_before first (last_node (pred_of up) l) in
    entries-fixup l (set_succ_gap gap up)
    ∙ rw (before-set_succ_gap gap up) (rw (after-set_succ_gap gap lo up a))
remove_split nil n (node rl rn rr) up lo a =
    let (z, zr, inner) = leftmost rl rn rr [] in
    entries-fixup _ (inner ++ up)
    ∙ rw (before-leftmost_whole rl rn rr up)
        (ap (λ t. before up ++ t) (leftmost_regap lo (last_node (pred_of up) nil) rl rn rr up a))
remove_split (node ll ln lr) n (node rl rn rr) up lo a =
    let (z, zr, inner) = leftmost rl rn rr [] in
    let l = node ll ln lr in
    let z' = record z { prev_gap = gap_before z.first (last_node (pred_of up) l) } in
    entries-fixup_above zr (inner ++ right_of l z' ∷ up)
    ∙ rw (before-leftmost_whole rl rn rr (right_of l z' ∷ up)) (
        rw (after-append inner (right_of l z' ∷ up) ∙ sym (after-append inner up)) (
          append_assoc (before up) (entries l ++ entry z' ∷ []) _
          ∙ ap (λ t. before up ++ t)
              (append_assoc (entries l) (entry z' ∷ []) _
                ∙ ap (λ t. entries l ++ t)
                    (leftmost_regap lo (last_node (pred_of up) l) rl rn rr up a))))

module _ (l : Tree) (n : VmaNode) (r : Tree) (up : Trail)
    (linked : Linked 0 (before up ++ ((entries l ++ entry n ∷ entries r) ++ after up))) where
  abbrev lower : List Entry
  lower = before up ++ entries l

  abbrev upper : List Entry
  upper = entries r ++ after up

  whole : before up ++ ((entries l ++ entry n ∷ entries r) ++ after up) ≡ lower ++ (entry n ∷ upper)
  whole = simp append_assoc

  from_node : Linked (end_of 0 lower) (entry n ∷ upper)
  from_node = Linked-append_right 0 lower _ (rw whole at linked)

  pred_lower : next_free (last_node (pred_of up) l) ≡ end_of 0 lower
  pred_lower =
      next_free-last_node (pred_of up) l
      ∙ ap (λ t. end_of t (entries l)) (sym (end_of-before up))
      ∙ sym (end_of-append 0 (before up) (entries l))

  -- For a node at a place in a tree whose sequence is in order: the sequence of the tree after
  -- `remove` is the sequence without the node, in which the gap of the next entry now counts from the
  -- end of the previous one.
  pub remove_refines : entries (remove l n r up) ≡ lower ++ regap_from (end_of 0 lower) upper
  remove_refines =
      remove_split l n r up (end_of 0 lower) (
        gaps_from (end_of 0 lower) (n.last + 1) (last_node (pred_of up) l) upper pred_lower
          (omega (arith, from_node)) from_node.4)
      ∙ sym (append_assoc (before up) (entries l) _)

  -- For a node at a place in a tree whose sequence is in order: `remove` keeps the sequence in order,
  -- without overlaps and with every gap right.
  pub remove-Linked : Linked 0 (entries (remove l n r up))
  remove-Linked = rw remove_refines (
      Linked-append 0 lower _ (Linked-append_left 0 lower _ (rw whole at linked)) (
        Linked-regap_from (end_of 0 lower) (n.last + 1) upper (omega (arith, from_node))
          from_node.4))
