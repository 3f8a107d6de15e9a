-- ===== src/Dsl/VmaTree/Insert.antt =====
-- `insert` against insertion into the ordered sequence.
use davix.Prelude.{
  ℕ, suc, ◌+◌, ◌-◌, ◌≤◌, ◌<◌, ◌≡◌, refl, ap, sym, ◌∙◌, ◌⊎◌, Option, none, some, List, [], ◌∷◌, ◌++◌,
  arith, ltb, if◌then◌else◌, All, All-append, All-append_left, All-append_right, All-imp,
  Bool-cases, inl, inr, ltb→lt, ltb→ge, lt→ltb, ge→ltb,
}
use davix.Prelude.Words.{IsWord, sub64}
use davix.Dsl.VmaTree.{VmaNode, Tree, nil, node, left_of, right_of, Trail}
use davix.Dsl.VmaTree.Modify.{pred_of, descend, set_succ_gap, gap_before, insert}
use davix.Dsl.VmaTree.Entries.{Entry, entry, entries, before, after, entries-fixup}
use davix.Dsl.VmaTree.Order.{
  Linked, end_of, next_free, Linked-append_left, Linked-append_right, Linked-append, Linked-ge,
  Linked-first_lt_end, end_of-before, before-descend,
}
use mathlib.Core.List.{append-nil}

-- The reference: in front of the first entry that begins later, whose gap shrinks.
unfoldable pub link_in : ℕ → ℕ → ℕ → List Entry → List Entry
link_in first last lo [] = record { first = first; last = last; prev_gap = first - lo } ∷ []
link_in first last lo (x ∷ xs) =
    if ltb first x.first
    then record { first = first; last = last; prev_gap = first - lo }
      ∷ record x { prev_gap = x.first - last - 1 }
      ∷ xs
    else x ∷ link_in first last (x.last + 1) xs

-- The range `[first; last]` is not empty, ends at a word, and meets no entry.
pub record Fits (first last : ℕ) (xs : List Entry) : Type 0 where
  pub ordered : first ≤ last
  pub is_word : IsWord last
  pub apart : All (λ x. (x.last < first) ⊎ (last < x.first)) xs

abbrev regap : ℕ → List Entry → List Entry
regap last [] = []
regap last (y ∷ ys) = record y { prev_gap = y.first - last - 1 } ∷ ys

link_in-split :
    (f l lo : ℕ) (xs ys : List Entry)
    → All (λ x. x.first ≤ f) xs
    → All (λ y. f < y.first) ys
    → link_in f l lo (xs ++ ys)
      ≡ xs ++ (record { first = f; last = l; prev_gap = f - end_of lo xs } ∷ regap l ys)
unfolding link_in
link_in-split f l lo [] [] a b = refl
link_in-split f l lo [] (y ∷ ys) a b = rw (lt→ltb f y.first b.0)
link_in-split f l lo (x ∷ xs) ys a b =
    rw (ge→ltb f x.first a.0) (ap (λ t. x ∷ t) (link_in-split f l (x.last + 1) xs ys a.1 b))

module _ (f : ℕ) where
  descend-before :
      (lo : ℕ) (t : Tree) (up : Trail)
      → Linked lo (entries t)
      → All (λ x. x.first ≤ f) (before up)
      → All (λ x. x.first ≤ f) (before (descend f t up))
  unfolding descend
  descend-before lo nil up h a = a
  descend-before lo (node l n r) up h a = elim (Bool-cases (ltb f n.first)) [
    | inl e ↦
        rw e (descend-before lo l (left_of n r ∷ up) (Linked-append_left lo (entries l) _ h) a)
    | inr e ↦
        let right = Linked-append_right lo (entries l) _ h in
        let below = ltb→ge _ _ e in
        rw e (
          descend-before (n.last + 1) r (right_of l n ∷ up) right.4 (
            All-append _ (before up) _ a (
              All-append _ (entries l) _
                (All-imp (λ x p. omega arith) (entries l)
                  (Linked-first_lt_end lo (entries l) (Linked-append_left lo (entries l) _ h)))
                (below, tt))))
  ]

  descend-after :
      (lo : ℕ) (t : Tree) (up : Trail)
      → Linked lo (entries t)
      → All (λ x. f < x.first) (after up)
      → All (λ x. f < x.first) (after (descend f t up))
  unfolding descend
  descend-after lo nil up h a = a
  descend-after lo (node l n r) up h a = elim (Bool-cases (ltb f n.first)) [
    | inl e ↦
        let right = Linked-append_right lo (entries l) _ h in
        let above = ltb→lt _ _ e in
        rw e (
          descend-after lo l (left_of n r ∷ up) (Linked-append_left lo (entries l) _ h) (
            All-append _ (entry n ∷ entries r) _
              (above, Linked-ge (n.last + 1) (suc f) (entries r) (omega arith) right.4) a))
    | inr e ↦
        let right = Linked-append_right lo (entries l) _ h in
        rw e (descend-after (n.last + 1) r (right_of l n ∷ up) right.4 a)
  ]

pub before-set_succ_gap : (g : ℕ → ℕ) (up : Trail) → before (set_succ_gap g up) ≡ before up
unfolding set_succ_gap
before-set_succ_gap g [] = refl
before-set_succ_gap g (left_of n r ∷ up) = refl
before-set_succ_gap g (right_of l n ∷ up) =
    ap (λ t. t ++ (entries l ++ entry n ∷ [])) (before-set_succ_gap g up)

sub64_gap : (a b : ℕ) → a < b → IsWord b → sub64 (sub64 b a) 1 ≡ b - a - 1
sub64_gap a b h w = omega arith

after-set_succ_gap :
    (l : ℕ) (up : Trail)
    → All (λ y. (l < y.first) × IsWord y.first) (after up)
    → after (set_succ_gap (λ first. sub64 (sub64 first l) 1) up) ≡ regap l (after up)
unfolding set_succ_gap
after-set_succ_gap l [] a = refl
after-set_succ_gap l (left_of n r ∷ up) a =
    ap
      (λ (g : ℕ). record { first = n.first; last = n.last; prev_gap = g } ∷ (entries r ++ after up))
      (sub64_gap l n.first a.0.0 a.0.1)
after-set_succ_gap l (right_of t n ∷ up) a = after-set_succ_gap l up a

pub gap_before-next_free :
    (f : ℕ) (pred : Option VmaNode)
    → next_free pred ≤ f
    → IsWord f
    → gap_before f pred ≡ f - next_free pred
unfolding gap_before
gap_before-next_free f none h w = omega arith
gap_before-next_free f (some p) h w = sub64_gap p.last f (omega arith) w ∙ omega arith

-- The part of an ordered sequence that begins at or below `f` ends below it if the range fits.
end_of-le :
    (lo f l : ℕ) (xs : List Entry)
    → lo ≤ f
    → f ≤ l
    → All (λ x. (x.last < f) ⊎ (l < x.first)) xs
    → All (λ x. x.first ≤ f) xs
    → end_of lo xs ≤ f
end_of-le lo f l [] h le a b = h
end_of-le lo f l (x ∷ xs) h le a b = end_of-le (x.last + 1) f l xs (grind arith) le a.1 b.1

after-above :
    (lo f l : ℕ) (ys : List Entry)
    → Linked lo ys
    → All (λ x. (x.last < f) ⊎ (l < x.first)) ys
    → All (λ y. f < y.first) ys
    → All (λ y. (l < y.first) × IsWord y.first) ys
after-above lo f l [] h a b = tt
after-above lo f l (y ∷ ys) h a b =
    ((grind arith, omega arith), after-above (y.last + 1) f l ys h.4 a.1 b.1)

Linked-regap :
    (lo l : ℕ) (ys : List Entry)
    → Linked lo ys
    → All (λ y. (l < y.first) × IsWord y.first) ys
    → Linked (l + 1) (regap l ys)
Linked-regap lo l [] h a = tt
Linked-regap lo l (y ∷ ys) h a = (omega arith, h.1, h.2, omega arith, h.4)

-- What the place that `descend` finds looks like, for a range that fits.
module _ (n : VmaNode) (t : Tree) (linked : Linked 0 (entries t))
    (fits : Fits n.first n.last (entries t)) where
  place : Trail
  place = descend n.first t []

  split : before place ++ after place ≡ entries t
  unfolding place
  split = before-descend n.first t [] ∙ append-nil (entries t)

  both : Linked 0 (before place ++ after place)
  both = rw split linked

  below : All (λ x. x.first ≤ n.first) (before place)
  unfolding place
  below = descend-before n.first 0 t [] linked tt

  above : All (λ y. (n.last < y.first) × IsWord y.first) (after place)
  unfolding place
  above =
      after-above (end_of 0 (before place)) n.first n.last (after place)
        (Linked-append_right 0 (before place) _ both)
        (All-append_right _ (before place) (after place) (rw split fits.apart))
        (descend-after n.first 0 t [] linked tt)

  room : end_of 0 (before place) ≤ n.first
  room =
      end_of-le 0 n.first n.last (before place) (omega arith) fits.ordered
        (All-append_left _ (before place) (after place) (rw split fits.apart)) below

  new_entry : Entry
  new_entry = record {
    first = n.first;
    last = n.last;
    prev_gap = n.first - end_of 0 (before place);
  }

  gap : gap_before n.first (pred_of place) ≡ n.first - end_of 0 (before place)
  gap =
      gap_before-next_free n.first (pred_of place) (rw (end_of-before place) at room)
        (omega (arith, fits.ordered, fits.is_word))
      ∙ ap (λ e. n.first - e) (sym (end_of-before place))

  entries-insert_split :
      entries (insert n t) ≡ before place ++ (new_entry ∷ regap n.last (after place))
  unfolding insert place new_entry
  entries-insert_split =
      entries-fixup _ (set_succ_gap (λ first. sub64 (sub64 first n.last) 1) place)
      ∙ rw (before-set_succ_gap _ place) (
          rw (after-set_succ_gap n.last place above) (
            ap
              (λ (g : ℕ).
                before place
                ++ (record { first = n.first; last = n.last; prev_gap = g }
                    ∷ regap n.last (after place)))
              gap))

  -- For a tree whose sequence is in order and a node whose range fits: `insert` keeps the sequence in
  -- order, without overlaps and with every gap right.
  pub insert-Linked : Linked 0 (entries (insert n t))
  unfolding new_entry
  insert-Linked = rw entries-insert_split (
      Linked-append 0 (before place) _ (Linked-append_left 0 (before place) _ both) (
        room,
        fits.ordered,
        fits.is_word,
        omega (arith, room),
        Linked-regap _ n.last (after place) (Linked-append_right 0 (before place) _ both) above,
      ))

  -- For a tree whose sequence is in order and a node whose range fits: the sequence of the tree after
  -- `insert` is the sequence before it with the new range put in front of the first entry that begins
  -- later, the gaps of both counted anew.
  pub insert_refines : entries (insert n t) ≡ link_in n.first n.last 0 (entries t)
  unfolding new_entry
  insert_refines =
      entries-insert_split
      ∙ sym (
          link_in-split n.first n.last 0 (before place) (after place) below
            (All-imp (λ y p. omega arith) (after place) above))
      ∙ ap (link_in n.first n.last 0) split
