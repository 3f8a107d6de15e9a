-- ===== src/Dsl/VmaTree/Order.antt =====
-- The order of a sequence of entries and what it says of the place that a trail leads to.
use davix.Prelude.{
  ℕ, ◌+◌, ◌≤◌, ◌<◌, ◌≡◌, refl, Option, none, some, List, [], ◌∷◌, ◌++◌, arith, ltb, All, Bool-cases,
  inl, inr,
}
use davix.Prelude.Words.{IsWord}
use davix.Dsl.VmaTree.{VmaNode, Tree, nil, node, left_of, right_of, Trail}
use davix.Dsl.VmaTree.Modify.{pred_of, descend}
use davix.Dsl.VmaTree.Entries.{Entry, entries, before, after}
use mathlib.Core.List.{append_assoc}

-- `xs` lies at or above `lo`, in order and without overlap, and each `prev_gap` is the number of
-- free addresses before the entry, counted from `lo`.
abbrev pub Linked : ℕ → List Entry → Type 0
Linked lo [] = Unit
Linked lo (x ∷ xs) =
    (lo ≤ x.first)
    × (x.first ≤ x.last)
    × IsWord x.last
    × (x.prev_gap + lo ≡ x.first)
    × Linked (x.last + 1) xs

-- The least address above `xs`.
abbrev pub end_of : ℕ → List Entry → ℕ
end_of lo [] = lo
end_of lo (x ∷ xs) = end_of (x.last + 1) xs

pub end_of-append : (lo : ℕ) (xs ys : List Entry) → end_of lo (xs ++ ys) ≡ end_of (end_of lo xs) ys
end_of-append lo [] ys = refl
end_of-append lo (x ∷ xs) ys = end_of-append (x.last + 1) xs ys

pub Linked-append_left : (lo : ℕ) (xs ys : List Entry) → Linked lo (xs ++ ys) → Linked lo xs
Linked-append_left lo [] ys h = tt
Linked-append_left lo (x ∷ xs) ys h =
    (h.0, h.1, h.2, h.3, Linked-append_left (x.last + 1) xs ys h.4)

pub Linked-append_right :
    (lo : ℕ) (xs ys : List Entry) → Linked lo (xs ++ ys) → Linked (end_of lo xs) ys
Linked-append_right lo [] ys h = h
Linked-append_right lo (x ∷ xs) ys h = Linked-append_right (x.last + 1) xs ys h.4

pub Linked-append :
    (lo : ℕ) (xs ys : List Entry) → Linked lo xs → Linked (end_of lo xs) ys → Linked lo (xs ++ ys)
Linked-append lo [] ys h k = k
Linked-append lo (x ∷ xs) ys h k = (h.0, h.1, h.2, h.3, Linked-append (x.last + 1) xs ys h.4 k)

pub Linked-ge : (lo b : ℕ) (xs : List Entry) → b ≤ lo → Linked lo xs → All (λ x. b ≤ x.first) xs
Linked-ge lo b [] le h = tt
Linked-ge lo b (x ∷ xs) le h = (omega arith, Linked-ge (x.last + 1) b xs (omega arith) h.4)

pub le-end_of : (lo : ℕ) (xs : List Entry) → Linked lo xs → lo ≤ end_of lo xs
le-end_of lo [] h = omega arith
le-end_of lo (x ∷ xs) h = omega (arith, le-end_of (x.last + 1) xs h.4)

pub Linked-lt_end : (lo : ℕ) (xs : List Entry) → Linked lo xs → All (λ x. x.last < end_of lo xs) xs
Linked-lt_end lo [] h = tt
Linked-lt_end lo (x ∷ xs) h =
    (omega (arith, le-end_of (x.last + 1) xs h.4), Linked-lt_end (x.last + 1) xs h.4)

pub Linked-first_lt_end :
    (lo : ℕ) (xs : List Entry) → Linked lo xs → All (λ x. x.first < end_of lo xs) xs
Linked-first_lt_end lo [] h = tt
Linked-first_lt_end lo (x ∷ xs) h =
    (omega (arith, le-end_of (x.last + 1) xs h.4), Linked-first_lt_end (x.last + 1) xs h.4)

-- The predecessor of a place ends where `before` ends.
abbrev pub next_free : Option VmaNode → ℕ
next_free none = 0
next_free (some n) = n.last + 1

pub end_of-before : (up : Trail) → end_of 0 (before up) ≡ next_free (pred_of up)
unfolding pred_of
end_of-before [] = refl
end_of-before (left_of n r ∷ up) = end_of-before up
end_of-before (right_of l n ∷ up) = rw (end_of-append 0 (before up)) (rw end_of-append)

-- `descend` splits the sequence without changing it.
pub before-descend :
    (f : ℕ) (t : Tree) (up : Trail)
    → before (descend f t up) ++ after (descend f t up) ≡ before up ++ (entries t ++ after up)
unfolding descend
before-descend f nil up = refl
before-descend f (node l n r) up = elim (Bool-cases (ltb f n.first)) [
  | inl e ↦ rw e (rw (before-descend f l (left_of n r ∷ up)) (simp append_assoc))
  | inr e ↦ rw e (rw (before-descend f r (right_of l n ∷ up)) (simp append_assoc))
]
