-- ===== src/Dsl/VmaTree/Hole.antt =====
-- What a search accepts: an aligned block within the limits that meets no entry; and that whatever
-- `find_free_bottomup` returns is one.
use mathlib.Core.Path.{subst}
use davix.Prelude.{
  ℕ, ◌+◌, ◌%◌, ◌^◌, ◌≤◌, ◌<◌, ◌≡◌, refl, ◌⊎◌, inl, inr, true, false, ◌&&◌, Option, none, some, List,
  [], ◌∷◌, arith, max, ltb, if◌then◌else◌, All, All-append, All-imp, Bool,
}
use davix.Prelude.Words.{word_mod, IsWord}
use davix.Dsl.Align.{align_up}
use davix.Dsl.Align.Laws.{align_up-mod, align_up-IsWord}
use davix.Dsl.VmaTree.{VmaNode, Tree, nil, node}
use davix.Dsl.VmaTree.Remove.{last_node}
use davix.Dsl.VmaTree.Entries.{Entry, entry, entries}
use davix.Dsl.VmaTree.Order.{
  Linked, end_of, next_free, Linked-append_left, Linked-append_right, Linked-ge, Linked-lt_end,
  le-end_of, end_of-append,
}
use davix.Dsl.VmaTree.Unlink.{next_free-last_node}
use davix.Dsl.VmaTree.Find.{
  Outcome, found, fail, go_up, Request, look_at_gap, look_at_rightmost, gap_start_after,
  visit_bottomup, find_free_bottomup, finish_bottomup, is_hopeless, ends_at_max, is_node, otherwise,
}

-- No address of the block `[a; a + size)` belongs to an entry.
abbrev pub IsFree : ℕ → ℕ → List Entry → Type 0
IsFree size a xs = All (λ x. (x.last < a) ⊎ (a + size ≤ x.first)) xs

-- What a caller asks for.
pub record Suits (q : Request) (xs : List Entry) (a : ℕ) : Type 0 where
  pub aligned : a % q.align ≡ 0
  pub ge_min : q.min_addr ≤ a
  pub le_max : a + q.size ≤ q.max_addr + 1
  pub free : IsFree q.size a xs

-- A block between two addresses that meets the rest of the request.
pub record Between (q : Request) (lo hi a : ℕ) : Type 0 where
  pub aligned : a % q.align ≡ 0
  pub ge_min : q.min_addr ≤ a
  pub le_max : a + q.size ≤ q.max_addr + 1
  pub above : lo ≤ a
  pub below : a + q.size ≤ hi

pub gap_start-next_free :
    (prev : Option VmaNode) → IsWord (next_free prev) → gap_start_after prev ≡ next_free prev
unfolding gap_start_after
gap_start-next_free none h = refl
gap_start-next_free (some p) h = omega arith

pub otherwise-found :
    (x y : Outcome) {a : ℕ}
    → otherwise x y ≡ found a
    → (x ≡ found a) ⊎ ((x ≡ go_up) × (y ≡ found a))
otherwise-found (found b) y h = inl h
otherwise-found fail y h = cc
otherwise-found go_up y h = inr (refl, h)

pub guarded-found :
    (b : Bool) (x : Outcome) {a : ℕ} → (if b then x else go_up) ≡ found a → x ≡ found a
guarded-found true x h = h
guarded-found false x h = cc

pub unless-found :
    (b : Bool) (x : Outcome) {a : ℕ} → (if b then go_up else x) ≡ found a → x ≡ found a
unless-found true x h = cc
unless-found false x h = h

pub end_of-le_word :
    (lo : ℕ) (xs : List Entry) → lo ≤ word_mod → Linked lo xs → end_of lo xs ≤ word_mod
end_of-le_word lo [] le h = le
end_of-le_word lo (x ∷ xs) le h = end_of-le_word (x.last + 1) xs (omega (arith, h)) h.4

pub below_max :
    (m : Option VmaNode) → next_free m ≤ word_mod → ends_at_max m ≡ false → IsWord (next_free m)
unfolding ends_at_max
below_max none le h = omega arith
below_max (some n) le h = ground arith

finish-found :
    (q : Request) (last : Option VmaNode) (o : Outcome) (a : ℕ)
    → finish_bottomup q last o ≡ some a
    → (o ≡ found a)
      ⊎ ((o ≡ go_up) × (ends_at_max last ≡ false) × (look_at_rightmost q last ≡ some a))
unfolding finish_bottomup
finish-found q last (found b) a h = inl (cc)
finish-found q last fail a h = cc
finish-found q last go_up a h = inr (ground arith)

accepted :
    (q : Request) (t : Tree) (a : ℕ)
    → find_free_bottomup q t ≡ some a
    → (0 < q.size) × (finish_bottomup q (last_node none t) (visit_bottomup q none t) ≡ some a)
unfolding find_free_bottomup is_hopeless
accepted q t a h = ground arith

-- A block in front of `n`, at its left or at its right, meets nothing of the subtree under `n`.
module _ (q : Request) (lo : ℕ) (l : Tree) (n : VmaNode) (r : Tree)
    (h : Linked lo (entries (node l n r))) where
  abbrev pub mid : ℕ
  mid = end_of lo (entries l)

  abbrev pub top : ℕ
  top = end_of lo (entries (node l n r))

  pub left : Linked lo (entries l)
  left = Linked-append_left lo (entries l) _ h

  pub right : Linked mid (entry n ∷ entries r)
  right = Linked-append_right lo (entries l) _ h

  top-eq : top ≡ end_of (n.last + 1) (entries r)
  top-eq = end_of-append lo (entries l) _

  IsFree-before :
      (a : ℕ)
      → a + q.size ≤ n.first
      → IsFree q.size a (entries l)
      → IsFree q.size a (entries (node l n r))
  IsFree-before a le f = All-append _ (entries l) _ f (
    inr le,
    All-imp (λ x p. inr (omega arith)) (entries r)
        (Linked-ge (n.last + 1) n.first (entries r) (omega (arith, right)) right.4),
  )

  IsFree-after_left : (a : ℕ) → mid ≤ a → IsFree q.size a (entries l)
  IsFree-after_left a le =
      All-imp (λ x p. inl (omega arith)) (entries l) (Linked-lt_end lo (entries l) left)

  pub at_left :
      (a : ℕ)
      → Between q lo mid a × IsFree q.size a (entries l)
      → Between q lo top a × IsFree q.size a (entries (node l n r))
  at_left a (b, f) = (
    record {
      aligned = b.aligned;
      ge_min = b.ge_min;
      le_max = b.le_max;
      above = b.above;
      below = omega (arith, b.below, right, top-eq, le-end_of (n.last + 1) (entries r) right.4);
    },
    IsFree-before a (omega (arith, b.below, right)) f,
  )

  pub at_node :
      (a : ℕ)
      → Between q mid n.first a
      → Between q lo top a × IsFree q.size a (entries (node l n r))
  at_node a b = (
    record {
      aligned = b.aligned;
      ge_min = b.ge_min;
      le_max = b.le_max;
      above = omega (arith, b.above, le-end_of lo (entries l) left);
      below = omega (arith, b.below, right, top-eq, le-end_of (n.last + 1) (entries r) right.4);
    },
    IsFree-before a b.below (IsFree-after_left a b.above),
  )

  pub at_right :
      (a : ℕ)
      → Between q (n.last + 1) (end_of (n.last + 1) (entries r)) a × IsFree q.size a (entries r)
      → Between q lo top a × IsFree q.size a (entries (node l n r))
  at_right a (b, f) = (
    record {
      aligned = b.aligned;
      ge_min = b.ge_min;
      le_max = b.le_max;
      above = omega (arith, b.above, right, le-end_of lo (entries l) left);
      below = omega (arith, b.below, top-eq);
    },
    All-append _ (entries l) _ (IsFree-after_left a (omega (arith, b.above, right)))
        (inl (omega (arith, b.above)), f),
  )

module _ (k : ℕ) (small : k < 64) (q : Request) (pow : q.align ≡ 2 ^ k)
    (word : IsWord q.max_addr) where
  align_up-aligned : (v : ℕ) → align_up v q.align % q.align ≡ 0
  align_up-aligned v = rw pow (align_up-mod k v small)

  align_up-IsWord_at : (v : ℕ) → IsWord (align_up v q.align)
  align_up-IsWord_at v = rw pow (align_up-IsWord k v small)

  look_at_gap_sound :
      (prev : Option VmaNode) (n : VmaNode) (a : ℕ)
      → next_free prev ≤ n.first
      → IsWord n.first
      → look_at_gap q prev n ≡ found a
      → Between q (next_free prev) n.first a
  unfolding look_at_gap
  look_at_gap_sound prev n a le w h =
      let e = gap_start-next_free prev (omega arith) in
      let aligned = align_up-aligned (max (gap_start_after prev) q.min_addr) in ground arith

  visit_sound :
      (prev : Option VmaNode) (t : Tree) (a : ℕ)
      → Linked (next_free prev) (entries t)
      → visit_bottomup q prev t ≡ found a
      → Between q (next_free prev) (end_of (next_free prev) (entries t)) a
        × IsFree q.size a (entries t)
  unfolding visit_bottomup
  visit_sound prev nil a h e = cc
  visit_sound prev (node l n r) a h e =
      let lo = next_free prev in
      let before = next_free-last_node prev l in
      let r_facts = right q lo l n r h in
      elim (otherwise-found
        (if is_node l && ltb q.min_addr n.first then visit_bottomup q prev l else go_up)
        (otherwise (look_at_gap q (last_node prev l) n) (visit_bottomup q (some n) r))
        (unless-found (ltb n.biggest_gap q.size) _ e)) [
          | inl e1 ↦ at_left q lo l n r h a (
              visit_sound prev l a (left q lo l n r h)
                (guarded-found (is_node l && ltb q.min_addr n.first) _ e1))
          | inr (_, e2) ↦
              elim (otherwise-found (look_at_gap q (last_node prev l) n)
                (visit_bottomup q (some n) r) e2) [
                  | inl e3 ↦ at_node q lo l n r h a (
                      subst (λ t. Between q t n.first a) before
                        (look_at_gap_sound (last_node prev l) n a (omega (arith, before, r_facts))
                          (omega (arith, r_facts)) e3))
                  | inr (_, e4) ↦ at_right q lo l n r h a (visit_sound (some n) r a r_facts.4 e4)
                ]
        ]

  look_at_rightmost_sound :
      (last : Option VmaNode) (a : ℕ)
      → IsWord (next_free last)
      → 0 < q.size
      → IsWord q.size
      → look_at_rightmost q last ≡ some a
      → (a % q.align ≡ 0) × (q.min_addr ≤ a) × (a + q.size ≤ q.max_addr + 1) × (next_free last ≤ a)
  unfolding look_at_rightmost
  look_at_rightmost_sound last a w pos ws h =
      let e = gap_start-next_free last w in
      let aligned = align_up-aligned (max (gap_start_after last) q.min_addr) in
      let is_word = align_up-IsWord_at (max (gap_start_after last) q.min_addr) in ground arith

  -- For an alignment `2 ^ k` with `k < 64`, a size and an upper limit that are words, and a tree whose
  -- sequence is in order: a block that `find_free_bottomup` returns is aligned, lies within the limits
  -- and meets no entry of the tree.
  pub find_free_bottomup-Suits :
      (t : Tree) (a : ℕ)
      → IsWord q.size
      → Linked 0 (entries t)
      → find_free_bottomup q t ≡ some a
      → Suits q (entries t) a
  unfolding find_free_bottomup
  find_free_bottomup-Suits t a ws h e =
      let last = last_node none t in
      let end = next_free-last_node none t in
      let (hope, e') = accepted q t a e in
      elim (finish-found q last (visit_bottomup q none t) a e') [
        | inl e1 ↦
            let (b, f) = visit_sound none t a h e1 in
            record { aligned = b.aligned; ge_min = b.ge_min; le_max = b.le_max; free = f }
        | inr (_, e2, e3) ↦
            let w =
              below_max last (omega (arith, end, end_of-le_word 0 (entries t) (omega arith) h))
                e2 in
            let s = look_at_rightmost_sound last a w hope ws e3 in
            record {
              aligned = s.0;
              ge_min = s.1;
              le_max = s.2;
              free =
                  All-imp (λ x p. inl (omega (arith, s.3, end))) (entries t)
                    (Linked-lt_end 0 (entries t) h);
            }
      ]
