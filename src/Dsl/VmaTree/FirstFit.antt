-- ===== src/Dsl/VmaTree/FirstFit.antt =====
-- `find_free_bottomup` finds the lowest block that meets the request, if there is one.
use davix.Prelude.{
  ℕ, ◌+◌, ◌%◌, ◌^◌, ◌≤◌, ◌<◌, ◌≡◌, refl, inl, inr, true, false, ◌&&◌, Option, none, some, arith,
  max, ltb, ltb→lt, ltb→ge, ge→ltb, lt→ltb, All-append_left, All-append_right, Bool-cases,
}
use davix.Prelude.Words.{word_mod, IsWord}
use davix.Dsl.Align.{align_up}
use davix.Dsl.Align.Laws.{align_up_least}
use davix.Dsl.VmaTree.{VmaNode, Tree, nil, node}
use davix.Dsl.VmaTree.Modify.{node_max_gap}
use davix.Dsl.VmaTree.Remove.{last_node}
use davix.Dsl.VmaTree.Shape.{IsShaped}
use davix.Dsl.VmaTree.Entries.{entries}
use davix.Dsl.VmaTree.Order.{
  Linked, end_of, next_free, Linked-append_left, Linked-append_right, end_of-append, le-end_of,
}
use davix.Dsl.VmaTree.Unlink.{next_free-last_node}
use davix.Dsl.VmaTree.Hole.{IsFree, gap_start-next_free, end_of-le_word}
use davix.Dsl.VmaTree.Find.{
  Outcome, found, fail, go_up, Request, look_at_gap, look_at_rightmost, gap_start_after,
  visit_bottomup, find_free_bottomup, finish_bottomup, is_hopeless, ends_at_max, is_node,
}
use davix.Dsl.VmaTree.Outcomes.{
  Hits, Passes, otherwise-Hits, otherwise-Hits_first, otherwise-Passes, guarded-Passes,
  unless-Passes, guarded-Hits, both_true,
}
use mathlib.Core.Path.{subst}

abbrev AtMost : ℕ → ℕ → Type 0
AtMost b a = a ≤ b

pub is_node-below : (lo b : ℕ) (t : Tree) → lo ≤ b → b < end_of lo (entries t) → is_node t ≡ true
is_node-below lo b nil le lt = absurd (omega arith)
is_node-below lo b (node l n r) le lt = refl

pub not_at_max : (m : Option VmaNode) → IsWord (next_free m) → ends_at_max m ≡ false
unfolding ends_at_max
not_at_max none w = refl
not_at_max (some n) w = ground arith

finish-Hits :
    (q : Request) (last : Option VmaNode) (b : ℕ) (o : Outcome)
    → Hits (AtMost b) o
    → (a : ℕ) × (finish_bottomup q last o ≡ some a) × (a ≤ b)
unfolding finish_bottomup
finish-Hits q last b (found a) h = (a, refl, h)
finish-Hits q last b fail h = absurd h
finish-Hits q last b go_up h = absurd h

-- A block below the end of a subtree lies in one of its gaps, so the cached bound is large enough.
pub gap-large :
    (size b lo : ℕ) (t : Tree)
    → Linked lo (entries t)
    → IsShaped t
    → IsFree size b (entries t)
    → lo ≤ b
    → b < end_of lo (entries t)
    → size ≤ node_max_gap t
unfolding node_max_gap
gap-large size b lo nil h s f le lt = absurd (omega arith)
gap-large size b lo (node l n r) h s f le lt =
    let left = Linked-append_left lo (entries l) _ h in
    let right = Linked-append_right lo (entries l) _ h in
    let rest = All-append_right _ (entries l) _ f in
    elim (Bool-cases (ltb b (end_of lo (entries l)))) [
      | inl e ↦
          let ih =
            gap-large size b lo l left s.0 (All-append_left _ (entries l) _ f) le (ltb→lt _ _ e) in
          omega (arith, ih, s)
      | inr e ↦ elim rest.0 [
        | inl past ↦
            let ih =
              gap-large size b (n.last + 1) r right.4 s.1 rest.1 (omega arith)
                (subst (λ t. b < t) (end_of-append lo (entries l) _) lt) in
            omega (arith, ih, s)
        | inr front ↦ omega (arith, ltb→ge _ _ e, right, s, front)
      ]
    ]

module _ (k : ℕ) (small : k < 64) (q : Request) (pow : q.align ≡ 2 ^ k) (word : IsWord q.max_addr)
    (b : ℕ) (pos : 0 < q.size) (aligned : b % q.align ≡ 0) (ge_min : q.min_addr ≤ b)
    (le_max : b + q.size ≤ q.max_addr + 1) where
  align_up-le : (v : ℕ) → v ≤ b → (v ≤ align_up v q.align) × (align_up v q.align ≤ b)
  align_up-le v le =
      let d = align_up_least k v b small (omega arith) le (rw pow at aligned) in rw pow (d.0, d.2)

  look-Hits :
      (prev : Option VmaNode) (n : VmaNode)
      → next_free prev ≤ b
      → b + q.size ≤ n.first
      → IsWord n.first
      → Hits (AtMost b) (look_at_gap q prev n)
  unfolding look_at_gap
  look-Hits prev n le front w =
      let e = gap_start-next_free prev (omega arith) in
      let up = align_up-le (max (gap_start_after prev) q.min_addr) (omega (arith, e)) in
      ground arith

  look-Passes :
      (prev : Option VmaNode) (n : VmaNode)
      → next_free prev ≤ n.first
      → n.first ≤ n.last
      → n.last < b
      → Passes (AtMost b) (look_at_gap q prev n)
  unfolding look_at_gap
  look-Passes prev n le ord past = let e = gap_start-next_free prev (omega arith) in ground arith

  visit-Passes :
      (prev : Option VmaNode) (t : Tree)
      → Linked (next_free prev) (entries t)
      → IsFree q.size b (entries t)
      → end_of (next_free prev) (entries t) ≤ b
      → Passes (AtMost b) (visit_bottomup q prev t)
  unfolding visit_bottomup
  visit-Passes prev nil h f le = tt
  visit-Passes prev (node l n r) h f le =
      let lo = next_free prev in
      let left = Linked-append_left lo (entries l) _ h in
      let right = Linked-append_right lo (entries l) _ h in
      let before = next_free-last_node prev l in
      let end = subst (λ t. t ≤ b) (end_of-append lo (entries l) _) le in
      let past : n.last < b = omega (arith, end, le-end_of (n.last + 1) (entries r) right.4) in
      unless-Passes (AtMost b) (ltb n.biggest_gap q.size) _ (
        otherwise-Passes (AtMost b) _ _
          (guarded-Passes (AtMost b) (is_node l && ltb q.min_addr n.first) _ (
            visit-Passes prev l left (All-append_left _ (entries l) _ f)
              (omega (arith, right, past))))
          (otherwise-Passes (AtMost b) _ _
            (look-Passes (last_node prev l) n (omega (arith, before, right)) (omega (arith, right))
              past)
            (visit-Passes (some n) r right.4 (All-append_right _ (entries l) _ f).1 end)))

  visit-Hits :
      (prev : Option VmaNode) (t : Tree)
      → Linked (next_free prev) (entries t)
      → IsShaped t
      → IsFree q.size b (entries t)
      → next_free prev ≤ b
      → b < end_of (next_free prev) (entries t)
      → Hits (AtMost b) (visit_bottomup q prev t)
  unfolding visit_bottomup node_max_gap
  visit-Hits prev nil h s f le lt = absurd (omega arith)
  visit-Hits prev (node l n r) h s f le lt =
      let lo = next_free prev in
      let left = Linked-append_left lo (entries l) _ h in
      let right = Linked-append_right lo (entries l) _ h in
      let before = next_free-last_node prev l in
      let free_l = All-append_left _ (entries l) _ f in
      let rest = All-append_right _ (entries l) _ f in
      let big : q.size ≤ n.biggest_gap = gap-large q.size b lo (node l n r) h s f le lt in
      rw (ge→ltb n.biggest_gap q.size big) (elim (Bool-cases (ltb b (end_of lo (entries l)))) [
        | inl e ↦
            let inside = ltb→lt _ _ e in
            otherwise-Hits_first (AtMost b) _ _ (
              guarded-Hits (AtMost b) (is_node l && ltb q.min_addr n.first) _
                (both_true (is_node-below lo b l le inside)
                  (lt→ltb _ _ (omega (arith, right, inside))))
                (visit-Hits prev l left s.0 free_l le inside))
        | inr e ↦
            let reached = ltb→ge _ _ e in
            otherwise-Hits (AtMost b) _ _
              (guarded-Passes (AtMost b) (is_node l && ltb q.min_addr n.first) _
                (visit-Passes prev l left free_l reached))
              (elim rest.0 [
                | inl past ↦
                    otherwise-Hits (AtMost b) _ _
                      (look-Passes (last_node prev l) n (omega (arith, before, right))
                        (omega (arith, right)) past)
                      (visit-Hits (some n) r right.4 s.1 rest.1 (omega arith)
                        (subst (λ t. b < t) (end_of-append lo (entries l) _) lt))
                | inr front ↦ otherwise-Hits_first (AtMost b) _ _ (
                    look-Hits (last_node prev l) n (omega (arith, before, reached)) front
                      (omega (arith, right)))
              ])
      ])

  rightmost-Hits :
      (last : Option VmaNode)
      → IsWord (next_free last)
      → next_free last ≤ b
      → (a : ℕ) × (look_at_rightmost q last ≡ some a) × (a ≤ b)
  unfolding look_at_rightmost
  rightmost-Hits last w le =
      let e = gap_start-next_free last w in
      let start = max (gap_start_after last) q.min_addr in
      let up = align_up-le start (omega (arith, e)) in (align_up start q.align, ground arith, up.1)

  finish-Passes :
      (last : Option VmaNode) (o : Outcome)
      → next_free last ≤ b
      → next_free last ≤ word_mod
      → Passes (AtMost b) o
      → (a : ℕ) × (finish_bottomup q last o ≡ some a) × (a ≤ b)
  unfolding finish_bottomup
  finish-Passes last (found a) le w h = (a, refl, h)
  finish-Passes last fail le w h = absurd h
  finish-Passes last go_up le w h =
      let is_word : IsWord (next_free last) = omega arith in
      rw (not_at_max last is_word) (rightmost-Hits last is_word le)

  hopeful : q.size ≤ q.max_addr → is_hopeless q ≡ false
  unfolding is_hopeless
  hopeful le = ground arith

  -- For an alignment `2 ^ k` with `k < 64`, an upper limit that is a word, a positive size that does
  -- not pass that limit, and a balanced tree with right caches whose sequence is in order: if some
  -- block `b` is aligned, lies within the limits and meets no entry, then `find_free_bottomup` succeeds
  -- with a block that is not above `b`.
  pub find_free_bottomup_least :
      (t : Tree)
      → q.size ≤ q.max_addr
      → Linked 0 (entries t)
      → IsShaped t
      → IsFree q.size b (entries t)
      → (a : ℕ) × (find_free_bottomup q t ≡ some a) × (a ≤ b)
  unfolding find_free_bottomup
  find_free_bottomup_least t size_le h s f =
      let end = next_free-last_node none t in
      rw (hopeful size_le) (elim (Bool-cases (ltb b (end_of 0 (entries t)))) [
        | inl e ↦
            finish-Hits q (last_node none t) b _
              (visit-Hits none t h s f (omega arith) (ltb→lt _ _ e))
        | inr e ↦
            finish-Passes (last_node none t) _ (omega (arith, end, ltb→ge _ _ e))
              (omega (arith, end, end_of-le_word 0 (entries t) (omega arith) h))
              (visit-Passes none t h f (ltb→ge _ _ e))
      ])
