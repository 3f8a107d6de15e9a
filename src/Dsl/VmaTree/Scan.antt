-- ===== src/Dsl/VmaTree/Scan.antt =====
-- The lookups against a scan of the whole sequence.
use davix.Prelude.{
  ℕ, suc, ◌+◌, ◌≤◌, ◌<◌, ◌≡◌, refl, ap, sym, ◌∙◌, Bool, true, false, ◌&&◌, Option, none, some, List,
  [], ◌∷◌, ◌++◌, arith, if◌then◌else◌, ltb, leb, All, All-imp, Bool-cases, inl, inr, ltb→lt, ltb→ge,
  ge→ltb, leb→le,
}
use davix.Dsl.VmaTree.{VmaNode, Tree, nil, node}
use davix.Dsl.VmaTree.Lookup.{find, find_above_from, find_above, find_below_from, find_below}
use davix.Dsl.VmaTree.Entries.{Entry, entry, entries}
use davix.Dsl.VmaTree.Order.{
  Linked, Linked-append_left, Linked-append_right, Linked-ge, Linked-lt_end,
}

abbrev orelse : Option Entry → Option Entry → Option Entry
orelse none d = d
orelse (some x) d = some x

-- The first entry that passes a test, and the last.
pub scan : (Entry → Bool) → List Entry → Option Entry
scan p [] = none
scan p (x ∷ xs) = if p x then some x else scan p xs

pub scan_last : (Entry → Bool) → List Entry → Option Entry
scan_last p [] = none
scan_last p (x ∷ xs) = orelse (scan_last p xs) (if p x then some x else none)

abbrev pub seen : Option VmaNode → Option Entry
seen none = none
seen (some n) = some (entry n)

module _ (p : Entry → Bool) where
  scan-append : (xs ys : List Entry) → scan p (xs ++ ys) ≡ orelse (scan p xs) (scan p ys)
  unfolding scan
  scan-append [] ys = refl
  scan-append (x ∷ xs) ys = ground (arith, scan-append xs ys)

  scan-none : (xs : List Entry) → All (λ x. p x ≡ false) xs → scan p xs ≡ none
  unfolding scan
  scan-none [] a = refl
  scan-none (x ∷ xs) a = rw a.0 (scan-none xs a.1)

  scan-skip_left : (xs ys : List Entry) → All (λ x. p x ≡ false) xs → scan p (xs ++ ys) ≡ scan p ys
  scan-skip_left xs ys a = scan-append xs ys ∙ rw (scan-none xs a)

  orelse-none : (a : Option Entry) → orelse a none ≡ a
  orelse-none none = refl
  orelse-none (some x) = refl

  scan-skip_right : (xs ys : List Entry) → All (λ x. p x ≡ false) ys → scan p (xs ++ ys) ≡ scan p xs
  scan-skip_right xs ys a = scan-append xs ys ∙ rw (scan-none ys a) (orelse-none (scan p xs))

  orelse_assoc : (a b c : Option Entry) → orelse (orelse a b) c ≡ orelse a (orelse b c)
  orelse_assoc none b c = refl
  orelse_assoc (some x) b c = refl

  scan_last-append :
      (xs ys : List Entry) → scan_last p (xs ++ ys) ≡ orelse (scan_last p ys) (scan_last p xs)
  unfolding scan_last
  scan_last-append [] ys = ground arith
  scan_last-append (x ∷ xs) ys =
      ap (λ t. orelse t (if p x then some x else none)) (scan_last-append xs ys)
      ∙ orelse_assoc (scan_last p ys) (scan_last p xs) (if p x then some x else none)

  scan_last-none : (xs : List Entry) → All (λ x. p x ≡ false) xs → scan_last p xs ≡ none
  unfolding scan_last
  scan_last-none [] a = refl
  scan_last-none (x ∷ xs) a = rw (scan_last-none xs a.1) (rw a.0)

abbrev pub contains : ℕ → Entry → Bool
contains addr x = leb x.first addr && leb addr x.last

contains_past : (addr : ℕ) (x : Entry) → x.last < addr → contains addr x ≡ false
contains_past addr x h = ground arith

contains_at : (addr : ℕ) (x : Entry) → x.first ≤ addr → addr ≤ x.last → contains addr x ≡ true
contains_at addr x h k = ground arith

leb_past : (a b : ℕ) → b < a → leb a b ≡ false
leb_past a b h = ground arith

leb_at : (a b : ℕ) → a ≤ b → leb a b ≡ true
leb_at a b h = ground arith

-- In a tree whose sequence is in order, `find` returns the entry that contains the address, as a scan
-- of the sequence does.
pub find-eq-scan :
    (addr lo : ℕ) (t : Tree)
    → Linked lo (entries t)
    → seen (find addr t) ≡ scan (contains addr) (entries t)
unfolding find scan
find-eq-scan addr lo nil h = refl
find-eq-scan addr lo (node l n r) h =
    let left = Linked-append_left lo (entries l) _ h in
    let right = Linked-append_right lo (entries l) _ h in
    let under = Linked-lt_end lo (entries l) left in
    elim (Bool-cases (ltb addr n.first)) [
      | inl e ↦
          let lt = ltb→lt _ _ e in
          rw e (
            find-eq-scan addr lo l left
            ∙ sym (
                scan-skip_right (contains addr) (entries l) _ (
                  ground arith,
                  All-imp (λ x p. ground arith) (entries r)
                      (Linked-ge (n.last + 1) (suc addr) (entries r) (omega arith) right.4),
                )))
      | inr e ↦
          let ge = ltb→ge _ _ e in
          rw e (
            let skip =
              scan-skip_left (contains addr) (entries l) (entry n ∷ entries r)
                (All-imp (λ x p. ground arith) (entries l) under) in
            elim (Bool-cases (ltb n.last addr)) [
              | inl f ↦
                  let lt = ltb→lt _ _ f in
                  rw f (
                    find-eq-scan addr (n.last + 1) r right.4
                    ∙ sym (skip ∙ rw (contains_past addr (entry n) lt)))
              | inr f ↦
                  let le = ltb→ge _ _ f in rw f (sym (skip ∙ rw (contains_at addr (entry n) ge le)))
            ])
    ]

begins_before : (addr first : ℕ) → leb addr first ≡ false → ltb first addr ≡ true
begins_before addr first h = ground arith

orelse-some :
    (a : Option Entry) (x : Entry) (b c : Option Entry)
    → orelse (orelse (orelse a (some x)) b) c ≡ orelse a (some x)
orelse-some none x b c = refl
orelse-some (some y) x b c = refl

module _ (addr : ℕ) where
  -- The loop of `find_above` answers with the first entry of the subtree, or else with `found`.
  find_above_from-eq :
      (lo : ℕ) (d : Option VmaNode) (t : Tree)
      → Linked lo (entries t)
      → seen (find_above_from addr d t) ≡ orelse (scan (λ x. leb addr x.last) (entries t)) (seen d)
  unfolding find_above_from scan
  find_above_from-eq lo d nil h = refl
  find_above_from-eq lo d (node l n r) h =
      let left = Linked-append_left lo (entries l) _ h in
      let right = Linked-append_right lo (entries l) _ h in
      let under = Linked-lt_end lo (entries l) left in
      elim (Bool-cases (ltb n.last addr)) [
        | inl e ↦
            let lt = ltb→lt _ _ e in
            rw e (
              find_above_from-eq (n.last + 1) d r right.4
              ∙ ap (λ t. orelse t (seen d))
                  (sym (
                    scan-skip_left (λ x. leb addr x.last) (entries l) (entry n ∷ entries r)
                      (All-imp (λ x p. ground arith) (entries l) under)
                    ∙ rw (leb_past addr n.last lt))))
        | inr e ↦
            let ge = ltb→ge _ _ e in
            rw e (
              find_above_from-eq lo (some n) l left
              ∙ sym (
                  ap (λ t. orelse t (seen d))
                    (scan-append (λ x. leb addr x.last) (entries l) (entry n ∷ entries r)
                      ∙ rw (leb_at addr n.last ge))
                  ∙ orelse_assoc (λ x. leb addr x.last) (scan (λ x. leb addr x.last) (entries l))
                      (some (entry n)) (seen d)))
      ]

  find_below_from-eq :
      (lo : ℕ) (d : Option VmaNode) (t : Tree)
      → Linked lo (entries t)
      → seen (find_below_from addr d t)
        ≡ orelse (scan_last (λ x. ltb x.first addr) (entries t)) (seen d)
  unfolding find_below_from scan_last
  find_below_from-eq lo d nil h = refl
  find_below_from-eq lo d (node l n r) h =
      let left = Linked-append_left lo (entries l) _ h in
      let right = Linked-append_right lo (entries l) _ h in
      let both = scan_last-append (λ x. ltb x.first addr) (entries l) (entry n ∷ entries r) in
      elim (Bool-cases (leb addr n.first)) [
        | inl e ↦
            let le = leb→le _ _ e in
            rw e (
              find_below_from-eq lo d l left
              ∙ ap (λ t. orelse t (seen d))
                  (sym (
                    both
                    ∙ rw (
                        scan_last-none (λ x. ltb x.first addr) (entry n ∷ entries r)
                          (
                            ge→ltb n.first addr le,
                            All-imp (λ x p. ge→ltb x.first addr p) (entries r)
                                (Linked-ge (n.last + 1) addr (entries r) (omega arith) right.4),
                          )))))
        | inr e ↦ rw e (
            find_below_from-eq (n.last + 1) (some n) r right.4
            ∙ sym (
                ap (λ t. orelse t (seen d))
                  (both
                    ∙ ap
                        (λ b.
                          orelse
                            (orelse (scan_last (λ x. ltb x.first addr) (entries r))
                              (if b then some (entry n) else none))
                            (scan_last (λ x. ltb x.first addr) (entries l)))
                        (begins_before addr n.first e))
                ∙ orelse-some (scan_last (λ x. ltb x.first addr) (entries r)) (entry n)
                    (scan_last (λ x. ltb x.first addr) (entries l)) (seen d)))
      ]

-- In a tree whose sequence is in order, `find_above` returns the first entry that ends at or after the
-- address, as a scan of the sequence does.
pub find_above-eq-scan :
    (addr lo : ℕ) (t : Tree)
    → Linked lo (entries t)
    → seen (find_above addr t) ≡ scan (λ x. leb addr x.last) (entries t)
unfolding find_above
find_above-eq-scan addr lo t h = find_above_from-eq addr lo none t h ∙ orelse-none (λ x. true) _

-- In a tree whose sequence is in order, `find_below` returns the last entry that begins before the
-- address, as a scan of the sequence does.
pub find_below-eq-scan :
    (addr lo : ℕ) (t : Tree)
    → Linked lo (entries t)
    → seen (find_below addr t) ≡ scan_last (λ x. ltb x.first addr) (entries t)
unfolding find_below
find_below-eq-scan addr lo t h = find_below_from-eq addr lo none t h ∙ orelse-none (λ x. true) _

-- In a tree whose sequence is in order, `find` returns the entry that contains the address, `find_above`
-- the first entry that ends at or after it, and `find_below` the last one that begins before it, each as a scan of the
-- sequence does.
pub searches-eq-scan :
    (addr lo : ℕ) (t : Tree)
    → Linked lo (entries t)
    → (seen (find addr t) ≡ scan (contains addr) (entries t))
      × (seen (find_above addr t) ≡ scan (λ x. leb addr x.last) (entries t))
      × (seen (find_below addr t) ≡ scan_last (λ x. ltb x.first addr) (entries t))
searches-eq-scan addr lo t h =
    (find-eq-scan addr lo t h, find_above-eq-scan addr lo t h, find_below-eq-scan addr lo t h)
