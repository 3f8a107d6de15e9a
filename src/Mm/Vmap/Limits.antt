-- ===== src/Mm/Vmap/Limits.antt =====
-- mm/vmap.cc: the limits of `free_pte_range_vma` lie between the areas around the new one.
use davix.Prelude.{
  ℕ, ◌+◌, ◌-◌, ◌/◌, ◌*◌, ◌^◌, ◌≤◌, ◌<◌, ◌≡◌, ◌≢◌, ◌%◌, refl, ◌⊎◌, inl, inr, true, false, ◌&&◌, ◌||◌,
  Option, none, List, [], ◌∷◌, arith, All, if◌then◌else◌, ltb, leb, ◌==◌, Bool-cases, ==→eq, ltb→lt,
  ltb→ge, max, min,
}
use davix.Prelude.Words.{word_mod, IsWord, add64}
use davix.Dsl.Align.{align_up, align_down}
use davix.Dsl.Align.Laws.{
  align_down_greatest, align_up_least, align_up-mod, align_up_lem, align_up_overflow, pow_pos,
}
use davix.Dsl.VmaTree.Entries.{Entry}
use davix.Dsl.VmaTree.Order.{Linked, Linked-ge}
use davix.Dsl.VmaTree.Insert.{link_in}
use davix.Mm.Vmap.Map.{limits_of, walk_end, free_pte_range}

-- Some entry has the address.
abbrev pub Covers : ℕ → List Entry → Type 0
Covers a [] = ⊥
Covers a (x ∷ xs) = ((x.first ≤ a) × (a ≤ x.last)) ⊎ Covers a xs

-- The limits enclose `[f; l]`, and no entry has an address between them.
pub record IsLimits (f l lo : ℕ) (xs : List Entry) (r : ℕ × ℕ) : Type 0 where
  pub ge : lo ≤ r.0
  pub le : r.0 ≤ f
  pub above : (r.1 ≡ 0) ⊎ (l < r.1)
  pub clear : (a : ℕ) → r.0 ≤ a → (r.1 ≡ 0) ⊎ (a < r.1) → Covers a xs → ⊥

Covers-ge : (a lo : ℕ) (xs : List Entry) → All (λ x. lo ≤ x.first) xs → Covers a xs → lo ≤ a
Covers-ge a lo [] h c = absurd c
Covers-ge a lo (x ∷ xs) h c = elim c [
  | inl d ↦ omega (arith, h.0, d)
  | inr d ↦ Covers-ge a lo xs h.1 d
]

pub limits_of-IsLimits :
    (f l lo : ℕ) (xs : List Entry)
    → Linked lo xs
    → IsWord l
    → f ≤ l
    → lo ≤ f
    → All (λ x. (x.last < f) ⊎ (l < x.first)) xs
    → IsLimits f l lo xs (limits_of f lo (link_in f l lo xs))
unfolding limits_of link_in
limits_of-IsLimits f l lo [] h w ord le apart =
    let same : f == f ≡ true = ground arith in
    rw same (record { ge = omega arith; le = le; above = inl refl; clear = λ a g u c. c })
limits_of-IsLimits f l lo (x ∷ xs) h w ord le apart = elim (Bool-cases (ltb f x.first)) [
  | inl e ↦
      let same : f == f ≡ true = ground arith in
      let lt = ltb→lt f x.first e in
      rw (e, same)
        (record {
          ge = omega arith;
          le = le;
          above = inr (omega (arith, lt, apart.0, h));
          clear = λ a g u c. elim u [
            | inl z ↦ absurd (omega (arith, z, lt))
            | inr below ↦ elim c [
              | inl d ↦ omega (arith, d, below)
              | inr d ↦ omega (
                arith,
                below,
                Covers-ge a x.first xs (Linked-ge (x.last + 1) x.first xs (omega (arith, h)) h.4) d,
              )
            ]
          ];
        })
  | inr e ↦
      let after : x.last < f = omega (arith, apart.0, ltb→ge f x.first e, ord) in
      let other : x.first == f ≡ false = ground (arith, after, h.0, h.1, h.2) in
      let next : add64 x.last 1 ≡ x.last + 1 = omega (arith, h, after, ord, w) in
      let d = limits_of-IsLimits f l (x.last + 1) xs h.4 w ord (omega (arith, after)) apart.1 in
      rw (e, other, next)
        (record {
          ge = omega (arith, d.ge, h);
          le = d.le;
          above = d.above;
          clear = λ a g u c. elim c [
            | inl own ↦ omega (arith, d.ge, g, own)
            | inr there ↦ d.clear a g u there
          ];
        })
]

round_up-ge : (v n : ℕ) → 0 < n → v ≤ (v + (n - 1)) / n * n
round_up-ge v n pos = grind arith

align_up-ge : (k v : ℕ) → k < 64 → IsWord v → (align_up v (2 ^ k) ≡ 0) ⊎ (v ≤ align_up v (2 ^ k))
align_up-ge k v h w = elim (Bool-cases (ltb (v + (2 ^ k - 1)) word_mod)) [
  | inl e ↦
      let small : add64 v (2 ^ k - 1) ≡ v + (2 ^ k - 1) =
        omega (arith, ltb→lt (v + (2 ^ k - 1)) word_mod e) in
      inr (rw (align_up_lem k v h, small) (round_up-ge v (2 ^ k) (pow_pos k)))
  | inr e ↦ inl (align_up_overflow k v h w (ltb→ge (v + (2 ^ k - 1)) word_mod e))
]

-- The limits of the walk: it begins at or before `addr`, within the limits, and ends within them, behind `addr` if some
-- page was mapped or `addr` is not where a top-level entry begins.
pub record IsWalk (k addr stop : ℕ) (r : ℕ × ℕ) (low high : ℕ) : Type 0 where
  pub low_ge : r.0 ≤ low
  pub low_le : low ≤ addr
  pub low_least : addr % 2 ^ k ≡ 0 → low ≡ addr
  pub high_ge : (high ≡ 0) ⊎ (stop ≤ high)
  pub high_gt : (high ≡ 0) ⊎ (addr < high) ⊎ ((addr ≡ stop) × (addr % 2 ^ k ≡ 0))
  pub high_le : (a : ℕ) → (high ≡ 0) ⊎ (a < high) → (r.1 ≡ 0) ⊎ (a < r.1)
  pub high_least : addr ≡ stop → addr % 2 ^ k ≡ 0 → 0 < addr → high ≡ addr

-- The code's limits.
abbrev pub walk_low : ℕ → ℕ → ℕ × ℕ → ℕ
walk_low entry_size addr r = max r.0 (align_down addr entry_size)

abbrev pub walk_high : ℕ → ℕ → ℕ × ℕ → ℕ
walk_high entry_size stop r =
    if align_up stop entry_size == 0
    then r.1
    else if r.1 == 0
    then align_up stop entry_size
    else min r.1 (align_up stop entry_size)

pub limits-IsWalk :
    (k addr stop last : ℕ) (xs : List Entry) (r : ℕ × ℕ)
    → k < 64
    → IsWord addr
    → IsWord stop
    → IsLimits addr last 0 xs r
    → addr ≤ last
    → addr ≤ stop
    → stop ≤ last + 1
    → IsWalk k addr stop r (walk_low (2 ^ k) addr r) (walk_high (2 ^ k) stop r)
limits-IsWalk k addr stop last xs r h w w' lim filled le up =
    let down = align_down_greatest k addr 0 h w (omega arith) (grind (arith, pow_pos k)) in
    let ceil = align_up-ge k stop h w' in
    let multiple = align_up-mod k stop h in
    let least = λ (e : addr % 2 ^ k ≡ 0). align_down_greatest k addr addr h w (omega arith) e in
    let up_least = λ (e : stop % 2 ^ k ≡ 0). align_up_least k stop stop h w' (omega arith) e in
    let tables = align_up stop (2 ^ k) in
    let tables_gt : (tables ≡ 0) ⊎ (addr < tables) ⊎ ((addr ≡ stop) × (addr % 2 ^ k ≡ 0)) =
      elim (Bool-cases (tables == stop)) [
        | inl e ↦
            let whole : stop % 2 ^ k ≡ 0 = rw (==→eq tables stop e) at multiple in
            elim (Bool-cases (addr == stop)) [
              | inl f ↦ inr (inr (==→eq addr stop f, rw (==→eq addr stop f) whole))
              | inr f ↦ ground (arith, e, f, le)
            ]
        | inr e ↦ ground (arith, e, ceil, le)
      ] in
    record {
      low_ge = omega arith;
      low_le = omega (arith, down, lim.le);
      low_least = λ e. omega (arith, least e, lim.le);
      high_ge = ground (arith, ceil, lim.above, up);
      high_gt = ground (arith, tables_gt, lim.above, filled);
      high_le = λ a. ground arith;
      high_least = λ e f pos. ground (arith, up_least (rw e at f), e, lim.above, filled, pos);
    }

walk_end-same :
    (n low high addr : ℕ) → low ≤ addr → (high ≡ 0) ⊎ (addr < high) → walk_end n low high ≡ high
walk_end-same n low high addr le lt =
    let some_left : (low == high && ltb 0 low) ≡ false = ground (arith, le, lt) in rw some_left refl

module _ (k addr stop last a : ℕ) (xs : List Entry) (r : ℕ × ℕ) (ptes : ℕ → Option ℕ)
    (walk : IsWalk k addr stop r (walk_low (2 ^ k) addr r) (walk_high (2 ^ k) stop r)) where
  -- An area that is empty, at the start of a top-level entry: the first entry below it is cleared.
  pub free_pte_range-lost :
      addr ≡ stop
      → addr % 2 ^ k ≡ 0
      → 0 < addr
      → free_pte_range (2 ^ k) addr stop r ptes a ≡ (
          if leb addr a && (add64 addr (2 ^ k / 512) == 0 || ltb a (add64 addr (2 ^ k / 512)))
          then none
          else ptes a)
  unfolding free_pte_range
  free_pte_range-lost e f pos =
      let low = walk.low_least f in
      let high = walk.high_least e f pos in
      let same : (addr == addr && ltb 0 addr) ≡ true = ground (arith, pos) in
      rw (low, high, same) refl

  -- What was mapped from `addr` up to `stop` is cleared, and nothing else was mapped there.
  pub free_pte_range-undone :
      (old : ℕ → Option ℕ)
      → IsLimits addr last 0 xs r
      → (old a ≡ none) ⊎ Covers a xs
      → ((a < addr) ⊎ (stop ≤ a) → ptes a ≡ old a)
      → (addr < stop) ⊎ (addr % 2 ^ k ≢ 0)
      → free_pte_range (2 ^ k) addr stop r ptes a ≡ old a
  unfolding free_pte_range
  free_pte_range-undone old lim backed same filled =
      let low = walk_low (2 ^ k) addr r in
      let high = walk_high (2 ^ k) stop r in
      let high_gt : (high ≡ 0) ⊎ (addr < high) = elim walk.high_gt [
        | inl e ↦ inl e
        | inr rest ↦ elim rest [
          | inl e ↦ inr e
          | inr both ↦ elim filled [
            | inl lt ↦ absurd (omega (arith, lt, both.0))
            | inr ne ↦ absurd (ne both.1)
          ]
        ]
      ] in
      let end_same = walk_end-same (2 ^ k) low high addr walk.low_le high_gt in
      rw end_same (elim (Bool-cases (leb low a && (high == 0 || ltb a high))) [
        | inl e ↦ elim backed [
          | inl none_before ↦ rw (e, none_before) refl
          | inr covered ↦ absurd (
              lim.clear a (ground (arith, walk.low_ge, e)) (walk.high_le a (ground (arith, e)))
                covered)
        ]
        | inr e ↦ rw e (same (ground (arith, e, walk.low_le, walk.high_ge)))
      ])
