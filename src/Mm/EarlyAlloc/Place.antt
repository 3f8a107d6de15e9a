-- ===== src/Mm/EarlyAlloc/Place.antt =====
-- mm/early_alloc.cc: what `early_alloc_phys_range` gives, and what is left of the free blocks.
use mathlib.Core.Path.{subst}
use davix.Prelude.{
  ℕ, zero, suc, ◌+◌, ◌*◌, ◌%◌, ◌^◌, ◌≤◌, ◌<◌, ◌≡◌, ◌≢◌, ◌⊎◌, inl, inr, refl, ap, ◌∙◌, Option, none,
  some, List, [], ◌∷◌, ◌++◌, max, ◌==◌, arith, Bool-cases, ==→ne, All,
}
use davix.Prelude.Words.{word_max, IsWord, add64}
use davix.Dsl.Align.{align_up}
use davix.Dsl.Align.Laws.{align_up_lem, align_down_lem, align_up-mod, pow-add, pow_pos}
use davix.Mm.EarlyAlloc.{
  Block, minalign, first_in, last_in, fit, front_of, Found, split_or, find_block, give, low_limit,
  high_limit, early_alloc_phys_range,
}
use davix.Mm.EarlyAlloc.Cover.{has_byte, cover, cover-append, IsBlock}
use davix.Mm.EarlyAlloc.Fit.{Fits, fit-Fits, split-cover, last_in-lt}

abbrev pub Any : (Block → Type 0) → List Block → Type 0
Any P [] = ⊥
Any P (b ∷ blocks) = P b ⊎ Any P blocks

pub Any-imp :
    (P Q : Block → Type 0)
    → ((b : Block) → P b → Q b)
    → (blocks : List Block) → Any P blocks
    → Any Q blocks
Any-imp P Q f [] a = absurd a
Any-imp P Q f (b ∷ blocks) a = elim a [ inl p ↦ inl (f b p) | inr q ↦ inr (Any-imp P Q f blocks q) ]

pub Any-elim :
    (P : Block → Type 0) (Q : Type 0)
    → ((b : Block) → P b → Q)
    → (blocks : List Block) → Any P blocks
    → Q
Any-elim P Q f [] a = absurd a
Any-elim P Q f (b ∷ blocks) a = elim a [ inl p ↦ f b p | inr q ↦ Any-elim P Q f blocks q ]

-- No byte is in more blocks and the allocation than it was in blocks before, unless the allocation ends with its
-- block: then a block of 2^64 - 1 bytes is put at the front of the list.
abbrev pub IsSplit : ℕ → ℕ → ℕ → List Block → List Block → List Block → Type 0
IsSplit size high p blocks tail left =
    (Any (λ b. p + size ≡ last_in high b + 1) blocks
      × (tail ≡ record { addr = add64 p size; size = word_max } ∷ []))
    ⊎ ((x : ℕ) → cover tail x + cover left x + has_byte p size x ≤ cover blocks x)

pub record IsFound (size align low high : ℕ) (blocks : List Block) (f : Found) : Type 0 where
  pub fits : Any (λ b. IsBlock b × Fits size align low high b f.start) blocks
  pub parts : IsSplit size high f.start blocks f.tail f.left

some_eq : {f g : Found} → ◌≡◌ {A = Option Found} (some f) (some g) → f ≡ g
some_eq e = cc

module _ (size align low high : ℕ) (pos : 0 < size) (ge : 0 < low) (word : IsWord high) where
  split_or-IsFound :
      (b : Block) (blocks : List Block) (f : Found) (here : Option ℕ) (rest : Option Found)
      → IsBlock b
      → fit size align low high b ≡ here
      → ((g : Found) → rest ≡ some g → IsFound size align low high blocks g)
      → split_or size low high b blocks here rest ≡ some f
      → IsFound size align low high (b ∷ blocks) f
  split_or-IsFound b blocks f (some p) rest h e later s =
      let fits = fit-Fits size align low high b p h ge word e in
      subst (λ g. IsFound size align low high (b ∷ blocks) g) (some_eq s)
        (record {
          fits = inl (h, fits);
          parts = elim (split-cover size align low high b p h word pos fits) [
            | inl (exact, same) ↦ inl (inl exact, same)
            | inr covered ↦
                inr (λ x. omega (arith, covered x, cover-append (front_of low p b) blocks x))
          ];
        })
  split_or-IsFound b blocks f none none h e later s = absurd cc
  split_or-IsFound b blocks f none (some g) h e later s =
      let r = later g refl in
      subst (λ g'. IsFound size align low high (b ∷ blocks) g') (some_eq s)
        (record {
          fits = inr r.fits;
          parts = elim r.parts [
            | inl (exact, same) ↦ inl (inr exact, same)
            | inr covered ↦ inr (λ x. omega (arith, covered x))
          ];
        })

  pub find_block-IsFound :
      (blocks : List Block) (f : Found)
      → All IsBlock blocks
      → find_block size align low high blocks ≡ some f
      → IsFound size align low high blocks f
  unfolding find_block
  find_block-IsFound [] f h e = absurd cc
  find_block-IsFound (b ∷ blocks) f h e =
      split_or-IsFound b blocks f (fit size align low high b)
        (find_block size align low high blocks) h.0 refl (λ g. find_block-IsFound blocks g h.1) e

large-mod : (k v : ℕ) → k < 64 → 32 ≤ 2 ^ k → align_up v (max (2 ^ k) minalign) % 2 ^ k ≡ 0
large-mod k v h large =
    let same : max (2 ^ k) minalign ≡ 2 ^ k = omega (arith, large) in rw same (align_up-mod k v h)

-- An alignment of at least `minalign`.
pub max-minalign : (k v : ℕ) → k < 64 → align_up v (max (2 ^ k) minalign) % 2 ^ k ≡ 0
max-minalign zero v h = omega arith
max-minalign (suc zero) v h = omega (arith, align_up-mod 5 v (omega arith))
max-minalign (suc (suc zero)) v h = omega (arith, align_up-mod 5 v (omega arith))
max-minalign (suc (suc (suc zero))) v h = omega (arith, align_up-mod 5 v (omega arith))
max-minalign (suc (suc (suc (suc zero)))) v h = omega (arith, align_up-mod 5 v (omega arith))
max-minalign (suc (suc (suc (suc (suc j))))) v h =
    let scaled : 2 ^ 5 * 2 ^ j ≡ 2 ^ (suc (suc (suc (suc (suc j))))) =
      pow-add 5 j ∙ ap (λ (t : ℕ). 2 ^ t) (omega arith) in
    large-mod (suc (suc (suc (suc (suc j))))) v h (omega (arith, scaled, pow_pos j))

pub low_limit-le : (low : ℕ) → IsWord low → low_limit low ≢ 0 → low ≤ low_limit low
low_limit-le low w ne = ground (arith, align_up_lem 5 (max low 32) (omega arith), w, ne)

size-le : (size : ℕ) → IsWord size → align_up size minalign ≢ 0 → size ≤ align_up size minalign
size-le size w ne = ground (arith, align_up_lem 5 size (omega arith), w, ne)

pub high_limit-le : (high : ℕ) → IsWord high → 31 ≤ high → high_limit high ≤ high
high_limit-le high w large =
    ground (arith, align_down_lem 5 (add64 high 1) (omega arith) (omega arith), w, large)

-- An allocation: it is aligned, it lies within the limits and in one of the blocks, and `IsSplit` holds of the blocks that
-- are left.
pub record IsPlaced (size k low high : ℕ) (free_list : List Block) (p : ℕ) (after : List Block)
    : Type 0 where
  pub aligned : p % 2 ^ k ≡ 0
  pub ge_low : low ≤ p
  pub le_high : p + size ≤ high + 1
  pub in_block : Any (λ b. (b.addr ≤ p) × (p + size ≤ b.addr + b.size)) free_list
  pub parts :
      (tail : List Block) × (left : List Block) × (after ≡ tail ++ left)
      × IsSplit (align_up size minalign) (high_limit high) p free_list tail left

-- The outcome: nothing, with the list as it was, or an allocation.
abbrev pub IsServed : ℕ → ℕ → ℕ → ℕ → List Block → ℕ × List Block → Type 0
IsServed size k low high free_list r =
    (r ≡ (0, free_list)) ⊎ ((r.0 ≢ 0) × IsPlaced size k low high free_list r.0 r.1)

give-IsServed :
    (size k low high : ℕ) (free_list : List Block) (found : Option Found)
    → k < 64
    → size ≤ align_up size minalign
    → low ≤ low_limit low
    → 0 < low_limit low
    → high_limit high ≤ high
    → ((f : Found)
        → found ≡ some f
        → IsFound
            (align_up size minalign)
            (max (2 ^ k) minalign)
            (low_limit low)
            (high_limit high)
            free_list
            f)
    → IsServed size k low high free_list (give free_list found)
give-IsServed size k low high free_list none small le_size le_low pos le_high is_found = inl refl
give-IsServed size k low high free_list (some f) small le_size le_low pos le_high is_found =
    let h = is_found f refl in
    let asize = align_up size minalign in
    let aligned_to = max (2 ^ k) minalign in
    let place =
      Any-elim (λ b. IsBlock b × Fits asize aligned_to (low_limit low) (high_limit high) b f.start)
        ((f.start % 2 ^ k ≡ 0)
          × (low_limit low ≤ f.start)
          × (f.start + asize ≤ high_limit high + 1))
        (λ b q. (
          rw q.1.rounded (max-minalign k (first_in (low_limit low) b) small),
          q.1.ge_low,
          omega (arith, q.1.le_last, last_in-lt (high_limit high) b q.0),
        ))
        free_list h.fits in
    inr (
      omega (arith, place, pos),
      record {
        aligned = place.0;
        ge_low = omega (arith, place, le_low);
        le_high = omega (arith, place, le_size, le_high);
        in_block =
            Any-imp
              (λ b. IsBlock b × Fits asize aligned_to (low_limit low) (high_limit high) b f.start)
              (λ b. (b.addr ≤ f.start) × (f.start + size ≤ b.addr + b.size))
              (λ b q. (
                q.1.ge_addr,
                omega (arith, q.1.le_last, last_in-lt (high_limit high) b q.0, le_size),
              ))
              free_list h.fits;
        parts = (f.tail, f.left, refl, h.parts);
      },
    )

-- For blocks that are not empty and lie in the address space, an alignment `2 ^ k` with `k < 64`, a size and limits that
-- are words, and an upper limit of at least 31: `early_alloc_phys_range` gives 0 and leaves the list as it was, or it
-- gives the address of an allocation that is aligned and lies within the limits and in one of the blocks. Then no byte is
-- in more of the allocation, rounded up to 32 bytes, and the new blocks than it was in the old blocks, unless the
-- allocation ends where a block of the list or the upper limit does: there, a block of 2^64 - 1 bytes is put on the list.
pub early_alloc_phys_range-IsServed :
    (size k low high : ℕ) (free_list : List Block)
    → k < 64
    → IsWord size
    → IsWord low
    → IsWord high
    → 31 ≤ high
    → All IsBlock free_list
    → IsServed size k low high free_list (early_alloc_phys_range size (2 ^ k) low high free_list)
unfolding early_alloc_phys_range
early_alloc_phys_range-IsServed size k low high free_list small ws wl wh large h =
    elim (Bool-cases (low_limit low == 0)) [
      | inl e ↦ rw e (inl refl)
      | inr e ↦ elim (Bool-cases (align_up size minalign == 0)) [
        | inl g ↦ rw (e, g) (inl refl)
        | inr g ↦
            let ne_low = ==→ne (low_limit low) 0 e in
            let ne_size = ==→ne (align_up size minalign) 0 g in
            let pos : 0 < low_limit low = omega (arith, ne_low) in
            let le_high = high_limit-le high wh large in
            rw (e, g)
              (give-IsServed size k low high free_list _ small (size-le size ws ne_size)
                (low_limit-le low wl ne_low) pos le_high
                (λ f.
                  find_block-IsFound (align_up size minalign) (max (2 ^ k) minalign) (low_limit low)
                    (high_limit high) (omega (arith, ne_size)) pos (omega (arith, le_high, wh))
                    free_list f h))
      ]
    ]
