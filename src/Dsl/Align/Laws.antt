-- ===== src/Dsl/Align/Laws.antt =====
-- What rounding to a power of two gives, the wrap-around of `align_up` included.
use davix.Prelude.{
  ℕ, zero, suc, ◌+◌, ◌-◌, ◌*◌, ◌/◌, ◌%◌, ◌^◌, ◌≤◌, ◌<◌, bit_and, ◌≡◌, ap, ◌∙◌, arith, high_mask,
  bit_and-high_mask,
}
use davix.Prelude.Words.{word_mod, add64, not64, IsWord}
use davix.Dsl.Align.{mask_of, align_up, align_down}
use native.Mathlib.Nat.{pow-suc, one-le-pow, mul-mod_left}

pub pow-add : (w k : ℕ) → 2 ^ w * 2 ^ k ≡ 2 ^ (w + k)
pow-add w zero = ground arith
pow-add w (suc k) =
    ground
      (arith, pow-suc 2 k, pow-suc 2 (w + k), ap (λ (t : ℕ). 2 ^ w * t) (pow-suc 2 k), pow-add w k)

pub pow-split : (k : ℕ) → k ≤ 64 → 2 ^ (64 - k) * 2 ^ k ≡ word_mod
pow-split k h = pow-add (64 - k) k ∙ ap (λ (t : ℕ). 2 ^ t) {y = 64} (omega arith)

pub pow_pos : (k : ℕ) → 0 < 2 ^ k
pow_pos k = one-le-pow k 2 (omega arith)

mask_of-pow : (k : ℕ) → mask_of (2 ^ k) ≡ 2 ^ k - 1
unfolding mask_of
mask_of-pow k = ground (arith, pow_pos k)

complement_of_product : (a p w : ℕ) → 0 < a → a * p ≡ w → w - 1 - (p - 1) ≡ (a - 1) * p
complement_of_product zero p w pos h = absurd (omega arith)
complement_of_product (suc a) zero w pos h = omega arith
complement_of_product (suc a) (suc p) w pos h = grind arith

-- `~(2 ^ k - 1)` has `64 - k` ones above `k` zeros.
not64-mask : (k : ℕ) → k ≤ 64 → not64 (2 ^ k - 1) ≡ high_mask (64 - k) k
not64-mask k h =
    complement_of_product (2 ^ (64 - k)) (2 ^ k) word_mod (pow_pos (64 - k)) (pow-split k h)

div-lt : (a b p : ℕ) → 0 < p → a < b * p → a / p < b
div-lt a b p pos h = grind arith

bit_and-mask :
    (k v : ℕ) → k ≤ 64 → IsWord v → bit_and v (not64 (mask_of (2 ^ k))) ≡ v / 2 ^ k * 2 ^ k
bit_and-mask k v h w = rw (mask_of-pow k) (
    rw (not64-mask k h) (
      ap (λ (t : ℕ). bit_and t (high_mask (64 - k) k)) {y = v / 2 ^ k * 2 ^ k + v % 2 ^ k}
        (grind arith)
      ∙ bit_and-high_mask (64 - k) k (v / 2 ^ k) (v % 2 ^ k)
          (div-lt v (2 ^ (64 - k)) (2 ^ k) (pow_pos k) (rw (pow-split k h) w))
          (omega (arith, pow_pos k))))

-- Facts about a modulus `p`, which is `2 ^ k` below.
module _ (p : ℕ) (pos : 0 < p) where
  round_down_greatest :
      (v x : ℕ) → (v / p * p ≤ v) × ((v / p * p) % p ≡ 0) × (x ≤ v → x % p ≡ 0 → x ≤ v / p * p)
  round_down_greatest v x = (grind arith, grind arith, λ h e. grind arith)

  round_up_least :
      (v x : ℕ)
      → (v ≤ (v + (p - 1)) / p * p)
        × (((v + (p - 1)) / p * p) % p ≡ 0)
        × (v ≤ x → x % p ≡ 0 → (v + (p - 1)) / p * p ≤ x)
  round_up_least v x = (grind arith, grind arith, λ h e. grind arith)

  no_overflow : (m v x : ℕ) → v ≤ x → x % p ≡ 0 → x < m * p → v + (p - 1) < m * p
  no_overflow m v x h e lt = grind arith

pub align_down_lem : (k v : ℕ) → k < 64 → IsWord v → align_down v (2 ^ k) ≡ v / 2 ^ k * 2 ^ k
unfolding align_down
align_down_lem k v h w = bit_and-mask k v (omega arith) w

pub align_up_lem : (k v : ℕ) → k < 64 → align_up v (2 ^ k) ≡ add64 v (2 ^ k - 1) / 2 ^ k * 2 ^ k
unfolding align_up
align_up_lem k v h =
    bit_and-mask k (add64 v (mask_of (2 ^ k))) (omega arith) (omega arith) ∙ rw (mask_of-pow k)

pub align_up-mod : (k v : ℕ) → k < 64 → align_up v (2 ^ k) % 2 ^ k ≡ 0
align_up-mod k v h = rw (align_up_lem k v h) (mul-mod_left _ (2 ^ k))

pub align_up-IsWord : (k v : ℕ) → k < 64 → IsWord (align_up v (2 ^ k))
align_up-IsWord k v h =
    rw (align_up_lem k v h)
      (omega (arith, (round_down_greatest (2 ^ k) (pow_pos k) (add64 v (2 ^ k - 1)) 0).0))

-- Rounding a word down to a power of two gives the greatest multiple of it that is not above the
-- word: it is at most `v`, a multiple, and at least every multiple `x` that is at most `v`.
pub align_down_greatest :
    (k v x : ℕ)
    → k < 64
    → IsWord v
    → x ≤ v
    → x % 2 ^ k ≡ 0
    → (align_down v (2 ^ k) ≤ v) × (align_down v (2 ^ k) % 2 ^ k ≡ 0) × (x ≤ align_down v (2 ^ k))
align_down_greatest k v x h w le e =
    let d = round_down_greatest (2 ^ k) (pow_pos k) v x in
    rw (align_down_lem k v h w) (d.0, d.1, d.2 le e)

-- If some word that is a multiple of a power of two is not below `v`, rounding `v` up gives the
-- least such word.
pub align_up_least :
    (k v x : ℕ)
    → k < 64
    → IsWord x
    → v ≤ x
    → x % 2 ^ k ≡ 0
    → (v ≤ align_up v (2 ^ k)) × (align_up v (2 ^ k) % 2 ^ k ≡ 0) × (align_up v (2 ^ k) ≤ x)
align_up_least k v x h w le e =
    let d = round_up_least (2 ^ k) (pow_pos k) v x in
    let fits : v + (2 ^ k - 1) < word_mod = rw (pow-split k (omega arith)) at (
      no_overflow (2 ^ k) (pow_pos k) (2 ^ (64 - k)) v x le e (rw (pow-split k (omega arith)) w)) in
    let sum : add64 v (2 ^ k - 1) ≡ v + (2 ^ k - 1) = omega arith in
    rw (align_up_lem k v h) (rw sum (d.0, d.1, d.2 le e))

-- If rounding `v` up to a power of two would pass the last word, the result is 0.
pub align_up_overflow :
    (k v : ℕ) → k < 64 → IsWord v → word_mod ≤ v + (2 ^ k - 1) → align_up v (2 ^ k) ≡ 0
align_up_overflow k v h w over =
    rw (align_up_lem k v h) (grind (arith, pow-split k (omega arith), pow_pos k))

-- For a value between two multiples `y` and `x` of a power of two that are words, rounding it up gives the least
-- multiple that is not below it, and rounding it down the greatest that is not above it.
pub align-nearest :
    (k v x y : ℕ)
    → k < 64
    → IsWord x
    → v ≤ x
    → x % 2 ^ k ≡ 0
    → y ≤ v
    → y % 2 ^ k ≡ 0
    → ((v ≤ align_up v (2 ^ k)) × (align_up v (2 ^ k) % 2 ^ k ≡ 0) × (align_up v (2 ^ k) ≤ x))
      × (align_down v (2 ^ k) ≤ v)
      × (align_down v (2 ^ k) % 2 ^ k ≡ 0)
      × (y ≤ align_down v (2 ^ k))
align-nearest k v x y h w le e ge f =
    let up = align_up_least k v x h w le e in
    let down = align_down_greatest k v y h (omega (arith, w, le)) ge f in
    (up, down.0, down.1, down.2)
