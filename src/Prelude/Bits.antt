-- ===== src/Prelude/Bits.antt =====
-- `&` at every width, from its law for the lowest digit: a mask of low bits is a remainder, and a
-- mask of high bits rounds down.
use Prim.Native.Nat.{
  ℕ, zero, suc, ◌+◌, ◌-◌, ◌*◌, ◌/◌, ◌%◌, ◌^◌, ◌≤◌, ◌<◌, min, bit_and, digits, bit_and-bitwise,
}
use mathlib.Core.Path.{◌≡◌, refl, ap}
use native.Mathlib.Nat.{pow-suc, one-le-pow}
use native.Mathlib.Omega.{arith}

-- What the native operation stands for: at most `n` rounds over the binary digits.
abbrev rounds : ℕ → ℕ → ℕ → ℕ
rounds n x y = digits (λ rest. 0) min n x y

-- Any number of rounds that is not below the first operand gives the same, by recursion on a bound
-- `m` of that number.
rounds_enough : (m n x y : ℕ) → n ≤ m → x ≤ n → rounds n x y ≡ bit_and x y
rounds_enough m zero zero y top low = omega (arith, bit_and-bitwise 0 y)
rounds_enough m (suc n) zero y top low = omega (arith, bit_and-bitwise 0 y)
rounds_enough m zero (suc x) y top low = absurd (omega arith)
rounds_enough zero (suc n) (suc x) y top low = absurd (omega arith)
rounds_enough (suc m) (suc n) (suc x) y top low =
    let half = suc x / 2 in
    let long = rounds_enough m n half (y / 2) (omega arith) (omega arith) in
    let short = rounds_enough m x half (y / 2) (omega arith) (omega arith) in
    omega (arith, long, short, bit_and-bitwise (suc x) y)

-- The lowest digit apart from the others.
bit_and-halves : (x y : ℕ) → bit_and x y ≡ bit_and (x / 2) (y / 2) * 2 + min (x % 2) (y % 2)
bit_and-halves zero y =
    let none_left = bit_and-bitwise 0 (y / 2) in omega (arith, none_left, bit_and-bitwise 0 y)
bit_and-halves (suc x) y =
    let others = rounds_enough x x (suc x / 2) (y / 2) (omega arith) (omega arith) in
    omega (arith, others, bit_and-bitwise (suc x) y)

rounds-zero : (n x : ℕ) → rounds n x 0 ≡ 0
rounds-zero zero x = refl
rounds-zero (suc n) zero = refl
rounds-zero (suc n) (suc x) = omega (arith, rounds-zero n (suc x / 2))

bit_and-zero : (x : ℕ) → bit_and x 0 ≡ 0
bit_and-zero x = omega (arith, rounds_enough x x x 0 (omega arith) (omega arith), rounds-zero x x)

-- `w` ones above `k` zeros, of a number `q * 2 ^ k + r` that has at most `w + k` digits.
mask_high : (w q : ℕ) → q < 2 ^ w → bit_and q (2 ^ w - 1) ≡ q
mask_high zero q h = omega (arith, bit_and-zero q)
mask_high (suc w) q h =
    ground
      (arith, pow-suc 2 w, one-le-pow w 2, bit_and-halves q (2 ^ suc w - 1), mask_high w (q / 2))

abbrev pub high_mask : ℕ → ℕ → ℕ
high_mask w k = (2 ^ w - 1) * 2 ^ k

pub bit_and-high_mask :
    (w k q r : ℕ) → q < 2 ^ w → r < 2 ^ k → bit_and (q * 2 ^ k + r) (high_mask w k) ≡ q * 2 ^ k
bit_and-high_mask w zero q r h fits = ground (arith, mask_high w q)
bit_and-high_mask w (suc k) q r h fits = ground (
  arith,
  pow-suc 2 k,
  ap (λ (t : ℕ). q * t) (pow-suc 2 k),
  ap (λ (t : ℕ). (2 ^ w - 1) * t) (pow-suc 2 k),
  bit_and-halves (q * 2 ^ suc k + r) (high_mask w (suc k)),
  bit_and-high_mask w k q (r / 2),
)
