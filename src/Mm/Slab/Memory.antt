-- ===== src/Mm/Slab/Memory.antt =====
-- Pointers in memory: eight bytes, the lowest one first.
use native.Mathlib.Nat.{pow-suc}
use davix.Prelude.{ℕ, zero, suc, ◌+◌, ◌*◌, ◌/◌, ◌%◌, ◌^◌, ◌≤◌, ◌<◌, ◌≡◌, refl, ◌∙◌, ◌⊎◌, inl, arith}
use davix.Prelude.Words.{IsWord}
use davix.Mm.PageAlloc.{update}

unfoldable pub load_bytes : ℕ → (ℕ → ℕ) → ℕ → ℕ
load_bytes zero bytes a = 0
load_bytes (suc n) bytes a = bytes a % 256 + 256 * load_bytes n bytes (a + 1)

unfoldable pub store_bytes : ℕ → (ℕ → ℕ) → ℕ → ℕ → ℕ → ℕ
store_bytes zero bytes a v = bytes
store_bytes (suc n) bytes a v = store_bytes n (update bytes a (v % 256)) (a + 1) (v / 256)

unfoldable pub load_word : (ℕ → ℕ) → ℕ → ℕ
load_word bytes a = load_bytes 8 bytes a

unfoldable pub store_word : (ℕ → ℕ) → ℕ → ℕ → ℕ → ℕ
store_word bytes a v = store_bytes 8 bytes a v

store_bytes-other :
    (n : ℕ) (bytes : ℕ → ℕ) (a v i : ℕ)
    → (i < a) ⊎ (a + n ≤ i)
    → store_bytes n bytes a v i ≡ bytes i
unfolding store_bytes
store_bytes-other zero bytes a v i h = refl
store_bytes-other (suc n) bytes a v i h =
    store_bytes-other n (update bytes a (v % 256)) (a + 1) (v / 256) i (ground arith) ∙ ground arith

load_bytes-same :
    (n : ℕ) (m m' : ℕ → ℕ) (a : ℕ)
    → ((i : ℕ) → a ≤ i → i < a + n → m i ≡ m' i)
    → load_bytes n m a ≡ load_bytes n m' a
unfolding load_bytes
load_bytes-same zero m m' a h = refl
load_bytes-same (suc n) m m' a h = omega (
  arith,
  h a (omega arith) (omega arith),
  load_bytes-same n m m' (a + 1) (λ i ge lt. h i (omega arith) (omega arith)),
)

load_bytes-store_bytes :
    (n : ℕ) (bytes : ℕ → ℕ) (a v : ℕ) → v < 256 ^ n → load_bytes n (store_bytes n bytes a v) a ≡ v
unfolding load_bytes store_bytes
load_bytes-store_bytes zero bytes a v h = omega arith
load_bytes-store_bytes (suc n) bytes a v h =
    let first =
      store_bytes-other n (update bytes a (v % 256)) (a + 1) (v / 256) a (inl (omega arith)) in
    let here : update bytes a (v % 256) a ≡ v % 256 = ground arith in
    let rest =
      load_bytes-store_bytes n (update bytes a (v % 256)) (a + 1) (v / 256)
        (omega (arith, pow-suc 256 n)) in
    omega (arith, first, here, rest)

pub load_word-same :
    (m m' : ℕ → ℕ) (a : ℕ)
    → ((i : ℕ) → a ≤ i → i < a + 8 → m i ≡ m' i)
    → load_word m a ≡ load_word m' a
unfolding load_word
load_word-same m m' a h = load_bytes-same 8 m m' a h

pub store_word-other :
    (bytes : ℕ → ℕ) (a v i : ℕ) → (i < a) ⊎ (a + 8 ≤ i) → store_word bytes a v i ≡ bytes i
unfolding store_word
store_word-other bytes a v i h = store_bytes-other 8 bytes a v i h

-- A word that is stored is the one that is loaded.
pub load_word-store_word :
    (bytes : ℕ → ℕ) (a v : ℕ) → IsWord v → load_word (store_word bytes a v) a ≡ v
unfolding load_word store_word
load_word-store_word bytes a v h = load_bytes-store_bytes 8 bytes a v (omega arith)
