-- ===== src/Mm/Slab/Chain.antt =====
-- mm/slab.cc: the chain of the free objects of a page. Objects are known by their index in the page:
-- the object `i` is `size` bytes at `start + i * size` in physical memory.
use mathlib.Core.Path.{subst}
use davix.Prelude.{
  ℕ, zero, suc, ◌+◌, ◌*◌, ◌/◌, ◌≤◌, ◌<◌, ◌≡◌, refl, sym, ◌∙◌, ◌⊎◌, inl, List, [], ◌∷◌, arith, All,
}
use davix.Prelude.Words.{word_mod, add64, sub64}
use davix.Mm.Slab.{link_objects}
use davix.Mm.Slab.Memory.{
  load_word, store_word, load_word-same, store_word-other, load_word-store_word,
}

pub mul_gap : (i j size : ℕ) → i < j → i * size + size ≤ j * size
mul_gap i j size h = grind arith

pub mul_fits : (i size : ℕ) → 0 < size → i < 4096 / size → i * size + size ≤ 4096
mul_fits i size pos h = grind arith

-- The pointer leads to the objects of the list in order, and then to null.
abbrev pub Chain : (ℕ → ℕ) → ℕ → ℕ → ℕ → ℕ → List ℕ → Type 0
Chain bytes hhdm start size ptr [] = ptr ≡ 0
Chain bytes hhdm start size ptr (i ∷ xs) =
    (ptr ≡ hhdm + (start + i * size))
    × Chain bytes hhdm start size (load_word bytes (start + i * size)) xs

pub Chain-same :
    (m m' : ℕ → ℕ) (hhdm start size ptr : ℕ) (xs : List ℕ)
    → All (λ i. (k : ℕ) → start + i * size ≤ k → k < start + i * size + 8 → m k ≡ m' k) xs
    → Chain m hhdm start size ptr xs
    → Chain m' hhdm start size ptr xs
Chain-same m m' hhdm start size ptr [] a h = h
Chain-same m m' hhdm start size ptr (i ∷ xs) a h =
    let same = load_word-same m m' (start + i * size) a.0 in
    (
      h.0,
      rw (sym same) (Chain-same m m' hhdm start size (load_word m (start + i * size)) xs a.1 h.1),
    )

-- `n` numbers from `i` on.
abbrev pub upto : ℕ → ℕ → List ℕ
upto i zero = []
upto i (suc n) = i ∷ upto (suc i) n

-- The end of `i + n` objects, as the step of the loop needs it.
abbrev pub HasRoom : ℕ → ℕ → ℕ → ℕ → ℕ → Type 0
HasRoom hhdm start size i n = hhdm + (start + i * size) + n * size + 8 ≤ word_mod

sub64-hhdm : (hhdm a : ℕ) → hhdm + a < word_mod → sub64 (hhdm + a) hhdm ≡ a
sub64-hhdm hhdm a h = omega arith

add64-next :
    (hhdm start size i n : ℕ)
    → HasRoom hhdm start size i (suc n)
    → add64 (hhdm + (start + i * size)) size ≡ hhdm + (start + suc i * size)
add64-next hhdm start size i n h = grind arith

HasRoom-next :
    (hhdm start size i n : ℕ)
    → HasRoom hhdm start size i (suc n)
    → HasRoom hhdm start size (suc i) n
HasRoom-next hhdm start size i n h = grind arith

pub link_objects-other :
    (n hhdm start size i k : ℕ) (bytes : ℕ → ℕ)
    → 8 ≤ size
    → HasRoom hhdm start size i n
    → (k < start + i * size) ⊎ (start + i * size + n * size + 8 ≤ k)
    → link_objects n hhdm size (hhdm + (start + i * size)) bytes k ≡ bytes k
unfolding link_objects
link_objects-other zero hhdm start size i k bytes h room out =
    rw (sub64-hhdm hhdm (start + i * size) (omega arith))
      (store_word-other bytes (start + i * size) 0 k (ground arith))
link_objects-other (suc n) hhdm start size i k bytes h room out =
    let more = suc n * size in
    rw (add64-next hhdm start size i n room, sub64-hhdm hhdm (start + i * size) (omega arith))
      (link_objects-other n hhdm start size (suc i) k _ h (HasRoom-next hhdm start size i n room)
          (ground arith)
        ∙ store_word-other bytes (start + i * size) (hhdm + (start + suc i * size)) k
            (ground arith))

pub link_objects-Chain :
    (n hhdm start size i : ℕ) (bytes : ℕ → ℕ)
    → 8 ≤ size
    → HasRoom hhdm start size i n
    → Chain
        (link_objects n hhdm size (hhdm + (start + i * size)) bytes)
        hhdm
        start
        size
        (hhdm + (start + i * size))
        (upto i (suc n))
unfolding link_objects
link_objects-Chain zero hhdm start size i bytes h room =
    rw (sub64-hhdm hhdm (start + i * size) (omega arith))
      (refl, load_word-store_word bytes (start + i * size) 0 (omega arith))
link_objects-Chain (suc n) hhdm start size i bytes h room =
    let next = hhdm + (start + suc i * size) in
    let bytes' = store_word bytes (start + i * size) next in
    let here = HasRoom-next hhdm start size i n room in
    let same =
      load_word-same (link_objects n hhdm size next bytes') bytes' (start + i * size) (λ k ge lt.
        link_objects-other n hhdm start size (suc i) k bytes' h here (inl (grind arith)))
      ∙ load_word-store_word bytes (start + i * size) next (omega arith) in
    let step : link_objects n hhdm size next bytes'
        ≡ link_objects (suc n) hhdm size (hhdm + (start + i * size)) bytes =
      rw (add64-next hhdm start size i n room, sub64-hhdm hhdm (start + i * size) (omega arith))
        refl in
    subst (λ m. Chain m hhdm start size (hhdm + (start + i * size)) (upto i (suc (suc n)))) step
      (refl, rw same (link_objects-Chain n hhdm start size (suc i) bytes' h here))
