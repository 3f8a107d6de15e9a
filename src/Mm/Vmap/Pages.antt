-- ===== src/Mm/Vmap/Pages.antt =====
-- mm/vmap.cc: the loop of `vmap_io_range` over the pages.
use davix.Prelude.{
  ℕ, zero, suc, ◌+◌, ◌*◌, ◌%◌, ◌≤◌, ◌<◌, ◌≡◌, refl, ◌∙◌, ◌⊎◌, inl, inr, Bool, false, Option, some,
  arith, Bool-cases,
}
use davix.Prelude.Words.{word_mod, IsWord, add64}
use davix.Mm.Vmap.Map.{set_pte, Mapped, all_mapped, failed_at, map_pages}

-- How the loop ends: all pages are mapped in order, or those before `stop`, for which there is no entry; nothing else
-- has changed.
abbrev pub Maps : (ℕ → Bool) → ℕ → ℕ → ℕ → (ℕ → Option ℕ) → Mapped → Type 0
Maps get_pte n addr phys old (all_mapped ptes) =
    ((i : ℕ) → i < n → ptes (addr + i * 4096) ≡ some ((phys + i * 4096) % word_mod))
    × ((a : ℕ) → (a < addr) ⊎ (addr + n * 4096 ≤ a) → ptes a ≡ old a)
Maps get_pte n addr phys old (failed_at stop ptes) =
    (addr ≤ stop)
    × (stop ≤ addr + n * 4096)
    × (get_pte stop ≡ false)
    × ((a : ℕ) → (a < addr) ⊎ (stop ≤ a) → ptes a ≡ old a)

set_pte-same : (ptes : ℕ → Option ℕ) (addr phys : ℕ) → set_pte ptes addr phys addr ≡ some phys
set_pte-same ptes addr phys = ground arith

set_pte-other :
    (ptes : ℕ → Option ℕ) (addr phys a : ℕ)
    → (a < addr) ⊎ (addr + 4096 ≤ a)
    → set_pte ptes addr phys a ≡ ptes a
set_pte-other ptes addr phys a h = ground arith

mod_add : (a b : ℕ) → (a % word_mod + b) % word_mod ≡ (a + b) % word_mod
mod_add a b = omega arith

pages-suc :
    (n addr phys : ℕ) (ptes : ℕ → Option ℕ)
    → ptes addr ≡ some phys
    → IsWord phys
    → ((i : ℕ)
        → i < n
        → ptes (addr + 4096 + i * 4096) ≡ some (((phys + 4096) % word_mod + i * 4096) % word_mod))
    → (i : ℕ) → i < suc n
    → ptes (addr + i * 4096) ≡ some ((phys + i * 4096) % word_mod)
pages-suc n addr phys ptes e w h zero lt =
    let same : (phys + zero * 4096) % word_mod ≡ phys = omega arith in
    let here : addr + zero * 4096 ≡ addr = omega arith in rw (same, here) e
pages-suc n addr phys ptes e w h (suc i) lt =
    let here : addr + suc i * 4096 ≡ addr + 4096 + i * 4096 = omega arith in
    let there : (phys + suc i * 4096) % word_mod
        ≡ ((phys + 4096) % word_mod + i * 4096) % word_mod =
      omega arith in
    rw (here, there) (h i (omega arith))

Maps-suc :
    (get_pte : ℕ → Bool) (n addr phys : ℕ) (old : ℕ → Option ℕ) (m : Mapped)
    → IsWord phys
    → Maps get_pte n (addr + 4096) ((phys + 4096) % word_mod) (set_pte old addr phys) m
    → Maps get_pte (suc n) addr phys old m
Maps-suc get_pte n addr phys old (all_mapped ptes) w (h, k) = (
  pages-suc n addr phys ptes (k addr (inl (omega arith)) ∙ set_pte-same old addr phys) w h,
  λ a o. k a (ground arith) ∙ set_pte-other old addr phys a (ground arith),
)
Maps-suc get_pte n addr phys old (failed_at stop ptes) w (h, k, f, l) = (
  omega arith,
  omega arith,
  f,
  λ a o. l a (ground arith) ∙ set_pte-other old addr phys a (ground arith),
)

pub map_pages-Maps :
    (get_pte : ℕ → Bool) (n addr phys : ℕ) (old : ℕ → Option ℕ)
    → addr + n * 4096 < word_mod
    → IsWord phys
    → Maps get_pte n addr phys old (map_pages get_pte n addr phys old)
unfolding map_pages
map_pages-Maps get_pte zero addr phys old h w = (λ i lt. absurd (omega arith), λ a o. refl)
map_pages-Maps get_pte (suc n) addr phys old h w = elim (Bool-cases (get_pte addr)) [
  | inl e ↦
      let next : add64 addr 4096 ≡ addr + 4096 = omega arith in
      rw (e, next)
        (Maps-suc get_pte n addr phys old
          (map_pages get_pte n (addr + 4096) ((phys + 4096) % word_mod) (set_pte old addr phys)) w
          (map_pages-Maps get_pte n (addr + 4096) ((phys + 4096) % word_mod) (set_pte old addr phys)
            (omega arith) (omega arith)))
  | inr e ↦ rw e (omega arith, omega arith, e, λ a o. refl)
]
