-- ===== src/Mm/Slab/Lists.antt =====
-- Lists of pages and of the indices of objects: an element taken out, and how long a list without
-- repetitions can be.
use davix.Prelude.{
  ℕ, zero, suc, ◌≤◌, ◌<◌, ◌≡◌, ◌≢◌, refl, sym, ap, ◌∙◌, ◌⊎◌, inl, inr, List, [], ◌∷◌, arith, All,
  All-imp, length, ◌==◌, Bool-cases, ==→eq, ==→ne,
}
use davix.Mm.PageAlloc.Laws.{Distinct}
use davix.Mm.Slab.{remove_page}

abbrev pub IsIn : ℕ → List ℕ → Type 0
IsIn x [] = ⊥
IsIn x (y ∷ ys) = (x ≡ y) ⊎ IsIn x ys

pub All-remove_page : (P : ℕ → Type 0) (x : ℕ) (xs : List ℕ) → All P xs → All P (remove_page x xs)
unfolding remove_page
All-remove_page P x [] h = h
All-remove_page P x (y ∷ ys) h = elim (Bool-cases (y == x)) [
  | inl e ↦ rw e (All-remove_page P x ys h.1)
  | inr e ↦ rw e (h.0, All-remove_page P x ys h.1)
]

pub Distinct-remove_page : (x : ℕ) (xs : List ℕ) → Distinct xs → Distinct (remove_page x xs)
unfolding remove_page
Distinct-remove_page x [] h = h
Distinct-remove_page x (y ∷ ys) h = elim (Bool-cases (y == x)) [
  | inl e ↦ rw e (Distinct-remove_page x ys h.1)
  | inr e ↦ rw e (All-remove_page (λ z. y ≢ z) x ys h.0, Distinct-remove_page x ys h.1)
]

pub remove_page-ne : (x : ℕ) (xs : List ℕ) → All (λ y. x ≢ y) (remove_page x xs)
unfolding remove_page
remove_page-ne x [] = tt
remove_page-ne x (y ∷ ys) = elim (Bool-cases (y == x)) [
  | inl e ↦ rw e (remove_page-ne x ys)
  | inr e ↦ rw e ((λ same. ==→ne y x e (sym same)), remove_page-ne x ys)
]

pub remove_page-absent : (x : ℕ) (xs : List ℕ) → All (λ y. x ≢ y) xs → remove_page x xs ≡ xs
unfolding remove_page
remove_page-absent x [] h = refl
remove_page-absent x (y ∷ ys) h = elim (Bool-cases (y == x)) [
  | inl e ↦ absurd (h.0 (sym (==→eq y x e)))
  | inr e ↦ rw e (ap (λ zs. y ∷ zs) (remove_page-absent x ys h.1))
]

pub IsIn-remove_page : (x y : ℕ) (xs : List ℕ) → y ≢ x → IsIn y xs → IsIn y (remove_page x xs)
unfolding remove_page
IsIn-remove_page x y [] ne h = h
IsIn-remove_page x y (z ∷ zs) ne h = elim (Bool-cases (z == x)) [
  | inl e ↦ rw e (elim h [
    | inl same ↦ absurd (ne (same ∙ ==→eq z x e))
    | inr there ↦ IsIn-remove_page x y zs ne there
  ])
  | inr e ↦
      rw e (elim h [ inl same ↦ inl same | inr there ↦ inr (IsIn-remove_page x y zs ne there) ])
]

pub All-IsIn : (P : ℕ → Type 0) (x : ℕ) (xs : List ℕ) → All P xs → IsIn x xs → P x
All-IsIn P x [] a h = absurd h
All-IsIn P x (y ∷ ys) a h = elim h [ inl e ↦ rw e a.0 | inr there ↦ All-IsIn P x ys a.1 there ]

pub length-remove_page :
    (x : ℕ) (xs : List ℕ) → Distinct xs → IsIn x xs → length xs ≡ suc (length (remove_page x xs))
unfolding remove_page
length-remove_page x [] d h = absurd h
length-remove_page x (y ∷ ys) d h = elim (Bool-cases (y == x)) [
  | inl e ↦
      rw (e, remove_page-absent x ys (All-imp (λ z ne same. ne (==→eq y x e ∙ same)) ys d.0)) refl
  | inr e ↦ rw e (elim h [
    | inl same ↦ absurd (==→ne y x e (sym same))
    | inr there ↦ ap suc (length-remove_page x ys d.1 there)
  ])
]

-- At most one element less.
shorter : (x : ℕ) (xs : List ℕ) → Distinct xs → length xs ≤ suc (length (remove_page x xs))
unfolding remove_page
shorter x [] d = omega arith
shorter x (y ∷ ys) d = elim (Bool-cases (y == x)) [
  | inl e ↦
      rw (e, remove_page-absent x ys (All-imp (λ z ne same. ne (==→eq y x e ∙ same)) ys d.0))
        (omega arith)
  | inr e ↦ rw e (omega (arith, shorter x ys d.1))
]

-- A list of different numbers below `n` has at most `n` elements.
pub length-Distinct : (n : ℕ) (xs : List ℕ) → Distinct xs → All (λ x. x < n) xs → length xs ≤ n
length-Distinct zero [] d a = omega arith
length-Distinct zero (x ∷ xs) d a = absurd (omega (arith, a.0))
length-Distinct (suc n) xs d a =
    let below : All (λ x. x < n) (remove_page n xs) =
      All-both n (remove_page n xs) (All-remove_page (λ x. x < suc n) n xs a)
        (remove_page-ne n xs) in
    omega (
      arith,
      shorter n xs d,
      length-Distinct n (remove_page n xs) (Distinct-remove_page n xs d) below,
    )
  where
    All-both :
        (n : ℕ) (xs : List ℕ) → All (λ x. x < suc n) xs → All (λ x. n ≢ x) xs → All (λ x. x < n) xs
    All-both n [] a b = tt
    All-both n (x ∷ xs) a b = (omega (arith, a.0, b.0), All-both n xs a.1 b.1)
