-- ===== src/Mm/PageAlloc/Laws.antt =====
-- mm/page_alloc.cc: the invariant of the free lists, and what `alloc_page` takes from them.
use mathlib.Core.Path.{subst}
use davix.Prelude.{
  ℕ, zero, suc, ◌+◌, ◌%◌, ◌≤◌, ◌<◌, ◌⊎◌, ◌≡◌, sym, refl, ap, ◌∙◌, ◌≢◌, true, false, List, [], ◌∷◌,
  arith, length, All, All-imp, ◌==◌, Bool-cases, inl, inr, ==→eq, ==→ne,
}
use davix.Prelude.Words.{word_mod, sub64}
use davix.Mm.Zone.{phys_to_zone, zone_has_fallback, fallback_zone}
use davix.Mm.PageAlloc.Defs.{
  PageAlloc, update, page_zone, pop_zone, take_page, Taken, taken, empty, free_page,
}

-- No page twice.
abbrev pub Distinct : List ℕ → Type 0
Distinct [] = Unit
Distinct (x ∷ xs) = All (λ y. x ≢ y) xs × Distinct xs

-- The list of a zone and its counter: the list holds pages of that zone, each once, and the counter
-- is its length.
pub record IsZone (zone : ℕ) (pages : List ℕ) (count : ℕ) : Type 0 where
  pub counted : count ≡ length pages % word_mod
  pub homed : All (λ page. page_zone page ≡ zone) pages
  pub distinct : Distinct pages

abbrev pub total_length : (ℕ → List ℕ) → ℕ
total_length lists = length (lists 0) + length (lists 1) + length (lists 2)

pub record IsValid (s : PageAlloc) : Type 0 where
  pub zones : (z : ℕ) → IsZone z (s.free_list z) (s.count z)
  pub total : s.total_free_pages ≡ total_length s.free_list % word_mod

-- The page is on no free list.
abbrev pub IsTaken : ℕ → PageAlloc → Type 0
IsTaken page s = (z : ℕ) → All (λ y. page ≢ y) (s.free_list z)

pub update-same : {A : Type 0} (f : ℕ → A) (z : ℕ) (x : A) → update f z x z ≡ x
update-same f z x = ground arith

-- What holds at `z` for the new values and elsewhere for the old ones holds everywhere.
update-both :
    {A B : Type 0} (P : ℕ → A → B → Type 0) (f : ℕ → A) (g : ℕ → B) (z : ℕ) (x : A) (y : B)
    → ((j : ℕ) → P j (f j) (g j))
    → P z x y
    → (j : ℕ) → P j (update f z x j) (update g z y j)
update-both P f g z x y keep new j = elim (Bool-cases (z == j)) [
  | inl e ↦ rw e (subst (λ i. P i x y) (==→eq z j e) new)
  | inr e ↦ rw e (keep j)
]

total_length-update :
    (lists : ℕ → List ℕ) (z : ℕ) (xs : List ℕ)
    → z < 3
    → total_length (update lists z xs) + length (lists z) ≡ total_length lists + length xs
total_length-update lists zero xs h = ground arith
total_length-update lists (suc zero) xs h = ground arith
total_length-update lists (suc (suc zero)) xs h = ground arith
total_length-update lists (suc (suc (suc z))) xs h = absurd (omega arith)

pub page_zone-lt : (page : ℕ) → page_zone page < 3
unfolding page_zone phys_to_zone
page_zone-lt page = ground arith

-- If a state satisfies the invariant and a page is on no free list, the state after `free_page` of it
-- satisfies the invariant: the counters count the lists, and each
-- list holds pages of its zone, each once.
pub free_page-IsValid :
    (page : ℕ) (s : PageAlloc) → IsValid s → IsTaken page s → IsValid (free_page page s)
unfolding free_page
free_page-IsValid page s v t =
    let zone = page_zone page in
    let old = v.zones zone in
    record {
      zones = update-both IsZone s.free_list s.count zone _ _ v.zones (record {
        counted = omega (arith, old.counted);
        homed = (refl, old.homed);
        distinct = (t zone, old.distinct);
      });
      total = omega (
        arith,
        v.total,
        total_length-update s.free_list zone (page ∷ s.free_list zone) (page_zone-lt page),
      );
    }

-- What taking a page of some zone gives.
pub record IsTakenFrom (s : PageAlloc) (zone page : ℕ) (s' : PageAlloc) : Type 0 where
  pub valid : IsValid s'
  pub of_zone : page_zone page ≡ zone
  pub gone : IsTaken page s'
  pub rest : List ℕ
  pub head : s.free_list zone ≡ page ∷ rest
  pub lists : s'.free_list ≡ update s.free_list zone rest
  pub memory : s'.bytes ≡ s.bytes
  pub flags : s'.flags ≡ s.flags

All-zone_ne :
    (page z : ℕ) (xs : List ℕ)
    → page_zone page ≢ z
    → All (λ y. page_zone y ≡ z) xs
    → All (λ y. page ≢ y) xs
All-zone_ne page z xs ne a = All-imp (λ y e p. ne (ap page_zone p ∙ e)) xs a

pop_zone-IsTakenFrom :
    (zone page : ℕ) (rest : List ℕ) (s : PageAlloc)
    → zone < 3
    → IsValid s
    → s.free_list zone ≡ page ∷ rest
    → IsTakenFrom s zone page (record s {
      free_list = update s.free_list zone rest;
      count = update s.count zone (sub64 (s.count zone) 1);
      total_free_pages = sub64 s.total_free_pages 1;
    })
pop_zone-IsTakenFrom zone page rest s lt v e =
    let old : IsZone zone (page ∷ rest) (s.count zone) =
      subst (λ xs. IsZone zone xs (s.count zone)) e (v.zones zone) in
    let new : IsZone zone rest (sub64 (s.count zone) 1) = record {
      counted = omega (arith, old.counted);
      homed = old.homed.1;
      distinct = old.distinct.1;
    } in
    record {
      valid = record {
        zones = update-both IsZone s.free_list s.count zone rest _ v.zones new;
        total = omega (arith, v.total, total_length-update s.free_list zone rest lt, ap length e);
      };
      of_zone = old.homed.0;
      gone = λ z. elim (Bool-cases (zone == z)) [
        | inl q ↦ rw q old.distinct.0
        | inr q ↦ rw q (
            All-zone_ne page z (s.free_list z) (λ r. ==→ne zone z q (sym old.homed.0 ∙ r))
              (v.zones z).homed)
      ];
      rest = rest;
      head = e;
      lists = refl;
      memory = refl;
      flags = refl;
    }

-- How the loop ends from a zone: with the first page of the first list that is not empty, or without
-- one when all are empty.
pub data Search (s : PageAlloc) (zone : ℕ) : Taken → Type 0 where
  at_zone :
      {j page : ℕ} {s' : PageAlloc}
      → zone ≤ j
      → ((i : ℕ) → zone ≤ i → i < j → s.free_list i ≡ [])
      → IsTakenFrom s j page s'
      → Search s zone (taken page s')
  nowhere : ((i : ℕ) → zone ≤ i → i < 3 → s.free_list i ≡ []) → Search s zone empty

fallback-suc : (zone : ℕ) → zone < 3 → zone_has_fallback zone ≡ true → fallback_zone zone ≡ suc zone
unfolding zone_has_fallback fallback_zone
fallback-suc zone lt h = ground arith

no_fallback : (zone : ℕ) → zone < 3 → zone_has_fallback zone ≡ false → zone ≡ 2
unfolding zone_has_fallback
no_fallback zone lt h = ground arith

fallback_lt : (zone : ℕ) → zone < 3 → zone_has_fallback zone ≡ true → suc zone < 3
unfolding zone_has_fallback
fallback_lt zone lt h = ground arith

only_last : (zone i : ℕ) → zone < 3 → zone_has_fallback zone ≡ false → zone ≤ i → i < 3 → zone ≡ i
only_last zone i lt h le k = omega (arith, no_fallback zone lt h)

List-cases : (xs : List ℕ) → (xs ≡ []) ⊎ ((x : ℕ) × (ys : List ℕ) × (xs ≡ x ∷ ys))
List-cases [] = inl refl
List-cases (x ∷ xs) = inr (x, xs, refl)

empty_from :
    (s : PageAlloc) (zone k : ℕ)
    → s.free_list zone ≡ []
    → ((i : ℕ) → suc zone ≤ i → i < k → s.free_list i ≡ [])
    → (i : ℕ) → zone ≤ i
    → i < k
    → s.free_list i ≡ []
empty_from s zone k e rest i le lt = elim (Bool-cases (zone == i)) [
  | inl q ↦ subst (λ j. s.free_list j ≡ []) (==→eq zone i q) e
  | inr q ↦ rest i (omega (arith, ==→ne zone i q)) lt
]

Search-earlier :
    (s : PageAlloc) (zone : ℕ) (t : Taken)
    → s.free_list zone ≡ []
    → Search s (suc zone) t
    → Search s zone t
Search-earlier s zone t e (at_zone le between from) =
    at_zone (omega arith) (empty_from s zone _ e between) from
Search-earlier s zone t e (nowhere all) = nowhere (empty_from s zone 3 e all)

pub take_page-Search :
    (fuel zone : ℕ) (s : PageAlloc)
    → zone < 3
    → 3 ≤ zone + fuel
    → IsValid s
    → Search s zone (take_page fuel zone s)
unfolding take_page pop_zone
take_page-Search zero zone s lt enough v = absurd (omega arith)
take_page-Search (suc fuel) zone s lt enough v = elim (List-cases (s.free_list zone)) [
  | inl e ↦ rw e (elim (Bool-cases (zone_has_fallback zone)) [
    | inl f ↦ rw f (
        Search-earlier s zone _ e (
          subst (λ z. Search s (suc zone) (take_page fuel z s)) (sym (fallback-suc zone lt f))
            (take_page-Search fuel (suc zone) s (fallback_lt zone lt f) (omega arith) v)))
    | inr f ↦
        rw f (nowhere (λ i le h. subst (λ j. s.free_list j ≡ []) (only_last zone i lt f le h) e))
  ])
  | inr (page, rest, e) ↦ rw e (
      at_zone (omega arith) (λ i le h. absurd (omega arith))
        (pop_zone-IsTakenFrom zone page rest s lt v e))
]
