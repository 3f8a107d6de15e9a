-- ===== src/Tests/PageAlloc.antt =====
-- The theorems on mm/page_alloc.cc at a state with two pages of the middle zone and one of the lowest.
use davix.Prelude.{ℕ, zero, suc, ◌≡◌, refl, some, List, [], ◌∷◌, arith}
use davix.Mm.Zone.{allocation_zone, phys_to_zone, zone_has_fallback, fallback_zone}
use davix.Mm.PageAlloc.{
  PageAlloc, page_zone, page_to_phys, pop_zone, take_page, finish_page, alloc_page, free_page,
}
use davix.Mm.PageAlloc.Laws.{IsZone, IsValid, IsTaken, free_page-IsValid}
use davix.Mm.PageAlloc.Allocate.{Allocates, alloc_page-Allocates, alloc_page-free_page}

abbrev lists : ℕ → List ℕ
lists zero = []
lists (suc zero) = 300 ∷ 301 ∷ []
lists (suc (suc zero)) = 7 ∷ []
lists (suc (suc (suc z))) = []

abbrev counts : ℕ → ℕ
counts zero = 0
counts (suc zero) = 2
counts (suc (suc zero)) = 1
counts (suc (suc (suc z))) = 0

abbrev sample : PageAlloc
sample = record {
  free_list = lists;
  count = counts;
  total_free_pages = 3;
  flags = λ page. 0;
  bytes = λ i. 5;
}

sample-IsZone : (z : ℕ) → IsZone z (lists z) (counts z)
unfolding page_zone page_to_phys phys_to_zone
sample-IsZone zero = record { counted = refl; homed = tt; distinct = tt }
sample-IsZone (suc zero) = record {
  counted = refl;
  homed = (refl, (refl, tt));
  distinct = ((omega arith, tt), (tt, tt));
}
sample-IsZone (suc (suc zero)) = record { counted = refl; homed = (refl, tt); distinct = (tt, tt) }
sample-IsZone (suc (suc (suc z))) = record { counted = refl; homed = tt; distinct = tt }

sample-IsValid : IsValid sample
sample-IsValid = record { zones = sample-IsZone; total = refl }

sample-IsTaken : IsTaken 900 sample
sample-IsTaken zero = tt
sample-IsTaken (suc zero) = (omega arith, (omega arith, tt))
sample-IsTaken (suc (suc zero)) = (omega arith, tt)
sample-IsTaken (suc (suc (suc z))) = tt

free_page-IsValid_example : IsValid (free_page 900 sample)
free_page-IsValid_example = free_page-IsValid 900 sample sample-IsValid sample-IsTaken

alloc_page-Allocates_example : Allocates (allocation_zone 1) sample (alloc_page 1 sample)
alloc_page-Allocates_example = alloc_page-Allocates 1 sample sample-IsValid

takes_300 : (alloc_page 1 sample).0 ≡ some 300
unfolding alloc_page take_page pop_zone finish_page allocation_zone zone_has_fallback fallback_zone
takes_300 = refl

alloc_page-free_page_example :
    ((alloc_page 1073741824 (free_page 900 sample)).0 ≡ some 900)
    × ((z : ℕ) → (alloc_page 1073741824 (free_page 900 sample)).1.free_list z ≡ sample.free_list z)
unfolding page_zone page_to_phys phys_to_zone allocation_zone
alloc_page-free_page_example =
    alloc_page-free_page 1073741824 900 sample sample-IsValid sample-IsTaken refl
