-- ===== src/Mm/PageAlloc/Defs.antt =====
-- mm/page_alloc.cc: the free lists of the three zones, `alloc_page` and `free_page`.
use davix.Prelude.{
  ℕ, zero, suc, ◌+◌, Bool, true, false, Option, none, some, List, [], ◌∷◌, ◌&&◌, if◌then◌else◌, ltb,
  leb, ◌==◌,
}
use davix.Prelude.Words.{add64, sub64, mul64}
use davix.Mm.Zone.{
  allocation_zone, phys_to_zone, zone_has_fallback, fallback_zone, has_flag, alloc_zero,
}

abbrev pub page_size : ℕ
page_size = 4096

-- `zone_list`, `total_free_pages`, the `flags` of the pages, and the bytes of physical memory.
pub record PageAlloc : Type 0 where
  pub free_list : ℕ → List ℕ
  pub count : ℕ → ℕ
  pub total_free_pages : ℕ
  pub flags : ℕ → ℕ
  pub bytes : ℕ → ℕ

abbrev pub update {ℓ} : {A : Type ℓ} → (ℕ → A) → ℕ → A → ℕ → A
update f i a j = if i == j then a else f j

unfoldable pub pgalloc_init : PageAlloc → PageAlloc
pgalloc_init s = record s { free_list = λ z. []; count = λ z. 0 }

unfoldable pub page_to_phys : ℕ → ℕ
page_to_phys page = mul64 page page_size

unfoldable pub page_zone : ℕ → ℕ
unfolding page_to_phys phys_to_zone
page_zone page = phys_to_zone (page_to_phys page)

-- `memset (p, 0, n)`
unfoldable pub zero_bytes : (ℕ → ℕ) → ℕ → ℕ → ℕ → ℕ
zero_bytes bytes start n i = if leb start i && ltb i (start + n) then 0 else bytes i

-- How the loop of `alloc_page` ends: with a page, with `return nullptr`, or not within the fuel.
pub data Taken : Type 0 where
  taken : ℕ → PageAlloc → Taken
  empty : Taken
  out_of_fuel : Taken

unfoldable pub pop_zone : ℕ → PageAlloc → List ℕ → Option (ℕ × PageAlloc)
pop_zone zone s [] = none
pop_zone zone s (page ∷ rest) = some (
  page,
  record s {
    free_list = update s.free_list zone rest;
    count = update s.count zone (sub64 (s.count zone) 1);
    total_free_pages = sub64 s.total_free_pages 1;
  },
)

-- One round of the loop, with what the next one would give.
abbrev pub or_fallback : Option (ℕ × PageAlloc) → Bool → Taken → Taken
or_fallback (some (page, s')) has_fallback next = taken page s'
or_fallback none true next = next
or_fallback none false next = empty

unfoldable pub take_page : ℕ → ℕ → PageAlloc → Taken
take_page zero zone s = out_of_fuel
take_page (suc fuel) zone s =
    or_fallback (pop_zone zone s (s.free_list zone)) (zone_has_fallback zone)
      (take_page fuel (fallback_zone zone) s)

unfoldable pub finish_page : ℕ → PageAlloc → Taken → Option ℕ × PageAlloc
finish_page aclass s (taken page s') = (
  some page,
  if has_flag aclass alloc_zero
      then record s' { bytes = zero_bytes s'.bytes (page_to_phys page) page_size }
      else s',
)
finish_page aclass s empty = (none, s)
finish_page aclass s out_of_fuel = (none, s)

-- Three rounds are enough: the longest chain of fallbacks has three zones.
unfoldable pub alloc_page : ℕ → PageAlloc → Option ℕ × PageAlloc
alloc_page aclass s = finish_page aclass s (take_page 3 (allocation_zone aclass) s)

unfoldable pub free_page : ℕ → PageAlloc → PageAlloc
free_page page s =
    let zone = page_zone page in
    record s {
      flags = update s.flags page 0;
      free_list = update s.free_list zone (page ∷ s.free_list zone);
      count = update s.count zone (add64 (s.count zone) 1);
      total_free_pages = add64 s.total_free_pages 1;
    }
