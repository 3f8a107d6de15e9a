-- ===== src/Mm/PageAlloc/Allocate.antt =====
-- mm/page_alloc.cc: what `alloc_page` promises.
use mathlib.Core.Path.{subst}
use davix.Prelude.{
  Bool, if◌then◌else◌, ℕ, ◌+◌, ◌≤◌, ◌<◌, ◌≡◌, sym, refl, ap, ◌∙◌, true, false, Bool-cases, ==→eq,
  ltb→lt, ltb→ge, ◌==◌, ◌&&◌, Option, none, some, List, [], ◌∷◌, arith, inl, inr, ltb, leb,
}
use davix.Mm.Zone.{
  allocation_zone, phys_to_zone, zone_maxaddr, has_flag, alloc_zero, phys_to_zone_iff,
}
use davix.Mm.PageAlloc.Defs.{
  PageAlloc, update, page_zone, page_to_phys, page_size, zero_bytes, Taken, finish_page, alloc_page,
  free_page,
}
use davix.Mm.PageAlloc.Laws.{
  IsValid, IsTaken, IsTakenFrom, Search, at_zone, nowhere, take_page-Search, page_zone-lt,
  update-same, free_page-IsValid,
}

-- What a caller gets: the first page of the first list that is not empty among the requested zone and
-- its fallbacks, or nothing when these are all empty, with the state as it was.
abbrev pub Allocates : ℕ → PageAlloc → Option ℕ × PageAlloc → Type 0
Allocates zone s (none, s') = (s' ≡ s) × ((i : ℕ) → zone ≤ i → i < 3 → s.free_list i ≡ [])
Allocates zone s (some page, s') =
    IsValid s'
    × IsTaken page s'
    × (zone ≤ page_zone page)
    × ((i : ℕ) → zone ≤ i → i < page_zone page → s.free_list i ≡ [])
    × (rest : List ℕ) × (s.free_list (page_zone page) ≡ page ∷ rest)
    × (s'.free_list ≡ update s.free_list (page_zone page) rest)

found-Allocates :
    (b : Bool) (zone page : ℕ) (s s' : PageAlloc) (memory : ℕ → ℕ)
    → zone ≤ page_zone page
    → ((i : ℕ) → zone ≤ i → i < page_zone page → s.free_list i ≡ [])
    → IsTakenFrom s (page_zone page) page s'
    → Allocates zone s (some page, if b then record s' { bytes = memory } else s')
found-Allocates true zone page s s' memory le between from = (
  record { zones = from.valid.zones; total = from.valid.total },
  from.gone,
  le,
  between,
  from.rest,
  from.head,
  from.lists,
)
found-Allocates false zone page s s' memory le between from =
    (from.valid, from.gone, le, between, from.rest, from.head, from.lists)

finish-Allocates :
    (aclass zone : ℕ) (s : PageAlloc) (t : Taken)
    → Search s zone t
    → Allocates zone s (finish_page aclass s t)
unfolding finish_page
finish-Allocates aclass zone s _ (at_zone {page = page} {s' = s'} le between from) =
    let memory = zero_bytes s'.bytes (page_to_phys page) page_size in
    let (le', between', from') =
      subst
        (λ k.
          (zone ≤ k) × ((i : ℕ) → zone ≤ i → i < k → s.free_list i ≡ []) × IsTakenFrom s k page s')
        (sym from.of_zone) (le, between, from) in
    found-Allocates (has_flag aclass alloc_zero) zone page s s' memory le' between' from'
finish-Allocates aclass zone s _ (nowhere all) = (refl, all)

allocation_zone-lt : (aclass : ℕ) → allocation_zone aclass < 3
unfolding allocation_zone
allocation_zone-lt aclass = ground arith

-- From a state that satisfies the invariant, `alloc_page` takes the first page of the first list that
-- is not empty, of the requested zone and its fallbacks in order, and keeps the invariant; when these
-- lists are all empty it returns nothing and leaves the state as it was.
pub alloc_page-Allocates :
    (aclass : ℕ) (s : PageAlloc)
    → IsValid s
    → Allocates (allocation_zone aclass) s (alloc_page aclass s)
unfolding alloc_page
alloc_page-Allocates aclass s v =
    finish-Allocates aclass (allocation_zone aclass) s _
      (take_page-Search 3 (allocation_zone aclass) s (allocation_zone-lt aclass) (omega arith) v)

zone_maxaddr_mono : (z w : ℕ) → z ≤ w → zone_maxaddr w ≤ zone_maxaddr z
unfolding zone_maxaddr
zone_maxaddr_mono z w h = ground arith

page-maxaddr : (page : ℕ) → page_to_phys page ≤ zone_maxaddr (page_zone page)
unfolding page_zone page_to_phys
page-maxaddr page =
    let p = page_to_phys page in
    ((phys_to_zone_iff (phys_to_zone p) p (page_zone-lt page) (omega arith)).0 refl).1

some-Allocates :
    (zone page : ℕ) (s : PageAlloc) (r : Option ℕ × PageAlloc)
    → Allocates zone s r
    → r.0 ≡ some page
    → zone ≤ page_zone page
some-Allocates zone page s (none, s') a e = cc
some-Allocates zone page s (some p, s') a e =
    let same : p ≡ page = cc in subst (λ t. zone ≤ page_zone t) same a.2

-- From a state that satisfies the invariant, a page that `alloc_page` returns begins at an address
-- that is not above the highest address of the requested zone.
pub alloc_page-maxaddr :
    (aclass page : ℕ) (s : PageAlloc)
    → IsValid s
    → (alloc_page aclass s).0 ≡ some page
    → page_to_phys page ≤ zone_maxaddr (allocation_zone aclass)
alloc_page-maxaddr aclass page s v e =
    let le = some-Allocates _ page s _ (alloc_page-Allocates aclass s v) e in
    omega (arith, page-maxaddr page, zone_maxaddr_mono _ _ le)

zeroed :
    (b : Bool) (i p page : ℕ) (s s' : PageAlloc)
    → s'.bytes ≡ s.bytes
    → p ≡ page
    → (if b then record s' { bytes = zero_bytes s'.bytes (page_to_phys p) page_size } else s').bytes
        i
      ≡ (if b then zero_bytes s.bytes (page_to_phys page) page_size i else s.bytes i)
zeroed true i p page s s' m e = rw e (ap (λ f. zero_bytes f (page_to_phys page) page_size i) m)
zeroed false i p page s s' m e = ap (λ f. f i) m

finish-bytes :
    (aclass zone page i : ℕ) (s : PageAlloc) (t : Taken)
    → Search s zone t
    → (finish_page aclass s t).0 ≡ some page
    → (finish_page aclass s t).1.bytes i ≡ (
        if has_flag aclass alloc_zero
        then zero_bytes s.bytes (page_to_phys page) page_size i
        else s.bytes i)
unfolding finish_page
finish-bytes aclass zone page i s _ (at_zone {page = p} {s' = s'} le between from) e =
    zeroed (has_flag aclass alloc_zero) i p page s s' from.memory cc
finish-bytes aclass zone page i s _ (nowhere all) e = cc

if-both :
    (b c : Bool) (x y : ℕ) → (if b then (if c then x else y) else y) ≡ (if b && c then x else y)
if-both true c x y = refl
if-both false c x y = refl

-- From a state that satisfies the invariant, when `alloc_page` returns a page, then under the zero flag
-- every byte of that page is zero; all other bytes of memory are as before, and without the flag all
-- bytes are.
pub alloc_page-bytes :
    (aclass page i : ℕ) (s : PageAlloc)
    → IsValid s
    → (alloc_page aclass s).0 ≡ some page
    → (alloc_page aclass s).1.bytes i ≡ (
        if has_flag aclass alloc_zero
          && (leb (page_to_phys page) i && ltb i (page_to_phys page + 4096))
        then 0
        else s.bytes i)
unfolding alloc_page zero_bytes
alloc_page-bytes aclass page i s v e =
    let bytes =
      finish-bytes aclass (allocation_zone aclass) page i s _
        (take_page-Search 3 (allocation_zone aclass) s (allocation_zone-lt aclass) (omega arith) v)
        e in
    bytes ∙ if-both (has_flag aclass alloc_zero) _ 0 (s.bytes i)

finish-flags :
    (aclass zone : ℕ) (s : PageAlloc) (t : Taken)
    → Search s zone t
    → (finish_page aclass s t).1.flags ≡ s.flags
unfolding finish_page
finish-flags aclass zone s _ (at_zone le between from) =
    elim (Bool-cases (has_flag aclass alloc_zero)) [
      | inl e ↦ rw e from.flags
      | inr e ↦ rw e from.flags
    ]
finish-flags aclass zone s _ (nowhere all) = refl

pub alloc_page-flags :
    (aclass : ℕ) (s : PageAlloc) → IsValid s → (alloc_page aclass s).1.flags ≡ s.flags
unfolding alloc_page
alloc_page-flags aclass s v =
    finish-flags aclass (allocation_zone aclass) s _
      (take_page-Search 3 (allocation_zone aclass) s (allocation_zone-lt aclass) (omega arith) v)

nonempty : (xs : List ℕ) (p : ℕ) (rest : List ℕ) → xs ≡ p ∷ rest → xs ≡ [] → ⊥
nonempty xs p rest e g = cc

update-back :
    (f g : ℕ → List ℕ) (zone : ℕ) (xs : List ℕ)
    → g ≡ update f zone xs
    → (z : ℕ) → update g zone (f zone) z ≡ f z
update-back f g zone xs e z =
    rw e
      (elim (Bool-cases (zone == z)) [ inl q ↦ rw q (ap f (==→eq zone z q)) | inr q ↦ rw q refl ])

-- The next allocation from a zone whose list begins with `page`.
takes_first :
    (zone page : ℕ) (s s1 : PageAlloc) (r : Option ℕ × PageAlloc)
    → zone < 3
    → Allocates zone s1 r
    → s1.free_list ≡ update s.free_list zone (page ∷ s.free_list zone)
    → (r.0 ≡ some page) × ((z : ℕ) → r.1.free_list z ≡ s.free_list z)
takes_first zone page s s1 (none, s') lt a e =
    let first = ap (λ f. f zone) e ∙ update-same s.free_list zone _ in
    let last = a.1 zone (omega arith) lt in absurd (nonempty _ page _ first last)
takes_first zone page s s1 (some p, s') lt (valid, gone, le, between, rest, head, lists) e =
    let first = ap (λ f. f zone) e ∙ update-same s.free_list zone _ in
    let here : page_zone p ≡ zone = elim (Bool-cases (ltb zone (page_zone p))) [
      | inl b ↦
          absurd
            (nonempty _ page _ first (between zone (omega arith) (ltb→lt zone (page_zone p) b)))
      | inr b ↦ omega (arith, ltb→ge zone (page_zone p) b, le)
    ] in
    let heads : page ∷ s.free_list zone ≡ p ∷ rest =
      sym first ∙ subst (λ z. s1.free_list z ≡ p ∷ rest) here head in
    let tail : rest ≡ s.free_list zone = cc in
    let lists' : s'.free_list ≡ update s1.free_list zone (s.free_list zone) =
      subst (λ r. s'.free_list ≡ update s1.free_list zone r) tail
        (subst (λ z. s'.free_list ≡ update s1.free_list z rest) here lists) in
    (cc, λ z. ap (λ f. f z) lists' ∙ update-back s.free_list s1.free_list zone _ e z)

-- From a state that satisfies the invariant, a page that is on no free list and whose zone is the
-- requested one, when returned, is the page that the next `alloc_page` takes, and every free list is
-- then as it was at first.
pub alloc_page-free_page :
    (aclass page : ℕ) (s : PageAlloc)
    → IsValid s
    → IsTaken page s
    → page_zone page ≡ allocation_zone aclass
    → ((alloc_page aclass (free_page page s)).0 ≡ some page)
      × ((z : ℕ) → (alloc_page aclass (free_page page s)).1.free_list z ≡ s.free_list z)
unfolding free_page
alloc_page-free_page aclass page s v t e =
    takes_first (allocation_zone aclass) page s (free_page page s) _ (allocation_zone-lt aclass)
      (alloc_page-Allocates aclass _ (free_page-IsValid page s v t)) (rw e refl)

-- From a state that satisfies the invariant, a page that `alloc_page` returns begins at an address that is
-- not above the highest address of the requested zone; under the zero flag every byte of it is zero, and all other bytes
-- of memory are as before, and without the flag all bytes are.
pub alloc_page-given :
    (aclass page i : ℕ) (s : PageAlloc)
    → IsValid s
    → (alloc_page aclass s).0 ≡ some page
    → (page_to_phys page ≤ zone_maxaddr (allocation_zone aclass))
      × ((alloc_page aclass s).1.bytes i ≡ (
          if has_flag aclass alloc_zero
            && (leb (page_to_phys page) i && ltb i (page_to_phys page + 4096))
          then 0
          else s.bytes i))
alloc_page-given aclass page i s v e =
    (alloc_page-maxaddr aclass page s v e, alloc_page-bytes aclass page i s v e)
