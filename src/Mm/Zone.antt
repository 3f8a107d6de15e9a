-- ===== src/Mm/Zone.antt =====
-- arch/x86/include/asm/zone.h and include/davix/allocation_class.h: zones are the integers 0 to 2.
use davix.Prelude.{
  ℕ, ◌-◌, ◌*◌, ◌^◌, ◌≤◌, ◌<◌, ◌≡◌, ◌↔◌, bit_and, Bool, true, not, arith, if◌then◌else◌, ltb, ◌==◌,
}
use davix.Prelude.Words.{word_max, IsWord}

abbrev pub zone_default : ℕ
zone_default = 0

abbrev pub zone_low4g : ℕ
zone_low4g = 1

abbrev pub zone_low1m : ℕ
zone_low1m = 2

-- `__ALLOC_ZERO`, `__ALLOC_HIGHPRIO`, `__ALLOC_LOW4G` and `__ALLOC_LOW1M`
abbrev pub alloc_zero : ℕ
alloc_zero = 2 ^ 0

abbrev pub alloc_highprio : ℕ
alloc_highprio = 2 ^ 2

abbrev pub alloc_low4g : ℕ
alloc_low4g = 2 ^ 30

abbrev pub alloc_low1m : ℕ
alloc_low1m = 2 ^ 31

-- `aclass & flag`, as a condition
abbrev pub has_flag : ℕ → ℕ → Bool
has_flag aclass flag = not (bit_and aclass flag == 0)

unfoldable pub allocation_zone : ℕ → ℕ
allocation_zone aclass =
    if has_flag aclass alloc_low1m
    then zone_low1m
    else if has_flag aclass alloc_low4g
    then zone_low4g
    else zone_default

unfoldable pub phys_to_zone : ℕ → ℕ
phys_to_zone phys =
    if ltb phys (1024 * 1024)
    then zone_low1m
    else if ltb phys (4 * 1024 * 1024 * 1024)
    then zone_low4g
    else zone_default

unfoldable pub zone_minaddr : ℕ → ℕ
zone_minaddr zone =
    if zone == zone_default
    then 4 * 1024 * 1024 * 1024
    else if zone == zone_low4g
    then 1024 * 1024
    else 0

unfoldable pub zone_maxaddr : ℕ → ℕ
zone_maxaddr zone =
    if zone == zone_default
    then word_max
    else if zone == zone_low4g
    then 4 * 1024 * 1024 * 1024 - 1
    else 1024 * 1024 - 1

unfoldable pub zone_has_fallback : ℕ → Bool
zone_has_fallback zone = not (zone == zone_low1m)

unfoldable pub fallback_zone : ℕ → ℕ
fallback_zone zone = if zone == zone_default then zone_low4g else zone_low1m

-- For one of the three zones, an address belongs to it exactly when it lies between the lowest and the
-- highest address of the zone: the zones cover all words and do not overlap.
pub phys_to_zone_iff :
    (zone phys : ℕ)
    → zone < 3
    → IsWord phys
    → (phys_to_zone phys ≡ zone) ↔ ((zone_minaddr zone ≤ phys) × (phys ≤ zone_maxaddr zone))
unfolding phys_to_zone zone_minaddr zone_maxaddr
phys_to_zone_iff zone phys h w = (λ e. ground arith, λ b. ground arith)

-- A zone with a fallback falls back to a zone of lower addresses.
pub fallback_zone_below :
    (zone : ℕ)
    → zone < 3
    → zone_has_fallback zone ≡ true
    → (fallback_zone zone < 3) × (zone_maxaddr (fallback_zone zone) < zone_minaddr zone)
unfolding zone_has_fallback fallback_zone zone_maxaddr zone_minaddr
fallback_zone_below zone h e = ground arith
