-- ===== src/Util/Strings.antt =====
-- util/string.cc: the memory is a byte for each address, and no object reaches the end of the address space. A loop
-- that a byte of memory ends runs on fuel, and gives none when the fuel runs out.
pub mod Copy
pub mod Terminated
pub mod Length
pub mod Compare
pub mod Pad
use davix.Prelude.{
  ℕ, zero, suc, ◌+◌, ◌-◌, ◌%◌, ◌≡◌, Bool, true, false, not, ◌&&◌, ◌||◌, Option, none, some, List,
  [], ◌∷◌, ltb, ◌==◌, if◌then◌else◌,
}

abbrev pub Memory : Type 0
Memory = ℕ → ℕ

-- `int`, the results of the comparisons, which are far from its limits.
pub data ℤ : Type 0 where
  pos : ℕ → ℤ
  negsuc : ℕ → ℤ

-- `a - b`
abbrev pub minus : ℕ → ℕ → ℤ
minus a b = if ltb a b then negsuc (b - a - 1) else pos (a - b)

abbrev pub store : Memory → ℕ → ℕ → Memory
store m p c x = if x == p then c else m x

-- `*p = c` takes the low byte of `c`.
unfoldable pub memset : Memory → ℕ → ℕ → ℕ → Memory
memset m dst c zero = m
memset m dst c (suc n) = memset (store m dst (c % 256)) (dst + 1) c n

-- The loop of `mempcpy` and of the second case of `memmove`.
unfoldable pub copy_up : Memory → ℕ → ℕ → ℕ → Memory
copy_up m d s zero = m
copy_up m d s (suc n) = copy_up (store m d (m s)) (d + 1) (s + 1) n

unfoldable pub mempcpy : Memory → ℕ → ℕ → ℕ → Memory × ℕ
mempcpy m dst src n = (copy_up m dst src n, dst + n)

unfoldable pub memcpy : Memory → ℕ → ℕ → ℕ → Memory × ℕ
memcpy m dst src n = ((mempcpy m dst src n).0, dst)

-- `while (n--) d[n] = s[n];`
unfoldable pub copy_down : Memory → ℕ → ℕ → ℕ → Memory
copy_down m d s zero = m
copy_down m d s (suc n) = copy_down (store m (d + n) (m (s + n))) d s n

unfoldable pub memmove : Memory → ℕ → ℕ → ℕ → Memory × ℕ
memmove m dst src n = (if ltb src dst then copy_down m dst src n else copy_up m dst src n, dst)

unfoldable pub memcmp : Memory → ℕ → ℕ → ℕ → ℤ
memcmp m a b zero = pos 0
memcmp m a b (suc n) =
    let rest = memcmp m (a + 1) (b + 1) n in if m a == m b then rest else minus (m a) (m b)

unfoldable pub strlen_from : ℕ → Memory → ℕ → ℕ → Option ℕ
strlen_from zero m s i = none
strlen_from (suc fuel) m s i =
    let rest = strlen_from fuel m s (i + 1) in if m (s + i) == 0 then some i else rest

unfoldable pub strlen : ℕ → Memory → ℕ → Option ℕ
strlen fuel m s = strlen_from fuel m s 0

unfoldable pub stpcpy : ℕ → Memory → ℕ → ℕ → Option (Memory × ℕ)
stpcpy zero m dst src = none
stpcpy (suc fuel) m dst src =
    let rest = stpcpy fuel (store m dst (m src)) (dst + 1) (src + 1) in
    if m src == 0 then some (store m dst 0, dst) else rest

-- The result is the destination.
abbrev pub give_dst : ℕ → Option (Memory × ℕ) → Option (Memory × ℕ)
give_dst dst none = none
give_dst dst (some (after, end)) = some (after, dst)

unfoldable pub strcpy : ℕ → Memory → ℕ → ℕ → Option (Memory × ℕ)
strcpy fuel m dst src = give_dst dst (stpcpy fuel m dst src)

unfoldable pub strcmp : ℕ → Memory → ℕ → ℕ → Option ℤ
strcmp zero m s1 s2 = none
strcmp (suc fuel) m s1 s2 =
    let rest = strcmp fuel m (s1 + 1) (s2 + 1) in
    if m s1 == m s2 then if m s1 == 0 then some (pos 0) else rest else some (minus (m s1) (m s2))

-- The loop with `left` bytes to go, which is `n - i`.
unfoldable pub strnlen_from : ℕ → Memory → ℕ → ℕ → ℕ
strnlen_from zero m s i = i
strnlen_from (suc left) m s i =
    let rest = strnlen_from left m s (i + 1) in if m (s + i) == 0 then i else rest

unfoldable pub strnlen : Memory → ℕ → ℕ → ℕ
strnlen m s n = strnlen_from n m s 0

-- The first loop of `stpncpy`, with what it leaves of `dst` and of `n`.
unfoldable pub copy_text : Memory → ℕ → ℕ → ℕ → Memory × ℕ × ℕ
copy_text m dst src zero = (m, dst, 0)
copy_text m dst src (suc n) =
    let rest = copy_text (store m dst (m src)) (dst + 1) (src + 1) n in
    if m src == 0 then (m, dst, suc n) else rest

-- The second one.
unfoldable pub fill_zeros : Memory → ℕ → ℕ → Memory
fill_zeros m dst zero = m
fill_zeros m dst (suc n) = fill_zeros (store m dst 0) (dst + 1) n

abbrev pub pad : Memory × ℕ × ℕ → Memory × ℕ
pad (m, ret, n) = (fill_zeros m ret n, ret)

unfoldable pub stpncpy : Memory → ℕ → ℕ → ℕ → Memory × ℕ
stpncpy m dst src n = pad (copy_text m dst src n)

unfoldable pub strncpy : Memory → ℕ → ℕ → ℕ → Memory × ℕ
strncpy m dst src n = ((stpncpy m dst src n).0, dst)

unfoldable pub strncmp : Memory → ℕ → ℕ → ℕ → ℤ
strncmp m s1 s2 zero = pos 0
strncmp m s1 s2 (suc n) =
    let rest = strncmp m (s1 + 1) (s2 + 1) n in
    if m s1 == m s2 then if m s1 == 0 then pos 0 else rest else minus (m s1) (m s2)

unfoldable pub strchrnul : ℕ → Memory → ℕ → ℕ → Option ℕ
strchrnul zero m s c = none
strchrnul (suc fuel) m s c =
    let rest = strchrnul fuel m (s + 1) c in
    if m s == c then some s else if m s == 0 then some s else rest
