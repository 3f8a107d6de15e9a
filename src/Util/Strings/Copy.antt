-- ===== src/Util/Strings/Copy.antt =====
-- util/string.cc: the functions that fill and copy a number of bytes.
use davix.Prelude.{
  ℕ, zero, suc, ◌+◌, ◌-◌, ◌%◌, ◌≤◌, ◌≡◌, ◌⊎◌, inl, inr, refl, ap, Bool, true, ◌&&◌, ltb, leb, ◌==◌,
  if◌then◌else◌, arith, Bool-cases, ==→eq, ltb→ge,
}
use davix.Util.Strings.{Memory, store, memset, copy_up, mempcpy, memcpy, copy_down, memmove}

-- `x` is one of the `n` bytes at `p`.
abbrev pub is_in : ℕ → ℕ → ℕ → Bool
is_in p n x = leb p x && ltb x (p + n)

-- The `n` bytes at `dst` are those that were at `src`, and the others are as they were.
abbrev pub IsCopied : Memory → ℕ → ℕ → ℕ → Memory → Type 0
IsCopied m dst src n after =
    (x : ℕ) → after x ≡ (if is_in dst n x then m (src + (x - dst)) else m x)

pub copy_up-IsCopied :
    (n : ℕ) (m : Memory) (d s : ℕ) → (d ≤ s) ⊎ (s + n ≤ d) → IsCopied m d s n (copy_up m d s n)
unfolding copy_up
copy_up-IsCopied zero m d s apart x = ground arith
copy_up-IsCopied (suc n) m d s apart x =
    let rest = copy_up-IsCopied n (store m d (m s)) (d + 1) (s + 1) (ground (arith, apart)) x in
    elim (Bool-cases (x == d)) [
      | inl e ↦ ground (arith, rest, e, ap m (at_first (==→eq x d e)))
      | inr e ↦ elim (Bool-cases (is_in (d + 1) n x)) [
        | inl f ↦ ground (arith, rest, e, f, apart, ap m (at_next (leb_suc f)))
        | inr f ↦ ground (arith, rest, e, f)
      ]
    ]
  where
    at_first : x ≡ d → s ≡ s + (x - d)
    at_first e = omega (arith, e)

    leb_suc : is_in (d + 1) n x ≡ true → d + 1 ≤ x
    leb_suc f = ground (arith, f)

    at_next : d + 1 ≤ x → s + 1 + (x - (d + 1)) ≡ s + (x - d)
    at_next e = omega (arith, e)

copy_down-IsCopied : (n : ℕ) (m : Memory) (d s : ℕ) → s ≤ d → IsCopied m d s n (copy_down m d s n)
unfolding copy_down
copy_down-IsCopied zero m d s le x = ground arith
copy_down-IsCopied (suc n) m d s le x =
    let rest = copy_down-IsCopied n (store m (d + n) (m (s + n))) d s le x in
    elim (Bool-cases (x == d + n)) [
      | inl e ↦ ground (arith, rest, e, ap m (at_last (==→eq x (d + n) e)))
      | inr e ↦ ground (arith, rest, e, le)
    ]
  where
    at_last : x ≡ d + n → s + n ≡ s + (x - d)
    at_last e = omega (arith, e)

-- `memmove` copies the bytes as they were before it, whether or not source and destination overlap, changes
-- no other byte, and gives the destination.
pub memmove-IsCopied :
    (m : Memory) (dst src n : ℕ)
    → IsCopied m dst src n (memmove m dst src n).0 × ((memmove m dst src n).1 ≡ dst)
unfolding memmove
memmove-IsCopied m dst src n = elim (Bool-cases (ltb src dst)) [
  | inl e ↦ rw e (copy_down-IsCopied n m dst src (ground (arith, e)), refl)
  | inr e ↦ rw e (copy_up-IsCopied n m dst src (inl (ltb→ge src dst e)), refl)
]

-- For source and destination that do not overlap, `memcpy` and `mempcpy` copy the bytes and change no
-- other, and give the destination and its end.
pub memcpy-IsCopied :
    (m : Memory) (dst src n : ℕ)
    → (dst + n ≤ src) ⊎ (src + n ≤ dst)
    → IsCopied m dst src n (memcpy m dst src n).0
      × IsCopied m dst src n (mempcpy m dst src n).0
      × ((memcpy m dst src n).1 ≡ dst)
      × ((mempcpy m dst src n).1 ≡ dst + n)
unfolding memcpy mempcpy
memcpy-IsCopied m dst src n apart =
    let copied = copy_up-IsCopied n m dst src (ground (arith, apart)) in
    (copied, copied, refl, refl)

-- `memset` writes the low byte of `c` to each of the bytes and to no other.
pub memset-fills :
    (n : ℕ) (m : Memory) (dst c x : ℕ)
    → memset m dst c n x ≡ (if is_in dst n x then c % 256 else m x)
unfolding memset
memset-fills zero m dst c x = ground arith
memset-fills (suc n) m dst c x =
    ground (arith, memset-fills n (store m dst (c % 256)) (dst + 1) c x)
