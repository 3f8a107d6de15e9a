-- ===== src/Util/Strings/Pad.antt =====
-- util/string.cc: the functions that copy strings.
use davix.Prelude.{
  ℕ, zero, suc, ◌+◌, ◌-◌, ◌≤◌, ◌<◌, ◌≡◌, ◌⊎◌, min, refl, ap, ◌∙◌, some, if◌then◌else◌, arith,
}
use davix.Util.Strings.{
  Memory, store, stpcpy, give_dst, strcpy, copy_up, copy_text, fill_zeros, stpncpy, strncpy,
}
use davix.Util.Strings.Terminated.{
  IsString, IsString-end, IsString-first, IsString-rest, IsString-store, ==-zero, ==-nonzero,
}
use davix.Util.Strings.Copy.{is_in, IsCopied, copy_up-IsCopied}

-- What the loop of `stpcpy` does is to copy the terminator too.
stpcpy-copy_up :
    (len fuel : ℕ) (m : Memory) (d s : ℕ)
    → (d ≤ s) ⊎ (s + suc len ≤ d)
    → IsString m s len
    → len < fuel
    → stpcpy fuel m d s ≡ some (copy_up m d s (suc len), d + len)
unfolding stpcpy copy_up
stpcpy-copy_up len zero m d s apart h enough = absurd (omega (arith, enough))
stpcpy-copy_up zero (suc fuel) m d s apart h enough =
    let e = IsString-end m s h in
    rw (==-zero (m s) e, e) (ap (λ p. some (store m d 0, p)) (omega arith))
stpcpy-copy_up (suc len) (suc fuel) m d s apart h enough =
    let m' = store m d (m s) in
    let h' : IsString m' (s + 1) len =
      IsString-store m (s + 1) len d (m s) (λ i below. ground (arith, apart, below))
        (IsString-rest m s len h) in
    let rest =
      stpcpy-copy_up len fuel m' (d + 1) (s + 1) (ground (arith, apart)) h'
        (omega (arith, enough)) in
    rw (==-nonzero (m s) (IsString-first m s len h))
      (rest ∙ ap (λ p. some (copy_up m' (d + 1) (s + 1) (suc len), p)) (omega arith))

-- For a string and a destination that is below it or behind it, `stpcpy` ends, copies the string with its
-- terminator, changes no other byte, and gives the place of the new terminator; `strcpy` does the same and gives the destination.
pub stpcpy-IsCopied :
    (fuel : ℕ) (m : Memory) (dst src len : ℕ)
    → (dst ≤ src) ⊎ (src + suc len ≤ dst)
    → IsString m src len
    → len < fuel
    → (after : Memory) × (stpcpy fuel m dst src ≡ some (after, dst + len))
      × (strcpy fuel m dst src ≡ some (after, dst))
      × IsCopied m dst src (suc len) after
unfolding strcpy
stpcpy-IsCopied fuel m dst src len apart h enough =
    let copied = stpcpy-copy_up len fuel m dst src apart h enough in
    (
      copy_up m dst src (suc len),
      copied,
      ap (give_dst dst) copied,
      copy_up-IsCopied (suc len) m dst src apart,
    )

state_eq :
    (m : Memory) (p p' n n' : ℕ) → p ≡ p' → n ≡ n' → ◌≡◌ {A = Memory × ℕ × ℕ} (m, p, n) (m, p', n')
state_eq m p p' n n' e f = cc

copy_text-copy_up :
    (len n : ℕ) (m : Memory) (d s : ℕ)
    → (d ≤ s) ⊎ (s + suc len ≤ d)
    → IsString m s len
    → copy_text m d s n ≡ (copy_up m d s (min n len), d + min n len, n - len)
unfolding copy_text copy_up
copy_text-copy_up len zero m d s apart h =
    let none_left : min 0 len ≡ 0 = omega arith in
    rw none_left (state_eq m d (d + 0) 0 (0 - len) (omega arith) (omega arith))
copy_text-copy_up zero (suc n) m d s apart h =
    let none_left : min (suc n) 0 ≡ 0 = omega arith in
    rw (none_left, ==-zero (m s) (IsString-end m s h))
      (state_eq m d (d + 0) (suc n) (suc n - 0) (omega arith) (omega arith))
copy_text-copy_up (suc len) (suc n) m d s apart h =
    let m' = store m d (m s) in
    let h' : IsString m' (s + 1) len =
      IsString-store m (s + 1) len d (m s) (λ i below. ground (arith, apart, below))
        (IsString-rest m s len h) in
    let one_more : min (suc n) (suc len) ≡ suc (min n len) = omega arith in
    let rest = copy_text-copy_up len n m' (d + 1) (s + 1) (ground (arith, apart)) h' in
    rw (one_more, ==-nonzero (m s) (IsString-first m s len h))
      (rest
        ∙ state_eq (copy_up m' (d + 1) (s + 1) (min n len)) (d + 1 + min n len)
            (d + suc (min n len)) (n - len) (suc n - suc len) (omega arith) (omega arith))

fill_zeros-fills :
    (n : ℕ) (m : Memory) (dst x : ℕ) → fill_zeros m dst n x ≡ (if is_in dst n x then 0 else m x)
unfolding fill_zeros
fill_zeros-fills zero m dst x = ground arith
fill_zeros-fills (suc n) m dst x = ground (arith, fill_zeros-fills n (store m dst 0) (dst + 1) x)

-- For a string and a destination that is below it or behind it, `stpncpy` copies at most `n` characters and
-- fills what is left of the `n` bytes with zeros, changes no other byte, and gives the place behind the characters;
-- `strncpy` does the same and gives the destination. There is no terminator when the string has `n` characters or more.
pub stpncpy-pads :
    (m : Memory) (dst src n len : ℕ)
    → (dst ≤ src) ⊎ (src + suc len ≤ dst)
    → IsString m src len
    → ((x : ℕ)
        → (stpncpy m dst src n).0 x ≡ (
            if is_in dst (min n len) x
            then m (src + (x - dst))
            else if is_in dst n x
            then 0
            else m x))
      × ((stpncpy m dst src n).1 ≡ dst + min n len)
      × (strncpy m dst src n ≡ ((stpncpy m dst src n).0, dst))
unfolding stpncpy strncpy
stpncpy-pads m dst src n len apart h =
    let copied = copy_up m dst src (min n len) in
    rw (copy_text-copy_up len n m dst src apart h) (
      (λ x. ground (
        arith,
        fill_zeros-fills (n - len) copied (dst + min n len) x,
        copy_up-IsCopied (min n len) m dst src (ground (arith, apart)) x,
      )),
      refl,
      refl,
    )
