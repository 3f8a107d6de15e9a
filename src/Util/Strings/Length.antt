-- ===== src/Util/Strings/Length.antt =====
-- util/string.cc: the functions that look for the end of a string.
use mathlib.Core.Path.{subst}
use davix.Prelude.{
  ℕ, zero, suc, ◌+◌, ◌≤◌, ◌<◌, ◌≡◌, ◌≢◌, ◌⊎◌, inl, inr, min, refl, ap, ◌∙◌, some, ◌==◌, arith,
  Bool-cases, ==→eq, ==→ne,
}
use davix.Util.Strings.{Memory, strlen_from, strlen, strnlen_from, strnlen, strchrnul}
use davix.Util.Strings.Terminated.{
  IsString, IsString-end, IsString-first, IsString-rest, ==-zero, ==-nonzero,
}

strlen_from-IsString :
    (len fuel i : ℕ) (m : Memory) (s : ℕ)
    → len < fuel
    → IsString m (s + i) len
    → strlen_from fuel m s i ≡ some (i + len)
unfolding strlen_from
strlen_from-IsString len zero i m s enough h = absurd (omega (arith, enough))
strlen_from-IsString zero (suc fuel) i m s enough h =
    rw (==-zero (m (s + i)) (IsString-end m (s + i) h)) (ap some (omega arith))
strlen_from-IsString (suc len) (suc fuel) i m s enough h =
    let h' : IsString m (s + (i + 1)) len =
      subst (λ p. IsString m p len) (omega arith) (IsString-rest m (s + i) len h) in
    rw (==-nonzero (m (s + i)) (IsString-first m (s + i) len h))
      (strlen_from-IsString len fuel (i + 1) m s (omega (arith, enough)) h' ∙ ap some (omega arith))

strnlen_from-IsString :
    (len n i : ℕ) (m : Memory) (s : ℕ)
    → IsString m (s + i) len
    → strnlen_from n m s i ≡ i + min n len
unfolding strnlen_from
strnlen_from-IsString len zero i m s h = omega arith
strnlen_from-IsString zero (suc n) i m s h =
    rw (==-zero (m (s + i)) (IsString-end m (s + i) h)) (omega arith)
strnlen_from-IsString (suc len) (suc n) i m s h =
    let h' : IsString m (s + (i + 1)) len =
      subst (λ p. IsString m p len) (omega arith) (IsString-rest m (s + i) len h) in
    let rest = strnlen_from-IsString len n (i + 1) m s h' in
    rw (==-nonzero (m (s + i)) (IsString-first m (s + i) len h)) (omega (arith, rest))

-- For a string with `len` characters, `strlen` ends after at most that many rounds and gives `len`,
-- and `strnlen` gives the lesser of it and its bound.
pub strlen-IsString :
    (fuel n : ℕ) (m : Memory) (s len : ℕ)
    → IsString m s len
    → len < fuel
    → (strlen fuel m s ≡ some len) × (strnlen m s n ≡ min n len)
unfolding strlen strnlen
strlen-IsString fuel n m s len h enough =
    let h' : IsString m (s + 0) len = subst (λ p. IsString m p len) (omega arith) h in
    (
      strlen_from-IsString len fuel 0 m s enough h' ∙ ap some (omega arith),
      strnlen_from-IsString len n 0 m s h' ∙ omega arith,
    )

-- For a string with `len` characters, `strchrnul` ends after at most that many rounds and gives the place of
-- the first character `c`, or of the terminator when no character is `c`.
pub strchrnul-first :
    (len fuel : ℕ) (m : Memory) (s c : ℕ)
    → IsString m s len
    → len < fuel
    → (k : ℕ) × (strchrnul fuel m s c ≡ some (s + k))
      × (k ≤ len)
      × ((i : ℕ) → i < k → m (s + i) ≢ c)
      × ((m (s + k) ≡ c) ⊎ (k ≡ len))
unfolding strchrnul
strchrnul-first len zero m s c h enough = absurd (omega (arith, enough))
strchrnul-first zero (suc fuel) m s c h enough = (
  0,
  rw (==-zero (m s) (IsString-end m s h)) (elim (Bool-cases (m s == c)) [
    | inl e ↦ rw e (ap some (omega arith))
    | inr e ↦ rw e (ap some (omega arith))
  ]),
  omega arith,
  (λ i below. absurd (omega (arith, below))),
  inr refl,
)
strchrnul-first (suc len) (suc fuel) m s c h enough = elim (Bool-cases (m s == c)) [
  | inl e ↦ (
    0,
    rw e (ap some (omega arith)),
    omega arith,
    (λ i below. absurd (omega (arith, below))),
    inl (ap m (omega arith) ∙ ==→eq (m s) c e),
  )
  | inr e ↦
      let (k, found, low, none_before, here) =
        strchrnul-first len fuel m (s + 1) c (IsString-rest m s len h) (omega (arith, enough)) in
      (
        suc k,
        rw (e, ==-nonzero (m s) (IsString-first m s len h)) (found ∙ ap some (omega arith)),
        omega (arith, low),
        (λ i below.
            before i (==→ne (m s) c e) (λ j lower. none_before j (omega (arith, lower, below)))),
        elim here [ inl same ↦ inl (ap m (omega arith) ∙ same) | inr last ↦ inr (ap suc last) ],
      )
]
  where
    before : (i : ℕ) → m s ≢ c → ((j : ℕ) → j < i → m (s + 1 + j) ≢ c) → m (s + i) ≢ c
    before zero ne rest same = ne (ap m (omega arith) ∙ same)
    before (suc i) ne rest same = rest i (omega arith) (ap m (omega arith) ∙ same)

-- For a string with `len` characters: `strlen` ends after at most that many rounds and gives `len`, `strnlen`
-- gives the lesser of it and its bound, and `strchrnul` ends after as many and gives the place of the first
-- character `c`, or of the terminator when no character is `c`.
pub searches-IsString :
    (fuel n : ℕ) (m : Memory) (s c len : ℕ)
    → IsString m s len
    → len < fuel
    → ((strlen fuel m s ≡ some len) × (strnlen m s n ≡ min n len))
      × ((k : ℕ) × (strchrnul fuel m s c ≡ some (s + k))
          × (k ≤ len)
          × ((i : ℕ) → i < k → m (s + i) ≢ c)
          × ((m (s + k) ≡ c) ⊎ (k ≡ len)))
searches-IsString fuel n m s c len h enough =
    (strlen-IsString fuel n m s len h enough, strchrnul-first len fuel m s c h enough)
