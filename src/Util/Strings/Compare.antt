-- ===== src/Util/Strings/Compare.antt =====
-- util/string.cc: the comparisons are the order of the dictionary.
use davix.Prelude.{
  ℕ, zero, suc, ◌+◌, ◌<◌, ◌≡◌, ◌≢◌, inl, inr, min, refl, sym, ◌∙◌, true, false, some, List, [], ◌∷◌,
  ◌==◌, if◌then◌else◌, arith, Bool-cases,
}
use davix.Util.Strings.{Memory, ℤ, pos, minus, memcmp, strcmp, strncmp}
use davix.Util.Strings.Terminated.{
  IsString, IsString-end, IsString-first, IsString-rest, ==-zero, ==-nonzero,
}

-- The `n` bytes at `p`.
abbrev pub bytes : Memory → ℕ → ℕ → List ℕ
bytes m p zero = []
bytes m p (suc n) = m p ∷ bytes m (p + 1) n

-- The order of the dictionary on lists of bytes, where the end is below every character: the difference at the
-- first place where they differ.
abbrev pub lexicographic : List ℕ → List ℕ → ℤ
lexicographic [] [] = pos 0
lexicographic [] (y ∷ ys) = minus 0 y
lexicographic (x ∷ xs) [] = minus x 0
lexicographic (x ∷ xs) (y ∷ ys) = if x == y then lexicographic xs ys else minus x y

-- `memcmp` is the order of the dictionary on the bytes.
pub memcmp-lexicographic :
    (n : ℕ) (m : Memory) (a b : ℕ) → memcmp m a b n ≡ lexicographic (bytes m a n) (bytes m b n)
unfolding memcmp
memcmp-lexicographic zero m a b = refl
memcmp-lexicographic (suc n) m a b = rw (memcmp-lexicographic n m (a + 1) (b + 1)) refl

==-same : (x y : ℕ) → x ≡ y → (x == y) ≡ true
==-same x y e = ground (arith, e)

==-apart : (x y : ℕ) → x ≢ y → (x == y) ≡ false
==-apart x y e = ground (arith, e)

-- `strcmp` ends on two strings, and its result is the order of the dictionary on their characters.
pub strcmp-lexicographic :
    (la lb fuel : ℕ) (m : Memory) (a b : ℕ)
    → IsString m a la
    → IsString m b lb
    → la < fuel
    → strcmp fuel m a b ≡ some (lexicographic (bytes m a la) (bytes m b lb))
unfolding strcmp
strcmp-lexicographic la lb zero m a b ha hb enough = absurd (omega (arith, enough))
strcmp-lexicographic zero zero (suc fuel) m a b ha hb enough =
    let e = IsString-end m a ha in
    rw (==-same (m a) (m b) (e ∙ sym (IsString-end m b hb)), ==-zero (m a) e) refl
strcmp-lexicographic zero (suc lb) (suc fuel) m a b ha hb enough =
    let e = IsString-end m a ha in
    let f = IsString-first m b lb hb in rw (==-apart (m a) (m b) (λ same. f (sym same ∙ e)), e) refl
strcmp-lexicographic (suc la) zero (suc fuel) m a b ha hb enough =
    let e = IsString-end m b hb in
    let f = IsString-first m a la ha in rw (==-apart (m a) (m b) (λ same. f (same ∙ e)), e) refl
strcmp-lexicographic (suc la) (suc lb) (suc fuel) m a b ha hb enough =
    let rest =
      strcmp-lexicographic la lb fuel m (a + 1) (b + 1) (IsString-rest m a la ha)
        (IsString-rest m b lb hb) (omega (arith, enough)) in
    elim (Bool-cases (m a == m b)) [
      | inl e ↦ rw (e, ==-nonzero (m a) (IsString-first m a la ha)) rest
      | inr e ↦ rw e refl
    ]

min-zero_left : (n : ℕ) → min 0 n ≡ 0
min-zero_left n = omega arith

min-zero_right : (n : ℕ) → min n 0 ≡ 0
min-zero_right n = omega arith

min-suc : (n k : ℕ) → min (suc n) (suc k) ≡ suc (min n k)
min-suc n k = omega arith

-- The result of `strncmp` on two strings is the order of the dictionary on their first `n` characters.
pub strncmp-lexicographic :
    (la lb n : ℕ) (m : Memory) (a b : ℕ)
    → IsString m a la
    → IsString m b lb
    → strncmp m a b n ≡ lexicographic (bytes m a (min n la)) (bytes m b (min n lb))
unfolding strncmp
strncmp-lexicographic la lb zero m a b ha hb = rw (min-zero_left la, min-zero_left lb) refl
strncmp-lexicographic zero zero (suc n) m a b ha hb =
    let e = IsString-end m a ha in
    rw
      (min-zero_right (suc n), ==-same (m a) (m b) (e ∙ sym (IsString-end m b hb)), ==-zero (m a) e)
      refl
strncmp-lexicographic zero (suc lb) (suc n) m a b ha hb =
    let e = IsString-end m a ha in
    let f = IsString-first m b lb hb in
    rw (min-zero_right (suc n), min-suc n lb, ==-apart (m a) (m b) (λ same. f (sym same ∙ e)), e)
      refl
strncmp-lexicographic (suc la) zero (suc n) m a b ha hb =
    let e = IsString-end m b hb in
    let f = IsString-first m a la ha in
    rw (min-zero_right (suc n), min-suc n la, ==-apart (m a) (m b) (λ same. f (same ∙ e)), e) refl
strncmp-lexicographic (suc la) (suc lb) (suc n) m a b ha hb =
    let rest =
      strncmp-lexicographic la lb n m (a + 1) (b + 1) (IsString-rest m a la ha)
        (IsString-rest m b lb hb) in
    elim (Bool-cases (m a == m b)) [
      | inl e ↦ rw (min-suc n la, min-suc n lb, e, ==-nonzero (m a) (IsString-first m a la ha)) rest
      | inr e ↦ rw (min-suc n la, min-suc n lb, e) refl
    ]

-- For two strings, `strcmp` ends, and its result is the order of the dictionary on their characters; that of
-- `strncmp` is the order on their first `n` characters.
pub comparisons-lexicographic :
    (fuel n : ℕ) (m : Memory) (a b la lb : ℕ)
    → IsString m a la
    → IsString m b lb
    → la < fuel
    → (strcmp fuel m a b ≡ some (lexicographic (bytes m a la) (bytes m b lb)))
      × (strncmp m a b n ≡ lexicographic (bytes m a (min n la)) (bytes m b (min n lb)))
comparisons-lexicographic fuel n m a b la lb ha hb enough =
    (strcmp-lexicographic la lb fuel m a b ha hb enough, strncmp-lexicographic la lb n m a b ha hb)
