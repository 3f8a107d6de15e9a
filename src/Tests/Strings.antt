-- ===== src/Tests/Strings.antt =====
-- The theorems on util/string.cc for the strings "ab" at 8 and "abd" at 16.
use davix.Prelude.{
  ℕ, ◌+◌, ◌-◌, ◌≤◌, ◌<◌, ◌≡◌, ◌≢◌, ◌⊎◌, inr, min, refl, some, ◌==◌, if◌then◌else◌, arith,
}
use davix.Util.Strings.{
  Memory, memmove, strlen, stpcpy, strcpy, strcmp, strnlen, stpncpy, strncpy, strncmp, strchrnul,
}
use davix.Util.Strings.Copy.{is_in, IsCopied, memmove-IsCopied}
use davix.Util.Strings.Terminated.{IsString}
use davix.Util.Strings.Length.{searches-IsString}
use davix.Util.Strings.Compare.{bytes, lexicographic, comparisons-lexicographic}
use davix.Util.Strings.Pad.{stpcpy-IsCopied, stpncpy-pads}

abbrev memory : Memory
memory x =
    if x == 8
    then 97
    else if x == 9
    then 98
    else if x == 16
    then 97
    else if x == 17
    then 98
    else if x == 18
    then 100
    else 0

short-IsString : IsString memory 8 2
short-IsString = record { ended = refl; characters = λ i below. ground (arith, below) }

long-IsString : IsString memory 16 3
long-IsString = record { ended = refl; characters = λ i below. ground (arith, below) }

memmove-IsCopied_example :
    IsCopied memory 9 8 2 (memmove memory 9 8 2).0 × ((memmove memory 9 8 2).1 ≡ 9)
memmove-IsCopied_example = memmove-IsCopied memory 9 8 2

stpcpy-IsCopied_example :
    (after : Memory) × (stpcpy 4 memory 32 16 ≡ some (after, 35))
    × (strcpy 4 memory 32 16 ≡ some (after, 32))
    × IsCopied memory 32 16 4 after
stpcpy-IsCopied_example =
    stpcpy-IsCopied 4 memory 32 16 3 (inr (omega arith)) long-IsString (omega arith)

stpncpy-pads_example :
    ((x : ℕ)
      → (stpncpy memory 32 8 4).0 x ≡ (
          if is_in 32 (min 4 2) x
          then memory (8 + (x - 32))
          else if is_in 32 4 x
          then 0
          else memory x))
    × ((stpncpy memory 32 8 4).1 ≡ 32 + min 4 2)
    × (strncpy memory 32 8 4 ≡ ((stpncpy memory 32 8 4).0, 32))
stpncpy-pads_example = stpncpy-pads memory 32 8 4 2 (inr (omega arith)) short-IsString

searches-IsString_example :
    ((strlen 4 memory 16 ≡ some 3) × (strnlen memory 16 2 ≡ min 2 3))
    × ((k : ℕ) × (strchrnul 4 memory 16 98 ≡ some (16 + k))
        × (k ≤ 3)
        × ((i : ℕ) → i < k → memory (16 + i) ≢ 98)
        × ((memory (16 + k) ≡ 98) ⊎ (k ≡ 3)))
searches-IsString_example = searches-IsString 4 2 memory 16 98 3 long-IsString (omega arith)

comparisons-lexicographic_example :
    (strcmp 3 memory 8 16 ≡ some (lexicographic (bytes memory 8 2) (bytes memory 16 3)))
    × (strncmp memory 8 16 2 ≡ lexicographic (bytes memory 8 (min 2 2)) (bytes memory 16 (min 2 3)))
comparisons-lexicographic_example =
    comparisons-lexicographic 3 2 memory 8 16 2 3 short-IsString long-IsString (omega arith)
