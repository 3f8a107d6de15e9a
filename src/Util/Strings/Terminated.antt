-- ===== src/Util/Strings/Terminated.antt =====
-- util/string.cc: strings in memory.
use davix.Prelude.{ℕ, suc, ◌+◌, ◌≤◌, ◌<◌, ◌≡◌, ◌≢◌, ap, ◌∙◌, true, false, ◌==◌, arith}
use davix.Util.Strings.{Memory, store}

-- The string at `s` has `len` characters before its terminator.
pub record IsString (m : Memory) (s len : ℕ) : Type 0 where
  pub ended : m (s + len) ≡ 0
  pub characters : (i : ℕ) → i < len → m (s + i) ≢ 0

pub IsString-end : (m : Memory) (s : ℕ) → IsString m s 0 → m s ≡ 0
IsString-end m s h = ap m (omega arith) ∙ h.ended

pub IsString-first : (m : Memory) (s len : ℕ) → IsString m s (suc len) → m s ≢ 0
IsString-first m s len h e = h.characters 0 (omega arith) (ap m (omega arith) ∙ e)

pub IsString-rest : (m : Memory) (s len : ℕ) → IsString m s (suc len) → IsString m (s + 1) len
IsString-rest m s len h = record {
  ended = ap m (omega arith) ∙ h.ended;
  characters = λ i below e. h.characters (suc i) (omega (arith, below)) (ap m (omega arith) ∙ e);
}

-- A store outside of a string.
pub IsString-store :
    (m : Memory) (s len p c : ℕ)
    → ((i : ℕ) → i ≤ len → s + i ≢ p)
    → IsString m s len
    → IsString (store m p c) s len
IsString-store m s len p c out h = record {
  ended = rw (not_at (s + len) (out len (omega arith))) h.ended;
  characters = λ i below. rw (not_at (s + i) (out i (omega (arith, below)))) (h.characters i below);
}
  where
    not_at : (x : ℕ) → x ≢ p → (x == p) ≡ false
    not_at x ne = ground (arith, ne)

pub ==-zero : (x : ℕ) → x ≡ 0 → (x == 0) ≡ true
==-zero x e = ground (arith, e)

pub ==-nonzero : (x : ℕ) → x ≢ 0 → (x == 0) ≡ false
==-nonzero x e = ground (arith, e)
