-- ===== src/Kernel/Mutex/Queue.antt =====
-- include/dsl/list.h as kernel/mutex.cc uses it: a task has one `MutexWaiter` at a time, so the list is
-- one of tasks.
use davix.Prelude.{
  ℕ, ◌≡◌, refl, Bool, true, false, not, ◌&&◌, ◌||◌, List, [], ◌∷◌, ◌++◌, arith, ◌==◌, if◌then◌else◌,
}

-- `waiter.entry.remove`
unfoldable pub unlink : ℕ → List ℕ → List ℕ
unlink t [] = []
unlink t (x ∷ xs) = if x == t then unlink t xs else x ∷ unlink t xs

abbrev pub is_waiting : ℕ → List ℕ → Bool
is_waiting t [] = false
is_waiting t (x ∷ xs) = (x == t) || is_waiting t xs

-- `!m_waiters.empty ()`
abbrev pub nonempty : List ℕ → Bool
nonempty [] = false
nonempty (x ∷ xs) = true

pub is_waiting-push :
    (t u : ℕ) (ws : List ℕ) → is_waiting u (ws ++ t ∷ []) ≡ ((t == u) || is_waiting u ws)
is_waiting-push t u [] = refl
is_waiting-push t u (x ∷ ws) = ground (arith, is_waiting-push t u ws)

pub is_waiting-unlink :
    (t u : ℕ) (ws : List ℕ) → is_waiting u (unlink t ws) ≡ (not (t == u) && is_waiting u ws)
unfolding unlink
is_waiting-unlink t u [] = ground arith
is_waiting-unlink t u (x ∷ ws) = ground (arith, is_waiting-unlink t u ws)

pub nonempty-push : (t : ℕ) (ws : List ℕ) → nonempty (ws ++ t ∷ []) ≡ true
nonempty-push t [] = refl
nonempty-push t (x ∷ ws) = refl
