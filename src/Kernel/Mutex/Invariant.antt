-- ===== src/Kernel/Mutex/Invariant.antt =====
-- kernel/mutex.cc: the invariant that ties the word and the waiter list to the phases of the tasks.
use davix.Prelude.{ℕ, ◌≡◌, refl, ◌⊎◌, Bool, true, false, List, [], ◌∷◌, ◌==◌}
use davix.Kernel.Mutex.{
  Word, Phase, acquire, enqueue, at_push, retry_sleep, asleep, retry_nosleep, awake, requeue,
  at_remove, at_store, at_test, giving_up, leaving, locked, fast_unlock, retry_unlock, release,
  wake_first, at_begin, at_handover,
}
use davix.Kernel.Mutex.Queue.{is_waiting, nonempty}

-- The task has the mutex.
abbrev pub holds : Phase → Bool
holds locked = true
holds (at_remove c) = true
holds (at_store c) = true
holds fast_unlock = true
holds (retry_unlock v) = true
holds (release v) = true
holds (wake_first v) = true
holds _ = false

-- The task has set MUTEX_LOCK.
abbrev pub has_lock_bit : Phase → Bool
has_lock_bit (at_push c v) = true
has_lock_bit (retry_sleep c v) = true
has_lock_bit (at_remove c) = true
has_lock_bit (at_store c) = true
has_lock_bit (at_test c v) = true
has_lock_bit (giving_up c v e) = true
has_lock_bit (leaving c v e) = true
has_lock_bit at_begin = true
has_lock_bit (at_handover u) = true
has_lock_bit _ = false

-- The `MutexWaiter` of the task is in the list, so its call of `lock_slowpath` has not returned.
abbrev pub waits : Phase → Bool
waits (retry_sleep c v) = true
waits (asleep c) = true
waits (retry_nosleep c v) = true
waits (awake c v) = true
waits (requeue c v) = true
waits (at_remove c) = true
waits (at_test c v) = true
waits (giving_up c v e) = true
waits _ = false

-- What a task knows of the values it has loaded.
abbrev pub Knows : Word → List ℕ → Phase → Type 0
Knows w ws (acquire c v) = (v.lock_bit ≡ false) × (v.owner ≡ 0)
Knows w ws (enqueue c v) = v.lock_bit ≡ false
Knows w ws (at_push c v) = w.owner ≡ v.owner
Knows w ws (retry_sleep c v) = w.owner ≡ v.owner
Knows w ws (retry_nosleep c v) = (v.lock_bit ≡ false) × (v.owner ≡ 0)
Knows w ws (requeue c v) = v.lock_bit ≡ false
Knows w ws (at_test c v) = (w.owner ≡ v.owner) × (v.waiter_bit ≡ true)
Knows w ws (giving_up c v e) = (w.owner ≡ v.owner) × (v.waiter_bit ≡ true)
Knows w ws (leaving c v e) = (w.owner ≡ v.owner) × (v.waiter_bit ≡ true)
Knows w ws (release v) = (v.lock_bit ≡ false) × (v.waiter_bit ≡ false)
Knows w ws (wake_first v) = (v.lock_bit ≡ false) × (v.waiter_bit ≡ true)
Knows w ws at_begin = (w.owner ≡ 0) × (nonempty ws ≡ true)
Knows w ws (at_handover u) = (w.owner ≡ 0) × (nonempty ws ≡ true)
Knows w ws _ = Unit

-- A task in a phase, against the word and the list.
abbrev pub Local : ℕ → Word → List ℕ → Phase → Type 0
Local t w ws p =
    ((w.owner == t) ≡ holds p)
    × (is_waiting t ws ≡ waits p)
    × (has_lock_bit p ≡ true → w.lock_bit ≡ true)
    × Knows w ws p

-- MUTEX_WAITER says whether the list has waiters, unless some task has set MUTEX_LOCK.
abbrev pub Settled : Word → List ℕ → Type 0
Settled w ws = w.lock_bit ≡ false → w.waiter_bit ≡ nonempty ws

pub nonempty-is_waiting : (t : ℕ) (ws : List ℕ) → is_waiting t ws ≡ true → nonempty ws ≡ true
nonempty-is_waiting t [] h = cc
nonempty-is_waiting t (x ∷ ws) h = refl

-- What a move gives, for the task `t` that makes it and for another task `u`.
abbrev pub Kept : ℕ → ℕ → Word → List ℕ → Phase → Word → List ℕ → Phase → Type 0
Kept t u w ws p w' ws' p' =
    Local t w' ws' p'
    × Settled w' ws'
    × ((w'.owner == u) ≡ (w.owner == u))
    × (is_waiting u ws' ≡ is_waiting u ws)
    × (((w' ≡ w) × (ws' ≡ ws)) ⊎ ((w.lock_bit ≡ false) ⊎ (has_lock_bit p ≡ true)))
    × (has_lock_bit p' ≡ true → (w.lock_bit ≡ false) ⊎ (has_lock_bit p ≡ true))
