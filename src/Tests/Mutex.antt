-- ===== src/Tests/Mutex.antt =====
-- The theorems on kernel/mutex.cc after a run of two tasks: the first locks the mutex, the second goes to
-- sleep on it, and the first begins to unlock it.
use davix.Prelude.{ℕ, ◌≡◌, refl, true, false, List, [], ◌∷◌, arith}
use davix.Kernel.Mutex.{
  Word, Call, no_timeout, Phase, idle, fast_lock, locked, fast_unlock, retry, enqueue, at_push,
  retry_sleep, asleep, retry_unlock, wake_first, at_begin, System, initial,
}
use davix.Kernel.Mutex.Queue.{is_waiting, nonempty}
use davix.Kernel.Mutex.Moves.{
  lock, unlock, call_lock, fast_locked, fast_failed, will_wait, enqueue_locked, push_back,
  go_to_sleep, call_unlock, fast_unlock_failed, some_waiter, wake_locked, set_phase, step,
  Reachable, start, next,
}
use davix.Kernel.Mutex.Invariant.{holds, waits}
use davix.Kernel.Mutex.Contract.{holds_unique, Reachable-waiters, Obeys, Step-Obeys}
use davix.Kernel.Mutex.Errors.{Honest, Reachable-Honest}

abbrev plain : Call
plain = record { interruptible = false; ns = no_timeout }

abbrev owned : Word
owned = record { owner = 1; lock_bit = false; waiter_bit = false }

abbrev contended : Word
contended = record { owner = 1; lock_bit = false; waiter_bit = true }

-- The phases after moves of the tasks, the last first.
abbrev phases : List (ℕ × Phase) → ℕ → Phase
phases [] = λ t. idle
phases ((t, p) ∷ moves) = set_phase (phases moves) t p

-- Task 2 sleeps, and task 1 is about to hand over to it.
abbrev contended_system : System
contended_system = record {
  word = contended;
  waiters = 2 ∷ [];
  phase = phases (
      (1, wake_first contended)
      ∷ (1, retry_unlock contended)
      ∷ (1, fast_unlock)
      ∷ (2, asleep plain)
      ∷ (2, retry_sleep plain owned)
      ∷ (2, at_push plain owned)
      ∷ (2, enqueue plain owned)
      ∷ (2, retry plain owned)
      ∷ (2, fast_lock plain)
      ∷ (1, locked)
      ∷ (1, fast_lock plain)
      ∷ []);
}

contended_run : Reachable contended_system
unfolding initial
contended_run =
    let r0 = start in
    let r1 = next 1 r0 (step 1 (omega arith) (lock (call_lock _ [] plain))) in
    let r2 = next 1 r1 (step 1 (omega arith) (lock (fast_locked [] plain))) in
    let r3 = next 2 r2 (step 2 (omega arith) (lock (call_lock owned [] plain))) in
    let r4 = next 2 r3 (step 2 (omega arith) (lock (fast_failed owned [] plain))) in
    let r5 = next 2 r4 (
      step 2 (omega arith)
        (lock (will_wait owned owned [] plain refl (omega arith) (omega arith)))) in
    let r6 = next 2 r5 (step 2 (omega arith) (lock (enqueue_locked owned [] plain))) in
    let r7 = next 2 r6 (step 2 (omega arith) (lock (push_back _ owned [] plain))) in
    let r8 = next 2 r7 (step 2 (omega arith) (lock (go_to_sleep _ owned (2 ∷ []) plain))) in
    let r9 = next 1 r8 (step 1 (omega arith) (unlock (call_unlock contended (2 ∷ [])))) in
    let r10 = next 1 r9 (step 1 (omega arith) (unlock (fast_unlock_failed contended (2 ∷ [])))) in
    next 1 r10 (step 1 (omega arith) (unlock (some_waiter contended contended (2 ∷ []) refl refl)))

holds_unique_example : (◌≡◌ {A = ℕ} 1 1) × (contended_system.word.owner ≡ 1)
holds_unique_example =
    holds_unique contended_system 1 1 contended_run (omega arith) (omega arith) refl refl

Reachable-waiters_example :
    (is_waiting 2 contended_system.waiters ≡ waits (contended_system.phase 2))
    × (contended_system.word.lock_bit ≡ false
        → contended_system.word.waiter_bit ≡ nonempty contended_system.waiters)
    × (contended_system.phase 2 ≡ at_begin → nonempty contended_system.waiters ≡ true)
Reachable-waiters_example = Reachable-waiters contended_system 2 contended_run (omega arith)

-- The hand-over takes the mutex from task 1.
abbrev handing_over : System
handing_over = record {
  word = record { owner = 0; lock_bit = true; waiter_bit = true };
  waiters = 2 ∷ [];
  phase = set_phase contended_system.phase 1 at_begin;
}

Step-Obeys_example :
    Obeys 1 contended_system.word.owner
      (holds (contended_system.phase 1))
      handing_over.word.owner
      (holds (handing_over.phase 1))
Step-Obeys_example =
    Step-Obeys contended_system 1 handing_over contended_run
      (step 1 (omega arith) (unlock (wake_locked contended (2 ∷ []))))

Reachable-Honest_example : Honest (contended_system.phase 2)
Reachable-Honest_example = Reachable-Honest contended_system 2 contended_run
