-- ===== src/Kernel/Mutex/Errors.antt =====
-- kernel/mutex.cc: which errors the functions return, and which of them sleep.
use davix.Prelude.{ℕ, ◌≡◌, ◌≢◌, true, List, arith, Bool-cases, inl, inr, ◌==◌}
use davix.Kernel.Mutex.{
  Word, Call, no_timeout, Error, etime, eintr, Phase, enqueue, at_push, retry_sleep, asleep,
  retry_nosleep, awake, requeue, at_test, giving_up, leaving, failed, System, initial,
}
use davix.Kernel.Mutex.Moves.{
  Move, lock, sleep, unlock, LockMove, SleepMove, UnlockMove, Step, step, Reachable, start, next,
  call_lock, fast_locked, fast_failed, busy_try, spin, see_free, acquired, acquire_failed,
  owned_try, timed_out, interrupted, will_wait, enqueue_locked, enqueue_failed, push_back,
  go_to_sleep, return_error, wake_up, handed_over, handover_failed, awake_spin, awake_free,
  awake_owned, requeue_locked, requeue_failed, sleep_again, sleep_timed_out, sleep_interrupted,
  unlink_failed, store_failed, unlink_locked, store_locked, call_unlock, fast_unlocked,
  fast_unlock_failed, unlock_spin, no_waiter, released, release_failed, some_waiter, wake_locked,
  wake_failed, take_first, store_waiter, wake,
}

-- ETIME is for the calls with a timeout, and EINTR for those that can be interrupted.
abbrev pub Allows : Call → Error → Type 0
Allows c etime = c.ns ≢ no_timeout
Allows c eintr = c.interruptible ≡ true

-- A task that fails does so as its call allows; a task in or near the waiter list is not in `trylock`.
abbrev pub Honest : Phase → Type 0
Honest (enqueue c v) = c.ns ≢ 0
Honest (at_push c v) = c.ns ≢ 0
Honest (retry_sleep c v) = c.ns ≢ 0
Honest (asleep c) = c.ns ≢ 0
Honest (retry_nosleep c v) = c.ns ≢ 0
Honest (awake c v) = c.ns ≢ 0
Honest (requeue c v) = c.ns ≢ 0
Honest (at_test c v) = c.ns ≢ 0
Honest (giving_up c v e) = Allows c e
Honest (leaving c v e) = Allows c e
Honest (failed c e) = Allows c e
Honest _ = Unit

LockMove-Honest :
    (t : ℕ) (w w' : Word) (ws ws' : List ℕ) (p p' : Phase)
    → Honest p
    → LockMove t w ws p w' ws' p'
    → Honest p'
LockMove-Honest t _ _ _ _ _ _ h (call_lock w ws c) = ground arith
LockMove-Honest t _ _ _ _ _ _ h (fast_locked ws c) = ground arith
LockMove-Honest t _ _ _ _ _ _ h (fast_failed w ws c) = ground arith
LockMove-Honest t _ _ _ _ _ _ h (busy_try w v ws c e f) = ground arith
LockMove-Honest t _ _ _ _ _ _ h (spin w v ws c e f) = ground arith
LockMove-Honest t _ _ _ _ _ _ h (see_free w v ws c e f) = ground arith
LockMove-Honest t _ _ _ _ _ _ h (acquired v ws c) = ground arith
LockMove-Honest t _ _ _ _ _ _ h (acquire_failed w v ws c) = ground arith
LockMove-Honest t _ _ _ _ _ _ h (owned_try w v ws c e f g) = ground arith
LockMove-Honest t _ _ _ _ _ _ h (timed_out w v ws c e f g) = ground arith
LockMove-Honest t _ _ _ _ _ _ h (interrupted w v ws c e f g) = ground arith
LockMove-Honest t _ _ _ _ _ _ h (will_wait w v ws c e f g) = ground arith
LockMove-Honest t _ _ _ _ _ _ h (enqueue_locked v ws c) = ground arith
LockMove-Honest t _ _ _ _ _ _ h (enqueue_failed w v ws c) = ground arith
LockMove-Honest t _ _ _ _ _ _ h (push_back w v ws c) = ground arith
LockMove-Honest t _ _ _ _ _ _ h (go_to_sleep w v ws c) = ground arith
LockMove-Honest t _ _ _ _ _ _ h (return_error w ws c e) = ground arith

SleepMove-Honest :
    (t : ℕ) (w w' : Word) (ws ws' : List ℕ) (p p' : Phase)
    → Honest p
    → SleepMove t w ws p w' ws' p'
    → Honest p'
SleepMove-Honest t _ _ _ _ _ _ h (wake_up w ws c) = ground arith
SleepMove-Honest t _ _ _ _ _ _ h (handed_over v ws c) = ground arith
SleepMove-Honest t _ _ _ _ _ _ h (handover_failed w v ws c) = ground arith
SleepMove-Honest t _ _ _ _ _ _ h (awake_spin w v ws c e) = ground arith
SleepMove-Honest t _ _ _ _ _ _ h (awake_free w v ws c e f) = ground arith
SleepMove-Honest t _ _ _ _ _ _ h (awake_owned w v ws c e f) = ground arith
SleepMove-Honest t _ _ _ _ _ _ h (requeue_locked v ws c) = ground arith
SleepMove-Honest t _ _ _ _ _ _ h (requeue_failed w v ws c) = ground arith
SleepMove-Honest t _ _ _ _ _ _ h (sleep_again w v ws c) = ground arith
SleepMove-Honest t _ _ _ _ _ _ h (sleep_timed_out w v ws c e) = ground arith
SleepMove-Honest t _ _ _ _ _ _ h (sleep_interrupted w v ws c e) = ground arith
SleepMove-Honest t _ _ _ _ _ _ h (unlink_failed w v ws c e) = h
SleepMove-Honest t _ _ _ _ _ _ h (store_failed w v ws c e) = h
SleepMove-Honest t _ _ _ _ _ _ h (unlink_locked w ws c) = ground arith
SleepMove-Honest t _ _ _ _ _ _ h (store_locked w ws c) = ground arith

UnlockMove-Honest :
    (t : ℕ) (w w' : Word) (ws ws' : List ℕ) (p p' : Phase)
    → Honest p
    → UnlockMove t w ws p w' ws' p'
    → Honest p'
UnlockMove-Honest t _ _ _ _ _ _ h (call_unlock w ws) = ground arith
UnlockMove-Honest t _ _ _ _ _ _ h (fast_unlocked ws) = ground arith
UnlockMove-Honest t _ _ _ _ _ _ h (fast_unlock_failed w ws) = ground arith
UnlockMove-Honest t _ _ _ _ _ _ h (unlock_spin w v ws e) = ground arith
UnlockMove-Honest t _ _ _ _ _ _ h (no_waiter w v ws e f) = ground arith
UnlockMove-Honest t _ _ _ _ _ _ h (released v ws) = ground arith
UnlockMove-Honest t _ _ _ _ _ _ h (release_failed w v ws) = ground arith
UnlockMove-Honest t _ _ _ _ _ _ h (some_waiter w v ws e f) = ground arith
UnlockMove-Honest t _ _ _ _ _ _ h (wake_locked v ws) = ground arith
UnlockMove-Honest t _ _ _ _ _ _ h (wake_failed w v ws) = ground arith
UnlockMove-Honest t _ _ _ _ _ _ h (take_first w x ws) = ground arith
UnlockMove-Honest t _ _ _ _ _ _ h (store_waiter w ws x) = ground arith
UnlockMove-Honest t _ _ _ _ _ _ h (wake w ws x) = ground arith

Move-Honest :
    (t : ℕ) (w w' : Word) (ws ws' : List ℕ) (p p' : Phase)
    → Honest p
    → Move t w ws p w' ws' p'
    → Honest p'
Move-Honest t w w' ws ws' p p' h (lock m) = LockMove-Honest t w w' ws ws' p p' h m
Move-Honest t w w' ws ws' p p' h (sleep m) = SleepMove-Honest t w w' ws ws' p p' h m
Move-Honest t w w' ws ws' p p' h (unlock m) = UnlockMove-Honest t w w' ws ws' p p' h m

Step-Honest :
    (u : ℕ) (s : System) (t : ℕ) (s' : System)
    → Honest (s.phase u)
    → Honest (s.phase t)
    → Step s t s'
    → Honest (s'.phase u)
Step-Honest u s t _ hu ht (step _ {w = w} {ws = ws} {p = p} pos m) = elim (Bool-cases (t == u)) [
  | inl e ↦ rw e (Move-Honest t s.word w s.waiters ws (s.phase t) p ht m)
  | inr e ↦ rw e hu
]

-- In every reachable state, each task that returns an error does so as its call allows, ETIME only with a
-- timeout and EINTR only if it can be interrupted, so that `lock` does not reach its panic; and each task
-- that sleeps or is about to is not in `trylock`.
pub Reachable-Honest : (s : System) (u : ℕ) → Reachable s → Honest (s.phase u)
unfolding initial
Reachable-Honest _ u start = tt
Reachable-Honest _ u (next {s = s} {s' = s'} t r m) =
    Step-Honest u s t s' (Reachable-Honest s u r) (Reachable-Honest s t r) m
