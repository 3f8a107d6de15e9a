-- ===== src/Kernel/Mutex/Kept.antt =====
-- kernel/mutex.cc: every move keeps the invariant, for the task that makes it and for the others.
use davix.Prelude.{ℕ, ◌<◌, ◌≢◌, List, arith}
use davix.Kernel.Mutex.{Word, Phase}
use davix.Kernel.Mutex.Queue.{is_waiting-push, is_waiting-unlink}
use davix.Kernel.Mutex.Moves.{
  LockMove, SleepMove, UnlockMove, call_lock, fast_locked, fast_failed, busy_try, spin, see_free,
  acquired, acquire_failed, owned_try, timed_out, interrupted, will_wait, enqueue_locked,
  enqueue_failed, push_back, go_to_sleep, return_error, wake_up, handed_over, handover_failed,
  awake_spin, awake_free, awake_owned, requeue_locked, requeue_failed, sleep_again, sleep_timed_out,
  sleep_interrupted, unlink_failed, store_failed, unlink_locked, store_locked, call_unlock,
  fast_unlocked, fast_unlock_failed, unlock_spin, no_waiter, released, release_failed, some_waiter,
  wake_locked, wake_failed, take_first, store_waiter, wake,
}
use davix.Kernel.Mutex.Invariant.{Local, Settled, Kept, nonempty-is_waiting}

pub LockMove-Kept :
    (t u : ℕ) (w w' : Word) (ws ws' : List ℕ) (p p' : Phase)
    → 0 < t
    → t ≢ u
    → 0 < u
    → Local t w ws p
    → Settled w ws
    → LockMove t w ws p w' ws' p'
    → Kept t u w ws p w' ws' p'
LockMove-Kept t u _ _ _ _ _ _ pos ne pu h st (call_lock w ws c) = ground arith
LockMove-Kept t u _ _ _ _ _ _ pos ne pu h st (fast_locked ws c) = ground arith
LockMove-Kept t u _ _ _ _ _ _ pos ne pu h st (fast_failed w ws c) = ground arith
LockMove-Kept t u _ _ _ _ _ _ pos ne pu h st (busy_try w v ws c e f) = ground arith
LockMove-Kept t u _ _ _ _ _ _ pos ne pu h st (spin w v ws c e f) = ground arith
LockMove-Kept t u _ _ _ _ _ _ pos ne pu h st (see_free w v ws c e f) = ground arith
LockMove-Kept t u _ _ _ _ _ _ pos ne pu h st (acquired v ws c) = ground arith
LockMove-Kept t u _ _ _ _ _ _ pos ne pu h st (acquire_failed w v ws c) = ground arith
LockMove-Kept t u _ _ _ _ _ _ pos ne pu h st (owned_try w v ws c e f g) = ground arith
LockMove-Kept t u _ _ _ _ _ _ pos ne pu h st (timed_out w v ws c e f g) = ground arith
LockMove-Kept t u _ _ _ _ _ _ pos ne pu h st (interrupted w v ws c e f g) = ground arith
LockMove-Kept t u _ _ _ _ _ _ pos ne pu h st (will_wait w v ws c e f g) = ground arith
LockMove-Kept t u _ _ _ _ _ _ pos ne pu h st (enqueue_locked v ws c) = ground arith
LockMove-Kept t u _ _ _ _ _ _ pos ne pu h st (enqueue_failed w v ws c) = ground arith
LockMove-Kept t u _ _ _ _ _ _ pos ne pu h st (push_back w v ws c) =
    ground (arith, is_waiting-push t t ws, is_waiting-push t u ws)
LockMove-Kept t u _ _ _ _ _ _ pos ne pu h st (go_to_sleep w v ws c) =
    ground (arith, nonempty-is_waiting t ws)
LockMove-Kept t u _ _ _ _ _ _ pos ne pu h st (return_error w ws c e) = ground arith

pub SleepMove-Kept :
    (t u : ℕ) (w w' : Word) (ws ws' : List ℕ) (p p' : Phase)
    → 0 < t
    → t ≢ u
    → 0 < u
    → Local t w ws p
    → Settled w ws
    → SleepMove t w ws p w' ws' p'
    → Kept t u w ws p w' ws' p'
SleepMove-Kept t u _ _ _ _ _ _ pos ne pu h st (wake_up w ws c) = ground arith
SleepMove-Kept t u _ _ _ _ _ _ pos ne pu h st (handed_over v ws c) = ground arith
SleepMove-Kept t u _ _ _ _ _ _ pos ne pu h st (handover_failed w v ws c) = ground arith
SleepMove-Kept t u _ _ _ _ _ _ pos ne pu h st (awake_spin w v ws c e) = ground arith
SleepMove-Kept t u _ _ _ _ _ _ pos ne pu h st (awake_free w v ws c e f) = ground arith
SleepMove-Kept t u _ _ _ _ _ _ pos ne pu h st (awake_owned w v ws c e f) = ground arith
SleepMove-Kept t u _ _ _ _ _ _ pos ne pu h st (requeue_locked v ws c) =
    ground (arith, nonempty-is_waiting t ws)
SleepMove-Kept t u _ _ _ _ _ _ pos ne pu h st (requeue_failed w v ws c) = ground arith
SleepMove-Kept t u _ _ _ _ _ _ pos ne pu h st (sleep_again w v ws c) = ground arith
SleepMove-Kept t u _ _ _ _ _ _ pos ne pu h st (sleep_timed_out w v ws c e) = ground arith
SleepMove-Kept t u _ _ _ _ _ _ pos ne pu h st (sleep_interrupted w v ws c e) = ground arith
SleepMove-Kept t u _ _ _ _ _ _ pos ne pu h st (unlink_failed w v ws c e) =
    ground (arith, is_waiting-unlink t t ws, is_waiting-unlink t u ws)
SleepMove-Kept t u _ _ _ _ _ _ pos ne pu h st (store_failed w v ws c e) =
    ground (arith, nonempty-is_waiting t ws)
SleepMove-Kept t u _ _ _ _ _ _ pos ne pu h st (unlink_locked w ws c) =
    ground (arith, is_waiting-unlink t t ws, is_waiting-unlink t u ws)
SleepMove-Kept t u _ _ _ _ _ _ pos ne pu h st (store_locked w ws c) =
    ground (arith, nonempty-is_waiting t ws)

pub UnlockMove-Kept :
    (t u : ℕ) (w w' : Word) (ws ws' : List ℕ) (p p' : Phase)
    → 0 < t
    → t ≢ u
    → 0 < u
    → Local t w ws p
    → Settled w ws
    → UnlockMove t w ws p w' ws' p'
    → Kept t u w ws p w' ws' p'
UnlockMove-Kept t u _ _ _ _ _ _ pos ne pu h st (call_unlock w ws) = ground arith
UnlockMove-Kept t u _ _ _ _ _ _ pos ne pu h st (fast_unlocked ws) = ground arith
UnlockMove-Kept t u _ _ _ _ _ _ pos ne pu h st (fast_unlock_failed w ws) = ground arith
UnlockMove-Kept t u _ _ _ _ _ _ pos ne pu h st (unlock_spin w v ws e) = ground arith
UnlockMove-Kept t u _ _ _ _ _ _ pos ne pu h st (no_waiter w v ws e f) = ground arith
UnlockMove-Kept t u _ _ _ _ _ _ pos ne pu h st (released v ws) = ground arith
UnlockMove-Kept t u _ _ _ _ _ _ pos ne pu h st (release_failed w v ws) = ground arith
UnlockMove-Kept t u _ _ _ _ _ _ pos ne pu h st (some_waiter w v ws e f) = ground arith
UnlockMove-Kept t u _ _ _ _ _ _ pos ne pu h st (wake_locked v ws) = ground arith
UnlockMove-Kept t u _ _ _ _ _ _ pos ne pu h st (wake_failed w v ws) = ground arith
UnlockMove-Kept t u _ _ _ _ _ _ pos ne pu h st (take_first w x ws) = ground arith
UnlockMove-Kept t u _ _ _ _ _ _ pos ne pu h st (store_waiter w ws x) = ground arith
UnlockMove-Kept t u _ _ _ _ _ _ pos ne pu h st (wake w ws x) = ground arith
