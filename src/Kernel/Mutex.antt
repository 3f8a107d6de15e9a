-- ===== src/Kernel/Mutex.antt =====
-- kernel/mutex.cc and include/davix/mutex.h. A task is a positive number, which stands for its pointer:
-- the two flags are in bits that no pointer has, so the word is a record of three fields. A step of the
-- system is one atomic access, one change of the waiter list or one wait by one task. A weak
-- compare-and-exchange may fail at any time, and time and signals are the environment's choice.
pub mod Moves
pub mod Queue
pub mod Invariant
pub mod Kept
pub mod Contract
pub mod Errors
use davix.Prelude.{ℕ, ◌-◌, ◌^◌, Bool, false, List, []}

-- `m_owner_and_flags`: MUTEX_PTR (0 is null), MUTEX_LOCK and MUTEX_WAITER.
pub record Word : Type 0 where
  pub owner : ℕ
  pub lock_bit : Bool
  pub waiter_bit : Bool

-- NO_TIMEOUT
abbrev pub no_timeout : ℕ
no_timeout = 2 ^ 64 - 1

-- Which of the functions is called: `interruptible` and `ns`. `trylock` has 0, and `lock` and
-- `lock_interruptible` have NO_TIMEOUT.
pub record Call : Type 0 where
  pub interruptible : Bool
  pub ns : ℕ

pub data Error : Type 0 where
  etime : Error
  eintr : Error

-- Where a task is. The word that a phase carries is `state.lockval`, or `desired` without MUTEX_LOCK
-- in the phases that hold the lock bit.
pub data Phase : Type 0 where
  idle : Phase
  -- `lock_fastpath`
  fast_lock : Call → Phase
  -- `lock_slowpath` at `retry`, at the exchange that takes the mutex, and at the one that sets MUTEX_LOCK
  retry : Call → Word → Phase
  acquire : Call → Word → Phase
  enqueue : Call → Word → Phase
  -- at `push_back`, at the store before the sleep, and asleep
  at_push : Call → Word → Phase
  retry_sleep : Call → Word → Phase
  asleep : Call → Phase
  -- at the exchange of `retry_nosleep`, after a failed exchange, and at the exchange of the last loop
  retry_nosleep : Call → Word → Phase
  awake : Call → Word → Phase
  requeue : Call → Word → Phase
  -- with the mutex and the lock bit: at `waiter.entry.remove`, and at the store
  at_remove : Call → Phase
  at_store : Call → Phase
  -- with the lock bit alone: at the test for a timeout or a signal, and on the way out with an error
  at_test : Call → Word → Phase
  giving_up : Call → Word → Error → Phase
  leaving : Call → Word → Error → Phase
  failed : Call → Error → Phase
  locked : Phase
  -- `unlock`: `unlock_fastpath`, and `unlock_slowpath` at `retry` and at its two exchanges
  fast_unlock : Phase
  retry_unlock : Word → Phase
  release : Word → Phase
  wake_first : Word → Phase
  -- with the lock bit: at `m_waiters.begin`, at the store; then at `sched_wake`
  at_begin : Phase
  at_handover : ℕ → Phase
  at_wake : ℕ → Phase

-- The word, the waiter list, and the phase of each task.
pub record System : Type 0 where
  pub word : Word
  pub waiters : List ℕ
  pub phase : ℕ → Phase

unfoldable pub initial : System
initial = record {
  word = record { owner = 0; lock_bit = false; waiter_bit = false };
  waiters = [];
  phase = λ t. idle;
}
