-- ===== src/Kernel/Sched/RunQueue/Valid.antt =====
-- kernel/sched/main.cc: what holds of a run queue while no function has its lock.
use davix.Prelude.{
  ℕ, suc, ◌+◌, ◌≤◌, ◌<◌, ◌≡◌, true, false, ◌||◌, List, [], ◌∷◌, arith, if◌then◌else◌,
}
use davix.Kernel.Sched.RunQueue.{Task, RunQueue, num_queues, int_mod, is_empty}
use davix.Kernel.Sched.RunQueue.Total.{total, count}

-- The priorities that tasks have: one with a queue, but for the idle task's.
pub record AreTasks (tasks : ℕ → Task) (idle : ℕ) : Type 0 where
  pub low : (t : ℕ) → (tasks t).level ≤ num_queues
  pub busy : (t : ℕ) → (tasks t).is_idle ≡ false → 1 ≤ (tasks t).level
  pub rests : (tasks idle).is_idle ≡ true
  pub lowest : (tasks idle).level ≡ 0

-- Each task stands once on the queue of its priority. The idle task stands on none.
pub record AreQueues (tasks : ℕ → Task) (queues : ℕ → List ℕ) : Type 0 where
  pub distinct : (i t : ℕ) → count t (queues i) ≤ 1
  pub placed :
      (i t : ℕ) → 1 ≤ count t (queues i) → ((tasks t).level ≡ suc i) × ((tasks t).is_idle ≡ false)

-- The task that runs is on no queue, and the load counts it and the tasks on the queues.
pub record IsQueued (tasks : ℕ → Task) (rq : RunQueue) : Type 0 where
  pub queues : AreQueues tasks rq.queues
  pub running : (i : ℕ) → count rq.current_task (rq.queues i) ≡ 0
  pub level : rq.current_level ≡ (tasks rq.current_task).level
  pub load :
      rq.rq_load ≡ total num_queues rq.queues + (if (tasks rq.current_task).is_idle then 0 else 1)
  pub small : rq.rq_load < int_mod

-- A task of a higher priority than the one that runs does not wait without `schedule` being asked for, nor one of
-- the same priority without that or the timer.
pub record IsServed (rq : RunQueue) : Type 0 where
  pub higher :
      (i : ℕ) → rq.current_level < suc i → is_empty (rq.queues i) ≡ false → rq.is_pending ≡ true
  pub peers :
      (i : ℕ)
      → rq.current_level ≡ suc i
      → is_empty (rq.queues i) ≡ false
      → (rq.is_armed || rq.is_pending) ≡ true

pub record IsValid (tasks : ℕ → Task) (rq : RunQueue) : Type 0 where
  pub queued : IsQueued tasks rq
  pub served : IsServed rq

pub count-first : (q : List ℕ) → is_empty q ≡ false → (t : ℕ) × (1 ≤ count t q)
count-first [] e = absurd cc
count-first (t ∷ q) e = (t, ground arith)
