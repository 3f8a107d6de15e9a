-- ===== src/Kernel/Sched/Wakeup.antt =====
-- kernel/sched/main.cc: one sleep of one task, from its ticket on, and any number of tasks that call
-- `sched_wake` on it. A step is one atomic access, one change of a run queue or one context switch. The
-- task has interrupts for preemption off from its ticket to `schedule`, as its callers see to.
pub mod Invariant
pub mod Kept
pub mod Once
pub mod Woken
use davix.Prelude.{ℕ, suc, ◌+◌, ◌%◌, ◌<◌, ◌≡◌, ◌≢◌, Bool, true, false, ◌==◌, if◌then◌else◌}
use davix.Prelude.Words.{word_mod}

-- How far the switch away from the task is: before `schedule` has switched, then in
-- `finish_context_switch` at the store to `on_cpu`, at the exchange and at the enqueuing, and behind it.
pub data Switch : Type 0 where
  armed : Switch
  at_on_cpu : Switch
  at_exchange : Switch
  at_enqueue : Switch
  finished : Switch

-- Where a call of `sched_wake` is: at the exchange of the ticket that it has, in `__sched_wake` at the store
-- to `pending_wakeup`, at the load of `on_cpu`, at the exchange and at the enqueuing, and returned.
pub data Waker : Type 0 where
  trying : ℕ → Waker
  refused : Waker
  to_store : Waker
  to_load : Waker
  to_exchange : Waker
  to_enqueue : Waker
  returned : Waker

-- `unblock_ticket`, `pending_wakeup`, whether `on_cpu` is not -1, how often the task has been put on a run queue,
-- how often it stands on one, how often it was taken to run, and the switch away from it.
pub record Sleep : Type 0 where
  pub ticket : ℕ
  pub pending : Bool
  pub on_cpu : Bool
  pub wakes : ℕ
  pub queued : ℕ
  pub runs : ℕ
  pub switch : Switch

-- The steps of the task, and of the processors that switch away from it and back to it.
pub data SleepMove (c : Sleep) : Sleep → Type 0 where
  block : c.switch ≡ armed → SleepMove c (record c { switch = at_on_cpu })
  leave : c.switch ≡ at_on_cpu → SleepMove c (record c { switch = at_exchange; on_cpu = false })
  take_wakeup :
      c.switch ≡ at_exchange
      → c.pending ≡ true
      → SleepMove c (record c { switch = at_enqueue; pending = false })
  no_wakeup :
      c.switch ≡ at_exchange → c.pending ≡ false → SleepMove c (record c { switch = finished })
  requeue :
      c.switch ≡ at_enqueue
      → SleepMove c (record c { switch = finished; wakes = suc c.wakes; queued = suc c.queued })
  run :
      (n : ℕ)
      → c.queued ≡ suc n
      → SleepMove c (record c { queued = n; runs = suc c.runs; on_cpu = true })

-- The steps of a call of `sched_wake`.
pub data WakeMove (c : Sleep) : Waker → Sleep → Waker → Type 0 where
  win_ticket :
      (k : ℕ)
      → k ≡ c.ticket
      → WakeMove c (trying k) (record c { ticket = (k + 1) % word_mod }) to_store
  lose_ticket : (k : ℕ) → k ≢ c.ticket → WakeMove c (trying k) c refused
  store : WakeMove c to_store (record c { pending = true }) to_load
  see_on_cpu : c.on_cpu ≡ true → WakeMove c to_load c returned
  see_off_cpu : c.on_cpu ≡ false → WakeMove c to_load c to_exchange
  win_exchange : c.pending ≡ true → WakeMove c to_exchange (record c { pending = false }) to_enqueue
  lose_exchange : c.pending ≡ false → WakeMove c to_exchange c returned
  enqueue : WakeMove c to_enqueue (record c { wakes = suc c.wakes; queued = suc c.queued }) returned

pub record System : Type 0 where
  pub sleep : Sleep
  pub wakers : ℕ → Waker

abbrev pub set_waker : (ℕ → Waker) → ℕ → Waker → ℕ → Waker
set_waker wakers w p u = if w == u then p else wakers u

pub data Step (s : System) : System → Type 0 where
  by_task : {c : Sleep} → SleepMove s.sleep c → Step s (record s { sleep = c })
  by_waker :
      (w : ℕ) {c : Sleep} {p : Waker}
      → WakeMove s.sleep (s.wakers w) c p
      → Step s (record { sleep = c; wakers = set_waker s.wakers w p })

-- The task has just got the ticket `k`. Calls of `sched_wake` may be anywhere, those for an earlier ticket included,
-- and what they did may have left a wake-up in `pending_wakeup`.
abbrev pub begins : ℕ → Bool → (ℕ → Waker) → System
begins k pending callers = record {
  sleep = record {
    ticket = k;
    pending = pending;
    on_cpu = true;
    wakes = 0;
    queued = 0;
    runs = 0;
    switch = armed;
  };
  wakers = callers;
}

pub data Reachable (k : ℕ) (pending : Bool) (callers : ℕ → Waker) : System → Type 0 where
  start : Reachable k pending callers (begins k pending callers)
  next :
      {s s' : System} → Reachable k pending callers s → Step s s' → Reachable k pending callers s'
