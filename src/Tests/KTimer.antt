-- ===== src/Tests/KTimer.antt =====
-- The theorems on kernel/ktimer.cc for a queue of two timers.
use davix.Prelude.{ℕ, ◌≡◌, true, false, some, [], ◌∷◌, ◌==◌, if◌then◌else◌, arith}
use davix.Kernel.KTimer.{
  KTimerQueue, ktimer_handle_timer_interrupt, enqueue, remove, timer_dpc_func,
}
use davix.Kernel.KTimer.Kept.{IsListed, IsQueue, operations-IsQueue}
use davix.Kernel.KTimer.Run.{IsCallback, IsRun, timer_dpc_func-IsRun}

abbrev queue : KTimerQueue
queue = record {
  tree = record { id = 1; expiry_ns = 100 } ∷ record { id = 2; expiry_ns = 300 } ∷ [];
  next_expiry = 100;
  is_enqueued = false;
  on_queue = λ i. if i == 1 then true else if i == 2 then true else false;
}

queue-IsListed : IsListed queue
queue-IsListed = record { sorted = omega arith; listed = λ i. ground arith }

queue-IsQueue : IsQueue queue
queue-IsQueue = record { in_order = queue-IsListed; armed = λ e. omega arith }

operations-IsQueue_example :
    IsQueue (ktimer_handle_timer_interrupt 150 queue)
    × IsQueue (enqueue 3 50 queue).1
    × IsQueue (remove 1 queue).1
operations-IsQueue_example = operations-IsQueue 150 3 50 1 queue queue-IsQueue

abbrev do_nothing : ℕ → KTimerQueue → KTimerQueue
do_nothing id q = q

do_nothing-IsCallback : IsCallback do_nothing
do_nothing-IsCallback = record { keeps = λ id q h. h; adds_none = λ id q. omega arith }

abbrev clock : ℕ → ℕ
clock i = 200

timer_dpc_func-IsRun_example :
    (after : KTimerQueue) × (timer_dpc_func 3 clock do_nothing queue ≡ some after) × IsRun 200 after
timer_dpc_func-IsRun_example =
    timer_dpc_func-IsRun 3 clock do_nothing queue do_nothing-IsCallback (λ i low. omega arith)
      (omega arith) queue-IsListed
