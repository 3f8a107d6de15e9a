-- ===== src/Tests/Sched.antt =====
-- The theorems on kernel/sched/main.cc after a run in which call 1 wakes the task before it has left its
-- processor, and call 2 comes too late.
use davix.Prelude.{ℕ, refl, true, false, arith}
use davix.Kernel.Sched.Wakeup.{
  finished, Waker, trying, refused, to_store, to_load, to_exchange, to_enqueue, returned, System,
  win_ticket, store, see_on_cpu, win_exchange, enqueue, armed, set_waker, by_waker, Reachable,
  start, next,
}
use davix.Kernel.Sched.Wakeup.Once.{IsSingle}

-- Every call was made with the ticket 4.
abbrev late_callers : ℕ → Waker
late_callers w = trying 4

abbrev woken_system : System
woken_system = record {
  sleep = record {
    ticket = 5;
    pending = false;
    on_cpu = false;
    wakes = 1;
    queued = 1;
    runs = 0;
    switch = finished;
  };
  wakers =
      set_waker (set_waker (set_waker (set_waker late_callers 1 to_store) 1 to_load) 2 refused) 1
        returned;
}

-- Call 0 has won an earlier ticket and found the task off its processor, but `finish_context_switch` was before it at
-- the exchange. With it on its way, the next sleep goes wrong: it takes the wake-up of call 1, and puts the task on
-- a run queue while the task still runs.
abbrev stale_callers : ℕ → Waker
stale_callers w = set_waker late_callers 0 to_exchange w

abbrev early_system : System
early_system = record {
  sleep = record {
    ticket = 5;
    pending = false;
    on_cpu = true;
    wakes = 1;
    queued = 1;
    runs = 0;
    switch = armed;
  };
  wakers =
      set_waker
        (set_waker (set_waker (set_waker (set_waker stale_callers 1 to_store) 1 to_load) 1 returned)
          0 to_enqueue)
        0 returned;
}

stale_run : Reachable 4 false stale_callers early_system
stale_run =
    let r0 = start in
    let r1 = next r0 (by_waker 1 (win_ticket 4 refl)) in
    let r2 = next r1 (by_waker 1 store) in
    let r3 = next r2 (by_waker 1 (see_on_cpu refl)) in
    let r4 = next r3 (by_waker 0 (win_exchange refl)) in next r4 (by_waker 0 enqueue)

early_system-not-IsSingle : ¬ IsSingle early_system
early_system-not-IsSingle single = absurd (omega (arith, single.one_place))
