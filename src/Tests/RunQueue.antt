-- ===== src/Tests/RunQueue.antt =====
-- The theorems on kernel/sched/main.cc for a processor that runs task 1 while task 2, of the same priority, waits,
-- and one that is idle. Task 0 is the idle task and task 3 is to be woken.
use davix.Prelude.{
  ℕ, ◌≡◌, refl, true, false, ◌&&◌, [], ◌∷◌, arith, ◌==◌, if◌then◌else◌, Bool-cases, inl, inr,
}
use davix.Kernel.Sched.RunQueue.{
  Task, RunQueue, num_queues, pick_next_task, schedule, enqueue_woken, target_of,
}
use davix.Kernel.Sched.RunQueue.Pick.{IsHighest, pick_next_task-IsHighest}
use davix.Kernel.Sched.RunQueue.Total.{count}
use davix.Kernel.Sched.RunQueue.Valid.{AreTasks, IsValid}
use davix.Kernel.Sched.RunQueue.Enqueue.{IsNew}
use davix.Kernel.Sched.RunQueue.Schedule.{IsScheduled, schedule-IsScheduled}
use davix.Kernel.Sched.RunQueue.Least.{enqueue_woken-IsValid}

-- Task 3 has a higher priority than the others.
abbrev tasks : ℕ → Task
tasks t =
    if t == 0
    then record { level = 0; is_idle = true; is_nomigrate = true }
    else record { level = if t == 3 then 7 else 5; is_idle = false; is_nomigrate = false }

abbrev busy_cpu : RunQueue
busy_cpu = record {
  queues = λ i. if i == 4 then 2 ∷ [] else [];
  current_level = 5;
  current_task = 1;
  idle_task = 0;
  rq_load = 2;
  is_armed = true;
  is_pending = false;
}

abbrev idle_cpu : RunQueue
idle_cpu = record {
  queues = λ i. [];
  current_level = 0;
  current_task = 0;
  idle_task = 0;
  rq_load = 0;
  is_armed = false;
  is_pending = false;
}

abbrev both : ℕ → RunQueue
both cpu = if cpu == 0 then busy_cpu else idle_cpu

tasks-AreTasks : AreTasks tasks 0
tasks-AreTasks = record {
  low = λ t. ground arith;
  busy = λ t e. ground (arith, e);
  rests = refl;
  lowest = refl;
}

busy_cpu-IsValid : IsValid tasks busy_cpu
busy_cpu-IsValid = record {
  queued = record {
    queues = record {
      distinct = λ i t. ground arith;
      placed = λ i t c. (ground (arith, c), ground (arith, c));
    };
    running = λ i. ground arith;
    level = refl;
    load = refl;
    small = omega arith;
  };
  served = record { higher = λ i up full. ground (arith, up, full); peers = λ i same full. refl };
}

idle_cpu-IsValid : IsValid tasks idle_cpu
idle_cpu-IsValid = record {
  queued = record {
    queues = record { distinct = λ i t. omega arith; placed = λ i t c. absurd (omega (arith, c)) };
    running = λ i. refl;
    level = refl;
    load = refl;
    small = omega arith;
  };
  served = record { higher = λ i up full. absurd cc; peers = λ i same full. absurd cc };
}

both-IsValid : (cpu : ℕ) → IsValid tasks (both cpu)
both-IsValid cpu = elim (Bool-cases (cpu == 0)) [
  | inl e ↦ rw e busy_cpu-IsValid
  | inr e ↦ rw e idle_cpu-IsValid
]

both-AreTasks : (cpu : ℕ) → AreTasks tasks (both cpu).idle_task
both-AreTasks cpu = elim (Bool-cases (cpu == 0)) [
  | inl e ↦ rw e tasks-AreTasks
  | inr e ↦ rw e tasks-AreTasks
]

busy_cpu-IsNew : IsNew tasks busy_cpu 3
busy_cpu-IsNew = record {
  absent = λ i. ground arith;
  elsewhere = omega arith;
  busy = refl;
  room = omega arith;
}

both-IsNew : (cpu : ℕ) → IsNew tasks (both cpu) 3
both-IsNew cpu = elim (Bool-cases (cpu == 0)) [
  | inl e ↦ rw e busy_cpu-IsNew
  | inr e ↦
      rw e (record { absent = λ i. refl; elsewhere = omega arith; busy = refl; room = omega arith })
]

pick_next_task-IsHighest_example : IsHighest num_queues busy_cpu.queues 0 (pick_next_task busy_cpu)
pick_next_task-IsHighest_example = pick_next_task-IsHighest busy_cpu

schedule-IsScheduled_example :
    IsScheduled tasks busy_cpu false (schedule false tasks busy_cpu false)
schedule-IsScheduled_example =
    schedule-IsScheduled false tasks busy_cpu false tasks-AreTasks busy_cpu-IsValid

enqueue_woken-IsValid_example :
    IsValid tasks (enqueue_woken tasks both (0 ∷ 1 ∷ []) 0 3 0 1)
    × ((i : ℕ)
        → count 3 ((enqueue_woken tasks both (0 ∷ 1 ∷ []) 0 3 0 1).queues i)
          ≡ (if (1 == target_of tasks both (0 ∷ 1 ∷ []) 3 0) && (i == 6) then 1 else 0))
enqueue_woken-IsValid_example =
    enqueue_woken-IsValid tasks both (0 ∷ 1 ∷ []) 0 3 0 both-AreTasks both-IsValid both-IsNew 1
