-- ===== src/Kernel/Sched/RunQueue.antt =====
-- kernel/sched/main.cc: the run queue of a processor, `schedule`, and the choice of a processor. The functions run
-- under `rq_lock`, so each is one step. Tasks and processors are numbers. A level is a priority plus one:
-- the idle task's, MIN_TASK_PRIORITY - 1, is 0.
pub mod Pick
pub mod Total
pub mod Valid
pub mod Enqueue
pub mod Picked
pub mod Schedule
pub mod Least
use davix.Prelude.{
  ℕ, zero, suc, ◌+◌, ◌-◌, ◌%◌, ◌^◌, ◌≡◌, Bool, true, false, not, ◌&&◌, ◌||◌, List, [], ◌∷◌, ◌++◌,
  ltb, ◌==◌, if◌then◌else◌,
}

abbrev pub int_mod : ℕ
int_mod = 2 ^ 32

-- MAX_TASK_PRIORITY - MIN_TASK_PRIORITY + 1
abbrev pub num_queues : ℕ
num_queues = 21

pub record Task : Type 0 where
  pub level : ℕ
  pub is_idle : Bool
  pub is_nomigrate : Bool

-- `sched_runqueue` with the processor's `sched_timer`, whether it is armed, and whether `schedule` has been asked
-- for, by the flag or by an interrupt on its way.
pub record RunQueue : Type 0 where
  pub queues : ℕ → List ℕ
  pub current_level : ℕ
  pub current_task : ℕ
  pub idle_task : ℕ
  pub rq_load : ℕ
  pub is_armed : Bool
  pub is_pending : Bool

abbrev pub is_empty : List ℕ → Bool
is_empty [] = true
is_empty (t ∷ ts) = false

abbrev pub set_queue : (ℕ → List ℕ) → ℕ → List ℕ → ℕ → List ℕ
set_queue queues idx ts i = if i == idx then ts else queues i

abbrev pub push_back : (ℕ → List ℕ) → ℕ → ℕ → ℕ → List ℕ
push_back queues idx task = set_queue queues idx (queues idx ++ task ∷ [])

-- The common part of the two ways to enqueue.
unfoldable pub add_task : RunQueue → ℕ → ℕ → RunQueue
add_task rq idx task = record rq {
  rq_load = (rq.rq_load + 1) % int_mod;
  queues = push_back rq.queues idx task;
}

unfoldable pub enqueue_on_remote_processor : (ℕ → Task) → RunQueue → ℕ → RunQueue
enqueue_on_remote_processor tasks rq task =
    let level = (tasks task).level in
    let was_empty = is_empty (rq.queues (level - 1)) in
    let added = add_task rq (level - 1) task in
    if ltb rq.current_level level || (level == rq.current_level && was_empty)
    then record added { is_pending = true }
    else added

unfoldable pub enqueue_on_this_processor : (ℕ → Task) → RunQueue → ℕ → RunQueue
enqueue_on_this_processor tasks rq task =
    let level = (tasks task).level in
    let was_empty = is_empty (rq.queues (level - 1)) in
    let added = add_task rq (level - 1) task in
    if ltb rq.current_level level
    then record added { is_pending = true }
    else if level == rq.current_level && was_empty
    then record added { is_armed = true }
    else added

-- One priority of the loop: the first task of its queue, or what the lower priorities give.
abbrev pub pop_or : (ℕ → List ℕ) → ℕ → List ℕ → ℕ × (ℕ → List ℕ) → ℕ × (ℕ → List ℕ)
pop_or queues idx [] lower = lower
pop_or queues idx (task ∷ rest) lower = (task, set_queue queues idx rest)

-- The loop over the priorities below `n`, from the highest.
unfoldable pub pick_below : ℕ → (ℕ → List ℕ) → ℕ → ℕ × (ℕ → List ℕ)
pick_below zero queues idle = (idle, queues)
pick_below (suc n) queues idle = pop_or queues n (queues n) (pick_below n queues idle)

unfoldable pub pick_next_task : RunQueue → ℕ × (ℕ → List ℕ)
pick_next_task rq = pick_below num_queues rq.queues rq.idle_task

-- `!rq->queues[rq->current_priority].empty ()`. For the idle task it is what stands before the array.
abbrev pub has_peers : Bool → (ℕ → List ℕ) → ℕ → Bool
has_peers before queues zero = before
has_peers before queues (suc idx) = not (is_empty (queues idx))

unfoldable pub context_switch : Bool → (ℕ → Task) → RunQueue → ℕ → RunQueue
context_switch before tasks rq task =
    let level = (tasks task).level in
    record rq {
      current_level = level;
      current_task = task;
      is_armed = if has_peers before rq.queues level then true else rq.is_armed;
    }

-- What `schedule` does with the task that calls it, which is to go on or not.
unfoldable pub put_back : (ℕ → Task) → RunQueue → ℕ → Bool → RunQueue
put_back tasks rq me is_runnable =
    if (tasks me).is_idle
    then rq
    else if is_runnable
    then record rq { queues = push_back rq.queues ((tasks me).level - 1) me }
    else record rq { rq_load = (rq.rq_load + int_mod - 1) % int_mod }

-- The task picked, and the queues that are left.
unfoldable pub switch_to : Bool → (ℕ → Task) → RunQueue → ℕ × (ℕ → List ℕ) → RunQueue
switch_to before tasks rq (task, queues) =
    let left = record rq { queues = queues } in
    if rq.current_task == task then left else context_switch before tasks left task

unfoldable pub schedule : Bool → (ℕ → Task) → RunQueue → Bool → RunQueue
schedule before tasks rq is_runnable =
    let cleared = record rq { is_pending = false } in
    let ready = put_back tasks cleared rq.current_task is_runnable in
    switch_to before tasks ready (pick_next_task ready)

-- The loop over the processors that are online, with the best so far and its load.
unfoldable pub least_of : (ℕ → RunQueue) → List ℕ → ℕ → ℕ → ℕ
least_of runqueues [] best_cpu best_cpu_load = best_cpu
least_of runqueues (cpu ∷ cpus) best_cpu best_cpu_load =
    let is_better = ltb (runqueues cpu).rq_load best_cpu_load in
    least_of runqueues cpus (if is_better then cpu else best_cpu)
      (if is_better then (runqueues cpu).rq_load else best_cpu_load)

unfoldable pub find_least_loaded_cpu : (ℕ → RunQueue) → List ℕ → ℕ
find_least_loaded_cpu runqueues cpu_online = least_of runqueues cpu_online 0 (int_mod - 1)

-- The end of `__sched_wake`: the processor, and the enqueuing there.
unfoldable pub target_of : (ℕ → Task) → (ℕ → RunQueue) → List ℕ → ℕ → ℕ → ℕ
target_of tasks runqueues cpu_online task prev_cpu =
    if (tasks task).is_nomigrate then prev_cpu else find_least_loaded_cpu runqueues cpu_online

unfoldable pub enqueue_woken : (ℕ → Task) → (ℕ → RunQueue) → List ℕ → ℕ → ℕ → ℕ → ℕ → RunQueue
enqueue_woken tasks runqueues cpu_online this_cpu task prev_cpu cpu =
    let target = target_of tasks runqueues cpu_online task prev_cpu in
    if cpu == target
    then if this_cpu == target
      then enqueue_on_this_processor tasks (runqueues cpu) task
      else enqueue_on_remote_processor tasks (runqueues cpu) task
    else runqueues cpu
