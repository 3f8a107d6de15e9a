-- ===== src/Kernel/Sched/RunQueue/Least.antt =====
-- kernel/sched/main.cc: the choice of a processor, and the enqueuing there at the end of a wake-up.
use mathlib.Core.Path.{subst}
use davix.Prelude.{
  ℕ, ◌-◌, ◌≤◌, ◌<◌, ◌≡◌, ◌⊎◌, inl, inr, refl, sym, ◌&&◌, ◌||◌, List, [], ◌∷◌, arith, ◌==◌,
  if◌then◌else◌, ltb, Bool-cases, ==→eq, All,
}
use davix.Kernel.Sched.RunQueue.{
  Task, RunQueue, int_mod, is_empty, push_back, add_task, enqueue_on_this_processor,
  enqueue_on_remote_processor, least_of, find_least_loaded_cpu, target_of, enqueue_woken,
}
use davix.Kernel.Sched.RunQueue.Total.{count}
use davix.Kernel.Sched.RunQueue.Valid.{AreTasks, IsValid}
use davix.Kernel.Sched.RunQueue.Enqueue.{IsNew, count-push_back, enqueue-IsValid}

-- The processor with the least load of a list, or the best one of before.
abbrev IsLeast : (ℕ → RunQueue) → List ℕ → ℕ → ℕ → ℕ → Type 0
IsLeast runqueues cpus best_cpu best_cpu_load r =
    ((r ≡ best_cpu) × All (λ cpu. best_cpu_load ≤ (runqueues cpu).rq_load) cpus)
    ⊎ ((1 ≤ count r cpus)
        × ((runqueues r).rq_load < best_cpu_load)
        × All (λ cpu. (runqueues r).rq_load ≤ (runqueues cpu).rq_load) cpus)

IsLeast-step :
    (runqueues : ℕ → RunQueue) (cpu : ℕ) (cpus : List ℕ) (best_cpu best_cpu_load r : ℕ)
    → IsLeast runqueues cpus
        (if ltb (runqueues cpu).rq_load best_cpu_load then cpu else best_cpu)
        (if ltb (runqueues cpu).rq_load best_cpu_load
          then (runqueues cpu).rq_load
          else best_cpu_load)
        r
    → IsLeast runqueues (cpu ∷ cpus) best_cpu best_cpu_load r
IsLeast-step runqueues cpu cpus best_cpu best_cpu_load r h =
    let load = (runqueues cpu).rq_load in
    let is_better = ltb load best_cpu_load in
    elim (Bool-cases is_better) [
      | inl e ↦
          elim (subst
            (λ b.
              IsLeast runqueues cpus (if b then cpu else best_cpu)
                (if b then load else best_cpu_load) r)
            e h) [
              | inl (same, least) ↦ inr (
                rw same (ground arith),
                rw same (ground (arith, e)),
                (
                  rw same (omega arith),
                  subst (λ c. All (λ x. (runqueues c).rq_load ≤ (runqueues x).rq_load) cpus)
                      (sym same) least,
                ),
              )
              | inr (here, less, least) ↦
                  inr (ground (arith, here), ground (arith, less, e), (omega (arith, less), least))
            ]
      | inr e ↦
          elim (subst
            (λ b.
              IsLeast runqueues cpus (if b then cpu else best_cpu)
                (if b then load else best_cpu_load) r)
            e h) [
              | inl (same, least) ↦ inl (same, (ground (arith, e), least))
              | inr (here, less, least) ↦
                  inr (ground (arith, here), less, (ground (arith, less, e), least))
            ]
    ]

least_of-IsLeast :
    (runqueues : ℕ → RunQueue) (cpus : List ℕ) (best_cpu best_cpu_load : ℕ)
    → IsLeast runqueues cpus best_cpu best_cpu_load (least_of runqueues cpus best_cpu best_cpu_load)
unfolding least_of
least_of-IsLeast runqueues [] best_cpu best_cpu_load = inl (refl, tt)
least_of-IsLeast runqueues (cpu ∷ cpus) best_cpu best_cpu_load =
    let is_better = ltb (runqueues cpu).rq_load best_cpu_load in
    IsLeast-step runqueues cpu cpus best_cpu best_cpu_load _ (
      least_of-IsLeast runqueues cpus (if is_better then cpu else best_cpu)
        (if is_better then (runqueues cpu).rq_load else best_cpu_load))

All-count : (P : ℕ → Type 0) (cpus : List ℕ) (cpu : ℕ) → All P cpus → 1 ≤ count cpu cpus → P cpu
All-count P [] cpu h c = absurd (omega arith)
All-count P (x ∷ cpus) cpu h c = elim (Bool-cases (cpu == x)) [
  | inl e ↦ rw (==→eq cpu x e) h.0
  | inr e ↦ All-count P cpus cpu h.1 (ground (arith, c, e))
]

-- `find_least_loaded_cpu` gives a processor that is online, and none that is online has a lower
-- load, when one that is online has a load below 2^32 - 1.
pub find_least_loaded_cpu-least :
    (runqueues : ℕ → RunQueue) (cpu_online : List ℕ) (cpu : ℕ)
    → 1 ≤ count cpu cpu_online
    → (runqueues cpu).rq_load < int_mod - 1
    → (1 ≤ count (find_least_loaded_cpu runqueues cpu_online) cpu_online)
      × All
          (λ other.
            (runqueues (find_least_loaded_cpu runqueues cpu_online)).rq_load
            ≤ (runqueues other).rq_load)
          cpu_online
unfolding find_least_loaded_cpu
find_least_loaded_cpu-least runqueues cpu_online cpu online low =
    elim (least_of-IsLeast runqueues cpu_online 0 (int_mod - 1)) [
      | inl (same, full) ↦ absurd (
          omega (
            arith,
            low,
            All-count (λ c. int_mod - 1 ≤ (runqueues c).rq_load) cpu_online cpu full online,
          ))
      | inr (here, less, least) ↦ (here, least)
    ]

-- Both ways to enqueue push the task.
enqueue-queues :
    (tasks : ℕ → Task) (rq : RunQueue) (task : ℕ)
    → ((enqueue_on_this_processor tasks rq task).queues
        ≡ push_back rq.queues ((tasks task).level - 1) task)
      × ((enqueue_on_remote_processor tasks rq task).queues
          ≡ push_back rq.queues ((tasks task).level - 1) task)
unfolding enqueue_on_this_processor enqueue_on_remote_processor add_task
enqueue-queues tasks rq task =
    let level = (tasks task).level in
    let is_above = ltb rq.current_level level in
    let is_first = (level == rq.current_level) && is_empty (rq.queues (level - 1)) in
    (
      elim (Bool-cases is_above) [
        | inl e ↦ rw e refl
        | inr e ↦ elim (Bool-cases is_first) [ inl f ↦ rw (e, f) refl | inr f ↦ rw (e, f) refl ]
      ],
      elim (Bool-cases (is_above || is_first)) [ inl e ↦ rw e refl | inr e ↦ rw e refl ],
    )

-- A task that is not idle and is on no processor, while the load of each run queue is below 2^32 - 1, is put on the
-- queue of its priority of the processor that is chosen, once, and on no other; each run queue is valid afterwards
-- when each was before.
pub enqueue_woken-IsValid :
    (tasks : ℕ → Task) (runqueues : ℕ → RunQueue) (cpu_online : List ℕ) (this_cpu task prev_cpu : ℕ)
    → ((cpu : ℕ) → AreTasks tasks (runqueues cpu).idle_task)
    → ((cpu : ℕ) → IsValid tasks (runqueues cpu))
    → ((cpu : ℕ) → IsNew tasks (runqueues cpu) task)
    → (cpu : ℕ)
    → IsValid tasks (enqueue_woken tasks runqueues cpu_online this_cpu task prev_cpu cpu)
      × ((i : ℕ)
          → count task
              ((enqueue_woken tasks runqueues cpu_online this_cpu task prev_cpu cpu).queues i)
            ≡ (if (cpu == target_of tasks runqueues cpu_online task prev_cpu)
                  && (i == (tasks task).level - 1)
                then 1
                else 0))
unfolding enqueue_woken
enqueue_woken-IsValid tasks runqueues cpu_online this_cpu task prev_cpu all h new cpu =
    let target = target_of tasks runqueues cpu_online task prev_cpu in
    let rq = runqueues cpu in
    let (here, there) = enqueue-IsValid tasks rq task (all cpu) (h cpu) (new cpu) in
    let (here_queues, there_queues) = enqueue-queues tasks rq task in
    elim (Bool-cases (cpu == target)) [
      | inl e ↦ elim (Bool-cases (this_cpu == target)) [
        | inl f ↦ rw (e, f) (here, λ i. rw here_queues (pushed rq i (new cpu)))
        | inr f ↦ rw (e, f) (there, λ i. rw there_queues (pushed rq i (new cpu)))
      ]
      | inr e ↦ rw e (h cpu, λ i. (new cpu).absent i)
    ]
  where
    pushed :
        (rq : RunQueue) (i : ℕ)
        → IsNew tasks rq task
        → count task (push_back rq.queues ((tasks task).level - 1) task i)
          ≡ (if i == (tasks task).level - 1 then 1 else 0)
    pushed rq i fresh =
        ground
          (arith, count-push_back rq.queues ((tasks task).level - 1) task i task, fresh.absent i)
