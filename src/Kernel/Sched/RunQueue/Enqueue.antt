-- ===== src/Kernel/Sched/RunQueue/Enqueue.antt =====
-- kernel/sched/main.cc: a task is put on a run queue.
use davix.Prelude.{
  ℕ, suc, ◌+◌, ◌-◌, ◌<◌, ◌≡◌, ◌≢◌, inl, inr, refl, sym, ap, ◌∙◌, Bool, true, false, ◌&&◌, ◌||◌,
  List, [], ◌∷◌, ◌++◌, arith, ◌==◌, if◌then◌else◌, length-append, ltb, Bool-cases, ==→eq,
}
use davix.Kernel.Sched.RunQueue.{
  Task, RunQueue, num_queues, int_mod, is_empty, push_back, add_task, enqueue_on_remote_processor,
  enqueue_on_this_processor,
}
use davix.Kernel.Sched.RunQueue.Total.{total, count, count-append, total-set_queue}
use davix.Kernel.Sched.RunQueue.Valid.{AreTasks, AreQueues, IsQueued, IsServed, IsValid}

pub count-push_back :
    (queues : ℕ → List ℕ) (idx task i t : ℕ)
    → count t (push_back queues idx task i)
      ≡ count t (queues i) + (if i == idx then if t == task then 1 else 0 else 0)
count-push_back queues idx task i t = elim (Bool-cases (i == idx)) [
  | inl e ↦ rw (e, ==→eq i idx e) (omega (arith, count-append t (queues idx) (task ∷ [])))
  | inr e ↦ rw e (omega arith)
]

pub push_back-AreQueues :
    (tasks : ℕ → Task) (queues : ℕ → List ℕ) (idx task : ℕ)
    → AreQueues tasks queues
    → ((i : ℕ) → count task (queues i) ≡ 0)
    → (tasks task).level ≡ suc idx
    → (tasks task).is_idle ≡ false
    → AreQueues tasks (push_back queues idx task)
push_back-AreQueues tasks queues idx task h absent at_level busy = record {
  distinct = λ i t. elim (Bool-cases (t == task)) [
    | inl e ↦
        let none : count t (queues i) ≡ 0 = rw (==→eq t task e) (absent i) in
        ground (arith, count-push_back queues idx task i t, none)
    | inr e ↦ ground (arith, count-push_back queues idx task i t, h.distinct i t, e)
  ];
  placed = λ i t c. elim (Bool-cases (t == task)) [
    | inl e ↦ elim (Bool-cases (i == idx)) [
      | inl f ↦ rw (==→eq t task e, ==→eq i idx f) (at_level, busy)
      | inr f ↦ h.placed i t (ground (arith, count-push_back queues idx task i t, c, f))
    ]
    | inr e ↦ h.placed i t (ground (arith, count-push_back queues idx task i t, c, e))
  ];
}

pub total-push_back :
    (queues : ℕ → List ℕ) (idx task : ℕ)
    → idx < num_queues
    → total num_queues (push_back queues idx task) ≡ suc (total num_queues queues)
total-push_back queues idx task low =
    let h = total-set_queue num_queues idx queues (queues idx ++ task ∷ []) low in
    omega (arith, h, length-append (queues idx) (task ∷ []))

-- A task that is nowhere on the processor, with a level.
pub record IsNew (tasks : ℕ → Task) (rq : RunQueue) (task : ℕ) : Type 0 where
  pub absent : (i : ℕ) → count task (rq.queues i) ≡ 0
  pub elsewhere : task ≢ rq.current_task
  pub busy : (tasks task).is_idle ≡ false
  pub room : rq.rq_load + 1 < int_mod

add_task-IsQueued :
    (tasks : ℕ → Task) (rq : RunQueue) (task idx : ℕ)
    → IsQueued tasks rq
    → IsNew tasks rq task
    → (tasks task).level ≡ suc idx
    → idx < num_queues
    → IsQueued tasks (add_task rq idx task)
unfolding add_task
add_task-IsQueued tasks rq task idx h new at_level low = record {
  queues = push_back-AreQueues tasks rq.queues idx task h.queues new.absent at_level new.busy;
  running = λ i. ground (
    arith,
    count-push_back rq.queues idx task i rq.current_task,
    h.running i,
    λ (e : rq.current_task ≡ task). new.elsewhere (sym e),
  );
  level = h.level;
  load = omega (arith, h.load, new.room, total-push_back rq.queues idx task low);
  small = omega arith;
}

-- With the flag, or with the timer when the task has the priority of the one that runs, every task is served.
add_task-IsServed :
    (rq : RunQueue) (task idx : ℕ) (armed pending : Bool)
    → IsServed rq
    → (rq.is_pending ≡ true → pending ≡ true)
    → (rq.is_armed || rq.is_pending ≡ true → (armed || pending) ≡ true)
    → (rq.current_level < suc idx → pending ≡ true)
    → (rq.current_level ≡ suc idx → is_empty (rq.queues idx) ≡ true → (armed || pending) ≡ true)
    → IsServed (record (add_task rq idx task) { is_armed = armed; is_pending = pending })
unfolding add_task
add_task-IsServed rq task idx armed pending h asked timed above beside = record {
  higher = λ i up full. elim (Bool-cases (i == idx)) [
    | inl e ↦ above (omega (arith, up, ==→eq i idx e))
    | inr e ↦ asked (h.higher i up (not_here i e full))
  ];
  peers = λ i same full. elim (Bool-cases (i == idx)) [
    | inl e ↦ elim (Bool-cases (is_empty (rq.queues idx))) [
      | inl f ↦ beside (same ∙ ap suc (==→eq i idx e)) f
      | inr f ↦ timed (h.peers idx (same ∙ ap suc (==→eq i idx e)) f)
    ]
    | inr e ↦ timed (h.peers i same (not_here i e full))
  ];
}
  where
    not_here :
        (i : ℕ)
        → (i == idx) ≡ false
        → is_empty (push_back rq.queues idx task i) ≡ false
        → is_empty (rq.queues i) ≡ false
    not_here i e full = cc

add_task-IsValid :
    (tasks : ℕ → Task) (rq : RunQueue) (task idx : ℕ) (armed pending : Bool)
    → IsValid tasks rq
    → IsNew tasks rq task
    → (tasks task).level ≡ suc idx
    → idx < num_queues
    → IsServed (record (add_task rq idx task) { is_armed = armed; is_pending = pending })
    → IsValid tasks (record (add_task rq idx task) { is_armed = armed; is_pending = pending })
add_task-IsValid tasks rq task idx armed pending h new at_level low served =
    let q = add_task-IsQueued tasks rq task idx h.queued new at_level low in
    record {
      queued = record {
        queues = q.queues;
        running = q.running;
        level = q.level;
        load = q.load;
        small = q.small;
      };
      served = served;
    }

-- With an index for the level, as the code computes it.
enqueue_here :
    (tasks : ℕ → Task) (rq : RunQueue) (task idx : ℕ)
    → IsValid tasks rq
    → IsNew tasks rq task
    → (tasks task).level ≡ suc idx
    → (tasks task).level - 1 ≡ idx
    → idx < num_queues
    → IsValid tasks (enqueue_on_this_processor tasks rq task)
unfolding enqueue_on_this_processor add_task
enqueue_here tasks rq task idx h new at_level at_idx low =
    rw (at_idx, at_level)
      (elim (Bool-cases (ltb rq.current_level (suc idx))) [
        | inl e ↦ rw e (
            add_task-IsValid tasks rq task idx rq.is_armed true h new at_level low (
              add_task-IsServed rq task idx rq.is_armed true h.served (λ p. refl)
                (λ p. ground arith) (λ up. refl) (λ same f. ground arith)))
        | inr e ↦ elim (Bool-cases ((suc idx == rq.current_level) && is_empty (rq.queues idx))) [
          | inl f ↦
              rw (e, f)
                (add_task-IsValid tasks rq task idx true rq.is_pending h new at_level low (
                  add_task-IsServed rq task idx true rq.is_pending h.served (λ p. p) (λ p. refl)
                    (λ up. ground (arith, e, up)) (λ same g. refl)))
          | inr f ↦
              rw (e, f)
                (add_task-IsValid tasks rq task idx rq.is_armed rq.is_pending h new at_level low (
                  add_task-IsServed rq task idx rq.is_armed rq.is_pending h.served (λ p. p) (λ p. p)
                    (λ up. ground (arith, e, up)) (λ same g. ground (arith, f, same, g))))
        ]
      ])

enqueue_there :
    (tasks : ℕ → Task) (rq : RunQueue) (task idx : ℕ)
    → IsValid tasks rq
    → IsNew tasks rq task
    → (tasks task).level ≡ suc idx
    → (tasks task).level - 1 ≡ idx
    → idx < num_queues
    → IsValid tasks (enqueue_on_remote_processor tasks rq task)
unfolding enqueue_on_remote_processor add_task
enqueue_there tasks rq task idx h new at_level at_idx low =
    rw (at_idx, at_level)
      (elim (Bool-cases (
        ltb rq.current_level (suc idx)
        || ((suc idx == rq.current_level) && is_empty (rq.queues idx)))) [
          | inl e ↦ rw e (
              add_task-IsValid tasks rq task idx rq.is_armed true h new at_level low (
                add_task-IsServed rq task idx rq.is_armed true h.served (λ p. refl)
                  (λ p. ground arith) (λ up. refl) (λ same f. ground arith)))
          | inr f ↦ rw f (
              add_task-IsValid tasks rq task idx rq.is_armed rq.is_pending h new at_level low (
                add_task-IsServed rq task idx rq.is_armed rq.is_pending h.served (λ p. p) (λ p. p)
                  (λ up. ground (arith, f, up)) (λ same g. ground (arith, f, same, g))))
        ])

-- A task that is not idle is put on the run queue of the processor that it runs on or of another one.
-- When the run queue is valid and has neither the task nor a load of 2^32 - 1, it is valid after either: in particular
-- `schedule` has been asked for when the task has a higher priority than the one that runs.
pub enqueue-IsValid :
    (tasks : ℕ → Task) (rq : RunQueue) (task : ℕ)
    → AreTasks tasks rq.idle_task
    → IsValid tasks rq
    → IsNew tasks rq task
    → IsValid tasks (enqueue_on_this_processor tasks rq task)
      × IsValid tasks (enqueue_on_remote_processor tasks rq task)
enqueue-IsValid tasks rq task all h new =
    let low = all.low task in
    let busy = all.busy task new.busy in
    let at_level : (tasks task).level ≡ suc ((tasks task).level - 1) = omega (arith, busy) in
    (
      enqueue_here tasks rq task ((tasks task).level - 1) h new at_level refl
          (omega (arith, low, busy)),
      enqueue_there tasks rq task ((tasks task).level - 1) h new at_level refl
          (omega (arith, low, busy)),
    )
