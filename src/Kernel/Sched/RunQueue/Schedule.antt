-- ===== src/Kernel/Sched/RunQueue/Schedule.antt =====
-- kernel/sched/main.cc: `schedule` keeps the run queue valid and switches to a task of the highest priority.
use mathlib.Core.Path.{subst}
use davix.Prelude.{
  ℕ, suc, ◌-◌, ◌≤◌, ◌<◌, ◌≡◌, ◌≢◌, inl, inr, refl, sym, ap, ◌∙◌, Bool, true, false, List, [], ◌∷◌,
  ◌++◌, arith, ◌==◌, Bool-cases, ==→eq, ==→ne,
}
use davix.Kernel.Sched.RunQueue.{
  Task, RunQueue, num_queues, int_mod, is_empty, push_back, pick_next_task, context_switch,
  put_back, switch_to, schedule,
}
use davix.Kernel.Sched.RunQueue.Total.{total, count}
use davix.Kernel.Sched.RunQueue.Valid.{AreTasks, AreQueues, IsQueued, IsValid}
use davix.Kernel.Sched.RunQueue.Enqueue.{push_back-AreQueues, total-push_back}
use davix.Kernel.Sched.RunQueue.Picked.{IsPicked, IsHighest-IsPicked}
use davix.Kernel.Sched.RunQueue.Pick.{IsHighest, pick_next_task-IsHighest}

-- What holds when the task that calls `schedule` stands on its queue, or does not go on.
record IsReady (tasks : ℕ → Task) (rq : RunQueue) (me : ℕ) (is_runnable : Bool) (ready : RunQueue)
    : Type 0 where
  queues : AreQueues tasks ready.queues
  load : ready.rq_load ≡ total num_queues ready.queues
  small : ready.rq_load < int_mod
  same_task : ready.current_task ≡ rq.current_task
  same_level : ready.current_level ≡ rq.current_level
  same_idle : ready.idle_task ≡ rq.idle_task
  same_pending : ready.is_pending ≡ rq.is_pending
  alone : (idx : ℕ) (rest : List ℕ) → ready.queues idx ≡ me ∷ rest → rest ≡ []
  gone : is_runnable ≡ false → (i : ℕ) → count me (ready.queues i) ≡ 0

-- A task that is on no queue is not the first of one.
not_first : (me : ℕ) (q rest : List ℕ) → count me q ≡ 0 → q ≡ me ∷ rest → ⊥
not_first me q rest none e =
    let first : 1 ≤ count me q = rw e (ground arith) in omega (arith, none, first)

-- When it has been pushed on a queue that it now is the first of, the queue was empty.
push_alone : (me : ℕ) (q rest : List ℕ) → count me q ≡ 0 → q ++ me ∷ [] ≡ me ∷ rest → rest ≡ []
push_alone me [] rest none e = cc
push_alone me (t ∷ q) rest none e = absurd (ground (arith, none, head_eq e))
  where
    head_eq : t ∷ q ++ me ∷ [] ≡ me ∷ rest → t ≡ me
    head_eq f = cc

put_back-alone :
    (queues : ℕ → List ℕ) (at me idx : ℕ) (rest : List ℕ)
    → ((i : ℕ) → count me (queues i) ≡ 0)
    → push_back queues at me idx ≡ me ∷ rest
    → rest ≡ []
put_back-alone queues at me idx rest none e = elim (Bool-cases (idx == at)) [
  | inl f ↦ push_alone me (queues at) rest (none at) (here f)
  | inr f ↦ absurd (not_first me (queues idx) rest (none idx) (there f))
]
  where
    here : (idx == at) ≡ true → queues at ++ me ∷ [] ≡ me ∷ rest
    here f = cc

    there : (idx == at) ≡ false → queues idx ≡ me ∷ rest
    there f = cc

put_back-IsReady :
    (tasks : ℕ → Task) (rq : RunQueue) (is_runnable : Bool)
    → AreTasks tasks rq.idle_task
    → IsQueued tasks rq
    → IsReady tasks rq rq.current_task is_runnable (put_back tasks rq rq.current_task is_runnable)
unfolding put_back
put_back-IsReady tasks rq is_runnable all h = elim (Bool-cases (tasks rq.current_task).is_idle) [
  | inl idle ↦ rw idle (record {
    queues = h.queues;
    load = ground (arith, h.load, idle);
    small = h.small;
    same_task = refl;
    same_level = refl;
    same_idle = refl;
    same_pending = refl;
    alone = λ idx rest e. absurd (not_first rq.current_task (rq.queues idx) rest (h.running idx) e);
    gone = λ r. h.running;
  })
  | inr busy ↦ elim (Bool-cases is_runnable) [
    | inl r ↦
        let level = (tasks rq.current_task).level in
        let low = all.low rq.current_task in
        let up = all.busy rq.current_task busy in
        rw (busy, r)
          (record {
            queues =
                push_back-AreQueues tasks rq.queues (level - 1) rq.current_task h.queues h.running
                  (omega (arith, up)) busy;
            load = ground (
              arith,
              h.load,
              busy,
              total-push_back rq.queues (level - 1) rq.current_task (omega (arith, low, up)),
            );
            small = h.small;
            same_task = refl;
            same_level = refl;
            same_idle = refl;
            same_pending = refl;
            alone =
                λ idx rest. put_back-alone rq.queues (level - 1) rq.current_task idx rest h.running;
            gone = λ f. absurd cc;
          })
    | inr r ↦
        rw (busy, r)
          (record {
            queues = h.queues;
            load = ground (arith, h.load, h.small, busy);
            small = omega arith;
            same_task = refl;
            same_level = refl;
            same_idle = refl;
            same_pending = refl;
            alone = λ idx rest e.
                absurd (not_first rq.current_task (rq.queues idx) rest (h.running idx) e);
            gone = λ f. h.running;
          })
  ]
]

-- What `schedule` leaves: a valid run queue with no request for `schedule`, on which no task of a higher
-- priority waits, and from which the task that called it is gone when it does not go on.
pub record IsScheduled (tasks : ℕ → Task) (rq : RunQueue) (is_runnable : Bool) (after : RunQueue)
    : Type 0 where
  pub valid : IsValid tasks after
  pub answered : after.is_pending ≡ false
  pub highest : (i : ℕ) → after.current_level < suc i → is_empty (after.queues i) ≡ true
  pub gone :
      is_runnable ≡ false
      → (tasks rq.current_task).is_idle ≡ false
      → (after.current_task ≢ rq.current_task)
        × ((i : ℕ) → count rq.current_task (after.queues i) ≡ 0)

-- The queues and the load, whichever way the processor has gone over to the task picked.
picked-IsQueued :
    (tasks : ℕ → Task) (rq : RunQueue) (task : ℕ) (left : ℕ → List ℕ) (armed : Bool)
    → IsPicked tasks rq.queues (task, left)
    → rq.rq_load ≡ total num_queues rq.queues
    → rq.rq_load < int_mod
    → IsQueued tasks (record rq {
      queues = left;
      current_level = (tasks task).level;
      current_task = task;
      is_armed = armed;
    })
picked-IsQueued tasks rq task left armed p load small = record {
  queues = p.left;
  running = p.taken;
  level = refl;
  load = omega (arith, load, p.counted);
  small = small;
}

is_empty-ne : (q : List ℕ) → is_empty q ≡ true → is_empty q ≡ false → ⊥
is_empty-ne q e f = cc

-- The task goes on: it is the only one of its priority.
stay-IsScheduled :
    (tasks : ℕ → Task) (rq ready : RunQueue) (is_runnable : Bool) (left : ℕ → List ℕ)
    → IsPicked tasks ready.queues (rq.current_task, left)
    → IsReady tasks rq rq.current_task is_runnable ready
    → ready.current_level ≡ (tasks rq.current_task).level
    → ready.is_pending ≡ false
    → (is_runnable ≡ false → (tasks rq.current_task).is_idle ≡ true)
    → IsScheduled tasks rq is_runnable (record ready { queues = left })
stay-IsScheduled tasks rq ready is_runnable left p h level asked stays =
    let q = picked-IsQueued tasks ready rq.current_task left ready.is_armed p h.load h.small in
    record {
      valid = record {
        queued = record {
          queues = q.queues;
          running = λ i. rw h.same_task (q.running i);
          level = rw h.same_task level;
          load = rw h.same_task q.load;
          small = q.small;
        };
        served = record {
          higher = λ i up full.
              absurd (is_empty-ne (left i) (p.highest i (omega (arith, level, up))) full);
          peers = λ i same full. absurd (
              is_empty-ne (left i)
                (ap is_empty (h.alone i (left i) (p.behind i (omega (arith, level, same))))) full);
        };
      };
      answered = asked;
      highest = λ i up. p.highest i (omega (arith, level, up));
      gone = λ r busy. absurd (idle_busy (stays r) busy);
    }
  where
    idle_busy : (tasks rq.current_task).is_idle ≡ true → (tasks rq.current_task).is_idle ≡ false → ⊥
    idle_busy e f = cc

-- Another task runs, and the timer is armed when it has peers.
switch-IsScheduled :
    (before : Bool) (tasks : ℕ → Task) (rq ready : RunQueue) (is_runnable : Bool) (task : ℕ)
    (left : ℕ → List ℕ)
    → IsPicked tasks ready.queues (task, left)
    → IsReady tasks rq rq.current_task is_runnable ready
    → task ≢ rq.current_task
    → ready.is_pending ≡ false
    → IsScheduled tasks rq is_runnable
        (context_switch before tasks (record ready { queues = left }) task)
unfolding context_switch
switch-IsScheduled before tasks rq ready is_runnable task left p h other asked = record {
  valid = record {
    queued = picked-IsQueued tasks ready task left _ p h.load h.small;
    served = record {
      higher = λ i up full. absurd (is_empty-ne (left i) (p.highest i up) full);
      peers = λ i same full. rw (same, full) refl;
    };
  };
  answered = asked;
  highest = p.highest;
  gone = λ r busy. (other, λ i. omega (arith, h.gone r i, p.fewer i rq.current_task));
}

switch_to-IsScheduled :
    (before : Bool) (tasks : ℕ → Task) (rq ready : RunQueue) (is_runnable : Bool)
    (picked : ℕ × (ℕ → List ℕ))
    → IsPicked tasks ready.queues picked
    → IsReady tasks rq rq.current_task is_runnable ready
    → ready.current_level ≡ (tasks rq.current_task).level
    → ready.is_pending ≡ false
    → (picked.0 ≡ rq.current_task → is_runnable ≡ false → (tasks rq.current_task).is_idle ≡ true)
    → IsScheduled tasks rq is_runnable (switch_to before tasks ready picked)
unfolding switch_to
switch_to-IsScheduled before tasks rq ready is_runnable (task, left) p h level asked stays =
    elim (Bool-cases (ready.current_task == task)) [
      | inl e ↦
          let same : task ≡ rq.current_task = sym (==→eq ready.current_task task e) ∙ h.same_task in
          rw e (
            stay-IsScheduled tasks rq ready is_runnable left
              (subst (λ t. IsPicked tasks ready.queues (t, left)) same p) h level asked
              (stays same))
      | inr e ↦ rw e (
          switch-IsScheduled before tasks rq ready is_runnable task left p h
            (λ same. ==→ne ready.current_task task e (h.same_task ∙ sym same)) asked)
    ]

-- The task that calls `schedule` and does not go on is not picked.
picked_again :
    (tasks : ℕ → Task) (idle me : ℕ) (queues : ℕ → List ℕ) (picked : ℕ × (ℕ → List ℕ))
    → AreTasks tasks idle
    → IsHighest num_queues queues idle picked
    → ((i : ℕ) → count me (queues i) ≡ 0)
    → picked.0 ≡ me
    → (tasks me).is_idle ≡ true
picked_again tasks idle me queues (task, left) all high none same = elim high [
  | inl (idx, rest, low, here, e, empty) ↦
      absurd (not_first me (queues idx) rest (none idx) (here ∙ ap (λ t. t ∷ rest) same))
  | inr (empty, e) ↦ subst (λ t. (tasks t).is_idle ≡ true) (sym (ap (λ p. p.0) e) ∙ same) all.rests
]

-- `schedule` after the request for it has been cleared.
cleared-IsScheduled :
    (before : Bool) (tasks : ℕ → Task) (rq : RunQueue) (is_runnable : Bool)
    → rq.is_pending ≡ false
    → AreTasks tasks rq.idle_task
    → IsQueued tasks rq
    → IsScheduled tasks rq is_runnable (
        switch_to before tasks
          (put_back tasks rq rq.current_task is_runnable)
          (pick_next_task (put_back tasks rq rq.current_task is_runnable)))
cleared-IsScheduled before tasks rq is_runnable asked all h =
    let ready = put_back tasks rq rq.current_task is_runnable in
    let r = put_back-IsReady tasks rq is_runnable all h in
    let picked = pick_next_task ready in
    let high : IsHighest num_queues ready.queues rq.idle_task picked =
      subst (λ t. IsHighest num_queues ready.queues t picked) r.same_idle
        (pick_next_task-IsHighest ready) in
    switch_to-IsScheduled before tasks rq ready is_runnable picked
      (IsHighest-IsPicked tasks ready.queues rq.idle_task picked all r.queues high) r
      (r.same_level ∙ h.level) (r.same_pending ∙ asked)
      (λ same f.
        picked_again tasks rq.idle_task rq.current_task ready.queues picked all high (r.gone f)
          same)

-- For a valid run queue, `schedule` leaves a valid one with no request for it, on which no task of a
-- higher priority than the one that runs waits, and of which the task that called it is no part when it does not go on
-- and is not the idle task.
pub schedule-IsScheduled :
    (before : Bool) (tasks : ℕ → Task) (rq : RunQueue) (is_runnable : Bool)
    → AreTasks tasks rq.idle_task
    → IsValid tasks rq
    → IsScheduled tasks rq is_runnable (schedule before tasks rq is_runnable)
unfolding schedule
schedule-IsScheduled before tasks rq is_runnable all h =
    let q = h.queued in
    let s =
      cleared-IsScheduled before tasks (record rq { is_pending = false }) is_runnable refl all
        (record {
          queues = q.queues;
          running = q.running;
          level = q.level;
          load = q.load;
          small = q.small;
        }) in
    record { valid = s.valid; answered = s.answered; highest = s.highest; gone = s.gone }
