-- ===== src/Kernel/KTimer/Run.antt =====
-- kernel/ktimer.cc: the DPC runs every timer that has expired.
use davix.Prelude.{
  ℕ, zero, suc, ◌≤◌, ◌<◌, ◌≡◌, refl, inl, inr, false, some, List, [], ◌∷◌, ltb, if◌then◌else◌,
  arith, Bool-cases, ltb→lt, All, All-imp, length,
}
use davix.Dsl.AvlTree.Sorted.{IsSorted}
use davix.Kernel.KTimer.{KTimer, KTimerQueue, expiry, set_flag, run_timers, timer_dpc_func}
use davix.Kernel.KTimer.Kept.{count, IsListed, IsSorted-All}

-- A callback keeps the queue in order, and does not add timers.
pub record IsCallback (callback_fn : ℕ → KTimerQueue → KTimerQueue) : Type 0 where
  pub keeps : (id : ℕ) (queue : KTimerQueue) → IsListed queue → IsListed (callback_fn id queue)
  pub adds_none :
      (id : ℕ) (queue : KTimerQueue) → length (callback_fn id queue).tree ≤ length queue.tree

-- The queue is in order, the next expiry is at or before that of each timer on it, and no timer is left that had expired at `n`.
pub record IsRun (n : ℕ) (queue : KTimerQueue) : Type 0 where
  pub in_order : IsListed queue
  pub armed : All (λ timer. queue.next_expiry ≤ timer.expiry_ns) queue.tree
  pub expired_none : All (λ timer. n < timer.expiry_ns) queue.tree

-- The first timer is taken off the queue.
pop-IsListed :
    (timer : KTimer) (timers : List KTimer) (queue : KTimerQueue)
    → queue.tree ≡ timer ∷ timers
    → IsListed queue
    → IsListed (record queue { tree = timers; on_queue = set_flag queue.on_queue timer.id false })
pop-IsListed timer timers queue e h =
    let sorted : IsSorted expiry 0 (timer ∷ timers) = rw e at h.sorted in
    let listed : (i : ℕ) → count i (timer ∷ timers) ≡ (if queue.on_queue i then 1 else 0) =
      rw e at h.listed in
    record {
      sorted = lower timer.expiry_ns timers sorted.1;
      listed = λ i. ground (arith, listed i, listed timer.id);
    }
  where
    lower : (lo : ℕ) (xs : List KTimer) → IsSorted expiry lo xs → IsSorted expiry 0 xs
    lower lo [] s = tt
    lower lo (x ∷ xs) s = (omega arith, s.1)

run_timers-IsRun :
    (fuel : ℕ) (clock : ℕ → ℕ) (callback_fn : ℕ → KTimerQueue → KTimerQueue) (now n : ℕ)
    (tree : List KTimer) (queue : KTimerQueue)
    → IsCallback callback_fn
    → ((i : ℕ) → i < fuel → n ≤ clock i)
    → n ≤ now
    → queue.tree ≡ tree
    → length tree < fuel
    → IsListed queue
    → (after : KTimerQueue) × (run_timers fuel clock callback_fn now tree queue ≡ some after)
      × IsRun n after
unfolding run_timers
run_timers-IsRun zero clock callback_fn now n tree queue cb forward le e enough h =
    absurd (omega (arith, enough))
run_timers-IsRun (suc fuel) clock callback_fn now n [] queue cb forward le e enough h =
    (queue, refl, record { in_order = h; armed = rw e tt; expired_none = rw e tt })
run_timers-IsRun (suc fuel) clock callback_fn now n (timer ∷ timers) queue cb forward le e enough
      h =
    let now' = if ltb now timer.expiry_ns then clock fuel else now in
    let later : n ≤ now' = ground (arith, le, forward fuel (omega arith)) in
    elim (Bool-cases (ltb now' timer.expiry_ns)) [
      | inl f ↦
          let waits = ltb→lt now' timer.expiry_ns f in
          let sorted : IsSorted expiry 0 (timer ∷ timers) = rw e at h.sorted in
          let next =
            if ltb timer.expiry_ns queue.next_expiry then timer.expiry_ns else queue.next_expiry in
          let above : All (λ x. timer.expiry_ns ≤ x.expiry_ns) (timer ∷ timers) = (
            omega arith,
            IsSorted-All timer.expiry_ns timer.expiry_ns timers sorted.1 (omega arith),
          ) in
          (
            record queue { next_expiry = next },
            rw f refl,
            record {
              in_order = record { sorted = h.sorted; listed = h.listed };
              armed = rw e (All-imp (λ x low. ground (arith, low)) (timer ∷ timers) above);
              expired_none =
                  rw e (All-imp (λ x low. omega (arith, low, waits, later)) (timer ∷ timers) above);
            },
          )
      | inr f ↦
          let popped : KTimerQueue = record queue {
            tree = timers;
            on_queue = set_flag queue.on_queue timer.id false;
          } in
          let called = callback_fn timer.id popped in
          let (after, same, ok) =
            run_timers-IsRun fuel clock callback_fn now' n called.tree called cb
              (λ i low. forward i (omega (arith, low))) later refl
              (omega (arith, enough, cb.adds_none timer.id popped))
              (cb.keeps timer.id popped (pop-IsListed timer timers queue e h)) in
          (after, rw f same, ok)
    ]

-- For callbacks that keep the queue in order and do not add timers, and a clock that does not go back: `timer_dpc_func`
-- ends after at most as many rounds as there are timers and one, and leaves a queue in order in which no timer is left
-- that had expired when it began, and whose next expiry is at or before that of each timer, also when a callback has set
-- `is_enqueued` again.
pub timer_dpc_func-IsRun :
    (fuel : ℕ) (clock : ℕ → ℕ) (callback_fn : ℕ → KTimerQueue → KTimerQueue) (queue : KTimerQueue)
    → IsCallback callback_fn
    → ((i : ℕ) → i < fuel → clock fuel ≤ clock i)
    → length queue.tree < fuel
    → IsListed queue
    → (after : KTimerQueue) × (timer_dpc_func fuel clock callback_fn queue ≡ some after)
      × IsRun (clock fuel) after
unfolding timer_dpc_func
timer_dpc_func-IsRun fuel clock callback_fn queue cb forward enough h =
    run_timers-IsRun fuel clock callback_fn (clock fuel) (clock fuel) queue.tree
      (record queue { is_enqueued = false }) cb forward (omega arith) refl enough
      (record { sorted = h.sorted; listed = h.listed })
