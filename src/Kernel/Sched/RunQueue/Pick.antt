-- ===== src/Kernel/Sched/RunQueue/Pick.antt =====
-- kernel/sched/main.cc: `pick_next_task` takes the first task of the highest priority.
use davix.Prelude.{
  ℕ, zero, suc, ◌<◌, ◌≡◌, ◌≢◌, ◌⊎◌, inl, inr, refl, List, [], ◌∷◌, arith, ◌==◌, Bool-cases, ==→eq,
  ==→ne,
}
use davix.Kernel.Sched.RunQueue.{
  RunQueue, num_queues, set_queue, pop_or, pick_below, pick_next_task,
}

-- The result of the loop over the priorities below `n`: the first task of a queue above which all are empty, taken
-- from its queue, or the idle task when all are empty.
abbrev pub IsHighest : ℕ → (ℕ → List ℕ) → ℕ → ℕ × (ℕ → List ℕ) → Type 0
IsHighest n queues idle picked =
    ((idx : ℕ) × (rest : List ℕ) × (idx < n)
      × (queues idx ≡ picked.0 ∷ rest)
      × (picked.1 ≡ set_queue queues idx rest)
      × ((i : ℕ) → idx < i → i < n → queues i ≡ []))
    ⊎ (((i : ℕ) → i < n → queues i ≡ []) × (picked ≡ (idle, queues)))

all_empty :
    (P : ℕ → Type 0) (n : ℕ) (queues : ℕ → List ℕ)
    → queues n ≡ []
    → ((j : ℕ) → P j → j < n → queues j ≡ [])
    → (i : ℕ) → P i
    → i < suc n
    → queues i ≡ []
all_empty P n queues e empty i p below = elim (Bool-cases (i == n)) [
  | inl same ↦ rw (==→eq i n same) e
  | inr other ↦ empty i p (below_last (==→ne i n other) below)
]
  where
    below_last : i ≢ n → i < suc n → i < n
    below_last ne h = omega (arith, ne, h)

pop_or-IsHighest :
    (n idle : ℕ) (queues : ℕ → List ℕ) (q : List ℕ) (lower : ℕ × (ℕ → List ℕ))
    → queues n ≡ q
    → IsHighest n queues idle lower
    → IsHighest (suc n) queues idle (pop_or queues n q lower)
pop_or-IsHighest n idle queues (t ∷ ts) lower e h =
    inl (n, ts, omega arith, e, refl, λ i above below. absurd (omega (arith, above, below)))
pop_or-IsHighest n idle queues [] lower e h = elim h [
  | inl (idx, rest, low, here, left, empty) ↦
      inl (idx, rest, omega (arith, low), here, left, all_empty (λ j. idx < j) n queues e empty)
  | inr (empty, same) ↦ inr ((λ i. all_empty (λ j. Unit) n queues e (λ j u. empty j) i tt), same)
]

pick_below-IsHighest :
    (n : ℕ) (queues : ℕ → List ℕ) (idle : ℕ) → IsHighest n queues idle (pick_below n queues idle)
unfolding pick_below
pick_below-IsHighest zero queues idle = inr ((λ i h. absurd (omega (arith, h))), refl)
pick_below-IsHighest (suc n) queues idle =
    pop_or-IsHighest n idle queues (queues n) (pick_below n queues idle) refl
      (pick_below-IsHighest n queues idle)

-- `pick_next_task` gives the first task of the queue of the highest priority that has one, and takes it
-- from there and leaves the other queues, and gives the idle task with the queues as they were when all
-- are empty.
pub pick_next_task-IsHighest :
    (rq : RunQueue) → IsHighest num_queues rq.queues rq.idle_task (pick_next_task rq)
unfolding pick_next_task
pick_next_task-IsHighest rq = pick_below-IsHighest num_queues rq.queues rq.idle_task
