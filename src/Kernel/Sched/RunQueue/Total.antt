-- ===== src/Kernel/Sched/RunQueue/Total.antt =====
-- kernel/sched/main.cc: how many tasks the queues have, and how often a task stands on one.
use davix.Prelude.{
  ℕ, zero, suc, ◌+◌, ◌≤◌, ◌<◌, ◌≡◌, inl, inr, refl, List, [], ◌∷◌, ◌++◌, arith, ◌==◌, if◌then◌else◌,
  length, Bool-cases, ==→eq, ==→ne,
}
use davix.Kernel.Sched.RunQueue.{set_queue}

-- The tasks on the queues below `n`.
abbrev pub total : ℕ → (ℕ → List ℕ) → ℕ
total zero queues = 0
total (suc n) queues = total n queues + length (queues n)

abbrev pub count : ℕ → List ℕ → ℕ
count t [] = 0
count t (u ∷ us) = (if t == u then 1 else 0) + count t us

pub count-append : (t : ℕ) (us vs : List ℕ) → count t (us ++ vs) ≡ count t us + count t vs
count-append t [] vs = omega arith
count-append t (u ∷ us) vs = omega (arith, count-append t us vs)

total-set_queue_above :
    (n idx : ℕ) (queues : ℕ → List ℕ) (ts : List ℕ)
    → n ≤ idx
    → total n (set_queue queues idx ts) ≡ total n queues
total-set_queue_above zero idx queues ts h = refl
total-set_queue_above (suc n) idx queues ts h =
    ground (arith, total-set_queue_above n idx queues ts, h)

-- A queue is replaced by one that is longer or shorter.
pub total-set_queue :
    (n idx : ℕ) (queues : ℕ → List ℕ) (ts : List ℕ)
    → idx < n
    → total n (set_queue queues idx ts) + length (queues idx) ≡ total n queues + length ts
total-set_queue zero idx queues ts h = absurd (omega (arith, h))
total-set_queue (suc n) idx queues ts h = elim (Bool-cases (n == idx)) [
  | inl e ↦
      let at_last = total-set_queue_above n idx queues ts (omega (arith, ==→eq n idx e)) in
      rw (e, at_last, ==→eq n idx e) (omega arith)
  | inr e ↦
      let others = total-set_queue n idx queues ts (omega (arith, h, ==→ne n idx e)) in
      rw e (omega (arith, others))
]
