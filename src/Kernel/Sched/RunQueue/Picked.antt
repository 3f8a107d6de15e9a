-- ===== src/Kernel/Sched/RunQueue/Picked.antt =====
-- kernel/sched/main.cc: the queues when `pick_next_task` has taken a task.
use davix.Prelude.{
  ℕ, suc, ◌+◌, ◌≤◌, ◌<◌, ◌≡◌, ◌≢◌, inl, inr, ap, true, List, ◌∷◌, arith, ◌==◌, if◌then◌else◌,
  length, ltb, Bool-cases, ==→eq, ==→ne,
}
use davix.Kernel.Sched.RunQueue.{Task, num_queues, is_empty, set_queue}
use davix.Kernel.Sched.RunQueue.Total.{total, count, total-set_queue}
use davix.Kernel.Sched.RunQueue.Valid.{AreTasks, AreQueues, count-first}
use davix.Kernel.Sched.RunQueue.Pick.{IsHighest}

-- The first task is taken from a queue.
count-pop :
    (queues : ℕ → List ℕ) (idx task : ℕ) (rest : List ℕ) (i t : ℕ)
    → queues idx ≡ task ∷ rest
    → count t (queues i)
      ≡ count t (set_queue queues idx rest i) + (if i == idx then if t == task then 1 else 0 else 0)
count-pop queues idx task rest i t here = elim (Bool-cases (i == idx)) [
  | inl e ↦ rw (e, ==→eq i idx e, here) (omega arith)
  | inr e ↦ rw e (omega arith)
]

-- The queues that are left when a task has been picked.
pub record IsPicked (tasks : ℕ → Task) (queues : ℕ → List ℕ) (picked : ℕ × (ℕ → List ℕ))
    : Type 0 where
  pub left : AreQueues tasks picked.1
  pub taken : (i : ℕ) → count picked.0 (picked.1 i) ≡ 0
  pub fewer : (i t : ℕ) → count t (picked.1 i) ≤ count t (queues i)
  pub counted :
      total num_queues picked.1 + (if (tasks picked.0).is_idle then 0 else 1)
      ≡ total num_queues queues
  pub highest : (i : ℕ) → (tasks picked.0).level < suc i → is_empty (picked.1 i) ≡ true
  pub behind : (i : ℕ) → (tasks picked.0).level ≡ suc i → queues i ≡ picked.0 ∷ picked.1 i

-- A queue above those of the priorities is empty.
above_empty :
    (tasks : ℕ → Task) (queues : ℕ → List ℕ) (idle i : ℕ)
    → AreTasks tasks idle
    → AreQueues tasks queues
    → num_queues ≤ i
    → is_empty (queues i) ≡ true
above_empty tasks queues idle i all h up = elim (Bool-cases (is_empty (queues i))) [
  | inl e ↦ e
  | inr e ↦
      let (t, here) = count-first (queues i) e in
      absurd (omega (arith, (h.placed i t here).0, all.low t, up))
]

==-same : (i j : ℕ) → i ≡ j → (i == j) ≡ true
==-same i j e = ground (arith, e)

pub IsHighest-IsPicked :
    (tasks : ℕ → Task) (queues : ℕ → List ℕ) (idle : ℕ) (picked : ℕ × (ℕ → List ℕ))
    → AreTasks tasks idle
    → AreQueues tasks queues
    → IsHighest num_queues queues idle picked
    → IsPicked tasks queues picked
IsHighest-IsPicked tasks queues idle (task, left) all h picked = elim picked [
  | inl (idx, rest, low, here, e, empty) ↦
      let first : 1 ≤ count task (queues idx) = rw here (ground arith) in
      let (at_level, busy) = h.placed idx task first in
      rw e (record {
        left = record {
          distinct = λ i t. omega (arith, count-pop queues idx task rest i t here, h.distinct i t);
          placed =
              λ i t c. h.placed i t (omega (arith, count-pop queues idx task rest i t here, c));
        };
        taken = λ i. elim (Bool-cases (i == idx)) [
          | inl f ↦ ground (arith, count-pop queues idx task rest i task here, h.distinct i task, f)
          | inr f ↦ ground (
            arith,
            count-pop queues idx task rest i task here,
            elsewhere idx i at_level (==→ne i idx f),
          )
        ];
        fewer = λ i t. omega (arith, count-pop queues idx task rest i t here);
        counted =
            rw busy (omega (arith, total-set_queue num_queues idx queues rest low, ap length here));
        highest = λ i up. elim (Bool-cases (ltb i num_queues)) [
          | inl f ↦ ground (arith, at_level, up, f, empty i)
          | inr f ↦ ground (arith, at_level, up, f, above_empty tasks queues idle i all h)
        ];
        behind = λ i e. is_behind idx i rest here (omega (arith, e, at_level));
      })
  | inr (empty, e) ↦ rw e (record {
    left = h;
    taken = λ i. elim (Bool-cases (count idle (queues i) == 0)) [
      | inl f ↦ ==→eq (count idle (queues i)) 0 f
      | inr f ↦ absurd (ground (arith, (h.placed i idle (ground (arith, f))).1, all.rests))
    ];
    fewer = λ i t. omega arith;
    counted = rw all.rests (omega arith);
    highest = λ i up. elim (Bool-cases (ltb i num_queues)) [
      | inl f ↦ ground (arith, f, empty i)
      | inr f ↦ above_empty tasks queues idle i all h (ground (arith, f))
    ];
    behind = λ i e. absurd (omega (arith, e, all.lowest));
  })
]
  where
    elsewhere : (idx i : ℕ) → (tasks task).level ≡ suc idx → i ≢ idx → count task (queues i) ≡ 0
    elsewhere idx i at_level ne = elim (Bool-cases (count task (queues i) == 0)) [
      | inl f ↦ ==→eq (count task (queues i)) 0 f
      | inr f ↦ absurd (ne (same_level (h.placed i task (ground (arith, f))).0))
    ]
      where
        same_level : (tasks task).level ≡ suc i → i ≡ idx
        same_level other = omega (arith, other, at_level)

    is_behind :
        (idx i : ℕ) (rest : List ℕ)
        → queues idx ≡ task ∷ rest
        → i ≡ idx
        → queues i ≡ task ∷ set_queue queues idx rest i
    is_behind idx i rest here same = rw (==-same i idx same, same) here
