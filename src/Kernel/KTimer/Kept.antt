-- ===== src/Kernel/KTimer/Kept.antt =====
-- kernel/ktimer.cc: the queue stays in order, and the next interrupt comes in time.
use davix.Prelude.{
  ℕ, ◌+◌, ◌≤◌, ◌≡◌, refl, inl, inr, false, List, [], ◌∷◌, ltb, leb, ◌==◌, if◌then◌else◌, arith,
  Bool-cases, ==→eq, All, All-imp,
}
use davix.Dsl.AvlTree.Sorted.{IsSorted, insert_sorted, insert_sorted-IsSorted}
use davix.Kernel.KTimer.{
  KTimer, KTimerQueue, expiry, ktimer_handle_timer_interrupt, enqueue, without, expiry_of,
  first_expiry, remove,
}

abbrev pub count : ℕ → List KTimer → ℕ
count id [] = 0
count id (timer ∷ timers) = (if id == timer.id then 1 else 0) + count id timers

-- The timers are in order, and those with the flag are there, once.
pub record IsListed (queue : KTimerQueue) : Type 0 where
  pub sorted : IsSorted expiry 0 queue.tree
  pub listed : (id : ℕ) → count id queue.tree ≡ (if queue.on_queue id then 1 else 0)

-- Unless the DPC is enqueued, the next interrupt that is taken for a timer is not after any of them.
abbrev pub IsArmed : KTimerQueue → Type 0
IsArmed queue =
    queue.is_enqueued ≡ false → All (λ timer. queue.next_expiry ≤ timer.expiry_ns) queue.tree

pub record IsQueue (queue : KTimerQueue) : Type 0 where
  pub in_order : IsListed queue
  pub armed : IsArmed queue

count-insert_sorted :
    (id : ℕ) (timer : KTimer) (timers : List KTimer)
    → count id (insert_sorted expiry timer timers)
      ≡ (if id == timer.id then 1 else 0) + count id timers
count-insert_sorted id timer [] = refl
count-insert_sorted id timer (x ∷ timers) = elim (Bool-cases (ltb timer.expiry_ns x.expiry_ns)) [
  | inl e ↦ rw e refl
  | inr e ↦ rw e (omega (arith, count-insert_sorted id timer timers))
]

All-insert_sorted :
    (P : KTimer → Type 0) (timer : KTimer) (timers : List KTimer)
    → P timer
    → All P timers
    → All P (insert_sorted expiry timer timers)
All-insert_sorted P timer [] p h = (p, tt)
All-insert_sorted P timer (x ∷ timers) p h = elim (Bool-cases (ltb timer.expiry_ns x.expiry_ns)) [
  | inl e ↦ rw e (p, h)
  | inr e ↦ rw e (h.0, All-insert_sorted P timer timers p h.1)
]

count-without :
    (id i : ℕ) (timers : List KTimer)
    → 1 ≤ count id timers
    → count i (without id timers) + (if i == id then 1 else 0) ≡ count i timers
count-without id i [] h = absurd (omega (arith, h))
count-without id i (x ∷ timers) h = elim (Bool-cases (id == x.id)) [
  | inl e ↦ rw (e, ==→eq id x.id e) (omega arith)
  | inr e ↦
      let rest = count-without id i timers (ground (arith, h, e)) in rw e (omega (arith, rest))
]

All-without :
    (P : KTimer → Type 0) (id : ℕ) (timers : List KTimer) → All P timers → All P (without id timers)
All-without P id [] h = tt
All-without P id (x ∷ timers) h = elim (Bool-cases (id == x.id)) [
  | inl e ↦ rw e h.1
  | inr e ↦ rw e (h.0, All-without P id timers h.1)
]

IsSorted-lower :
    (lo lo' : ℕ) (timers : List KTimer)
    → lo' ≤ lo
    → IsSorted expiry lo timers
    → IsSorted expiry lo' timers
IsSorted-lower lo lo' [] le h = tt
IsSorted-lower lo lo' (x ∷ timers) le h = (omega (arith, le, h.0), h.1)

IsSorted-without :
    (lo id : ℕ) (timers : List KTimer)
    → IsSorted expiry lo timers
    → IsSorted expiry lo (without id timers)
IsSorted-without lo id [] h = tt
IsSorted-without lo id (x ∷ timers) h = elim (Bool-cases (id == x.id)) [
  | inl e ↦ rw e (IsSorted-lower x.expiry_ns lo timers h.0 h.1)
  | inr e ↦ rw e (h.0, IsSorted-without x.expiry_ns id timers h.1)
]

pub IsSorted-All :
    (lo n : ℕ) (timers : List KTimer)
    → IsSorted expiry lo timers
    → n ≤ lo
    → All (λ timer. n ≤ timer.expiry_ns) timers
IsSorted-All lo n [] h le = tt
IsSorted-All lo n (x ∷ timers) h le =
    (omega (arith, h.0, le), IsSorted-All x.expiry_ns n timers h.1 (omega (arith, h.0, le)))

first_expiry-All :
    (timers : List KTimer)
    → IsSorted expiry 0 timers
    → All (λ timer. first_expiry timers ≤ timer.expiry_ns) timers
first_expiry-All [] h = tt
first_expiry-All (x ∷ timers) h =
    (omega arith, IsSorted-All x.expiry_ns x.expiry_ns timers h.1 (omega arith))

-- The interrupt leaves the queue in order and armed.
interrupt-IsQueue :
    (now : ℕ) (queue : KTimerQueue)
    → IsQueue queue
    → IsQueue (ktimer_handle_timer_interrupt now queue)
unfolding ktimer_handle_timer_interrupt
interrupt-IsQueue now queue h = elim (Bool-cases (leb queue.next_expiry now)) [
  | inl e ↦ rw e (record {
    in_order = record { sorted = h.in_order.sorted; listed = h.in_order.listed };
    armed = λ f. absurd cc;
  })
  | inr e ↦ rw e h
]

enqueue-IsQueue : (id t : ℕ) (queue : KTimerQueue) → IsQueue queue → IsQueue (enqueue id t queue).1
unfolding enqueue
enqueue-IsQueue id t queue h = elim (Bool-cases (queue.on_queue id)) [
  | inl e ↦ rw e h
  | inr e ↦
      let timer : KTimer = record { id = id; expiry_ns = t } in
      let next = if ltb t queue.next_expiry then t else queue.next_expiry in
      rw e (record {
        in_order = record {
          sorted = insert_sorted-IsSorted expiry 0 timer queue.tree (omega arith) h.in_order.sorted;
          listed = λ i. ground (
            arith,
            count-insert_sorted i timer queue.tree,
            h.in_order.listed i,
            h.in_order.listed id,
            e,
          );
        };
        armed = λ f.
            All-insert_sorted (λ x. next ≤ x.expiry_ns) timer queue.tree (ground arith)
              (All-imp (λ x le. ground (arith, le)) queue.tree (h.armed f));
      })
]

remove-IsQueue : (id : ℕ) (queue : KTimerQueue) → IsQueue queue → IsQueue (remove id queue).1
unfolding remove
remove-IsQueue id queue h = elim (Bool-cases (queue.on_queue id)) [
  | inl e ↦
      let here : 1 ≤ count id queue.tree = ground (arith, h.in_order.listed id, e) in
      let sorted = IsSorted-without 0 id queue.tree h.in_order.sorted in
      rw e (record {
        in_order = record {
          sorted = sorted;
          listed = λ i. ground (
            arith,
            count-without id i queue.tree here,
            h.in_order.listed i,
            h.in_order.listed id,
            e,
          );
        };
        armed = λ f. elim (Bool-cases (expiry_of id queue.tree == queue.next_expiry)) [
          | inl g ↦ rw g (first_expiry-All (without id queue.tree) sorted)
          | inr g ↦
              rw g (All-without (λ x. queue.next_expiry ≤ x.expiry_ns) id queue.tree (h.armed f))
        ];
      })
  | inr e ↦ rw e h
]

-- The timer interrupt, `KTimer::enqueue` and `KTimer::remove` keep a queue in order with right flags, and keep the
-- next expiry at or before that of each timer unless the DPC is enqueued.
pub operations-IsQueue :
    (now id t other : ℕ) (queue : KTimerQueue)
    → IsQueue queue
    → IsQueue (ktimer_handle_timer_interrupt now queue)
      × IsQueue (enqueue id t queue).1
      × IsQueue (remove other queue).1
operations-IsQueue now id t other queue h =
    (interrupt-IsQueue now queue h, enqueue-IsQueue id t queue h, remove-IsQueue other queue h)
