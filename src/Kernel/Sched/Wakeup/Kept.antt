-- ===== src/Kernel/Sched/Wakeup/Kept.antt =====
-- kernel/sched/main.cc: what each step keeps.
use davix.Prelude.{ℕ, ◌+◌, ◌%◌, ◌≡◌, ◌⊎◌, inl, inr, refl, ◌∙◌, false, arith}
use davix.Prelude.Words.{word_mod}
use davix.Kernel.Sched.Wakeup.{
  Waker, trying, refused, to_store, to_load, to_exchange, to_enqueue, returned, Sleep, SleepMove,
  block, leave, take_wakeup, no_wakeup, requeue, run, WakeMove, win_ticket, lose_ticket, store,
  see_on_cpu, see_off_cpu, win_exchange, lose_exchange, enqueue,
}
use davix.Kernel.Sched.Wakeup.Invariant.{IsQuiet, Winner, IsPlaced, has_won, IsOld}

-- A step of the task, while nobody has signalled.
pub SleepMove-IsQuiet :
    (c c' : Sleep)
    → IsPlaced c
    → IsQuiet c
    → SleepMove c c'
    → IsPlaced c' × IsQuiet c' × (c'.ticket ≡ c.ticket)
SleepMove-IsQuiet c c' h q (block e) = ground arith
SleepMove-IsQuiet c c' h q (leave e) = ground arith
SleepMove-IsQuiet c c' h q (take_wakeup e f) = ground arith
SleepMove-IsQuiet c c' h q (no_wakeup e f) = ground arith
SleepMove-IsQuiet c c' h q (requeue e) = ground arith
SleepMove-IsQuiet c c' h q (run n e) = ground arith

-- A step of the task, while a call has won the ticket.
pub SleepMove-Winner :
    (c c' : Sleep) (p : Waker)
    → IsPlaced c
    → Winner p c
    → SleepMove c c'
    → IsPlaced c' × Winner p c' × (c'.ticket ≡ c.ticket)
SleepMove-Winner c c' (trying k) h q m = absurd q
SleepMove-Winner c c' refused h q m = absurd q
SleepMove-Winner c c' to_store h q (block e) = ground arith
SleepMove-Winner c c' to_store h q (leave e) = ground arith
SleepMove-Winner c c' to_store h q (take_wakeup e f) = ground arith
SleepMove-Winner c c' to_store h q (no_wakeup e f) = ground arith
SleepMove-Winner c c' to_store h q (requeue e) = ground arith
SleepMove-Winner c c' to_store h q (run n e) = ground arith
SleepMove-Winner c c' to_load h q (block e) = ground arith
SleepMove-Winner c c' to_load h q (leave e) = ground arith
SleepMove-Winner c c' to_load h q (take_wakeup e f) = ground arith
SleepMove-Winner c c' to_load h q (no_wakeup e f) = ground arith
SleepMove-Winner c c' to_load h q (requeue e) = ground arith
SleepMove-Winner c c' to_load h q (run n e) = ground arith
SleepMove-Winner c c' to_exchange h q (block e) = ground arith
SleepMove-Winner c c' to_exchange h q (leave e) = ground arith
SleepMove-Winner c c' to_exchange h q (take_wakeup e f) = ground arith
SleepMove-Winner c c' to_exchange h q (no_wakeup e f) = ground arith
SleepMove-Winner c c' to_exchange h q (requeue e) = ground arith
SleepMove-Winner c c' to_exchange h q (run n e) = ground arith
SleepMove-Winner c c' to_enqueue h q (block e) = ground arith
SleepMove-Winner c c' to_enqueue h q (leave e) = ground arith
SleepMove-Winner c c' to_enqueue h q (take_wakeup e f) = ground arith
SleepMove-Winner c c' to_enqueue h q (no_wakeup e f) = ground arith
SleepMove-Winner c c' to_enqueue h q (requeue e) = ground arith
SleepMove-Winner c c' to_enqueue h q (run n e) = ground arith
SleepMove-Winner c c' returned h q (block e) = ground arith
SleepMove-Winner c c' returned h q (leave e) = ground arith
SleepMove-Winner c c' returned h q (take_wakeup e f) = ground arith
SleepMove-Winner c c' returned h q (no_wakeup e f) = ground arith
SleepMove-Winner c c' returned h q (requeue e) = ground arith
SleepMove-Winner c c' returned h q (run n e) = ground arith

-- A step of a call that has not won.
pub WakeMove-IsQuiet :
    (k : ℕ) (c c' : Sleep) (p p' : Waker)
    → IsPlaced c
    → IsQuiet c
    → c.ticket ≡ k
    → has_won p ≡ false
    → WakeMove c p c' p'
    → IsPlaced c'
      × (((c' ≡ c) × (has_won p' ≡ false)) ⊎ ((c'.ticket ≡ (k + 1) % word_mod) × Winner p' c'))
WakeMove-IsQuiet k c c' p p' h q e f (win_ticket t g) = (
  record { counted = h.counted; on_cpu = h.on_cpu; early = h.early },
  inr (omega (arith, e, g), q),
)
WakeMove-IsQuiet k c c' p p' h q e f (lose_ticket t g) = (h, inl (refl, refl))
WakeMove-IsQuiet k c c' p p' h q e f store = absurd cc
WakeMove-IsQuiet k c c' p p' h q e f (see_on_cpu g) = absurd cc
WakeMove-IsQuiet k c c' p p' h q e f (see_off_cpu g) = absurd cc
WakeMove-IsQuiet k c c' p p' h q e f (win_exchange g) = absurd cc
WakeMove-IsQuiet k c c' p p' h q e f (lose_exchange g) = absurd cc
WakeMove-IsQuiet k c c' p p' h q e f enqueue = absurd cc

-- A step of the call that has won.
pub WakeMove-Winner :
    (c c' : Sleep) (p p' : Waker)
    → IsPlaced c
    → Winner p c
    → WakeMove c p c' p'
    → IsPlaced c' × Winner p' c' × (c'.ticket ≡ c.ticket)
WakeMove-Winner c c' p p' h q (win_ticket t g) = absurd q
WakeMove-Winner c c' p p' h q (lose_ticket t g) = absurd q
WakeMove-Winner c c' p p' h q store = ground arith
WakeMove-Winner c c' p p' h q (see_on_cpu g) = ground arith
WakeMove-Winner c c' p p' h q (see_off_cpu g) = ground arith
WakeMove-Winner c c' p p' h q (win_exchange g) = ground arith
WakeMove-Winner c c' p p' h q (lose_exchange g) = ground arith
WakeMove-Winner c c' p p' h q enqueue = ground arith

-- A step of another call, when one has won: it does nothing.
pub WakeMove-loser :
    (k : ℕ) (c c' : Sleep) (p p' : Waker)
    → c.ticket ≡ (k + 1) % word_mod
    → IsOld k p
    → has_won p ≡ false
    → WakeMove c p c' p'
    → (c' ≡ c) × (has_won p' ≡ false)
WakeMove-loser k c c' p p' e o f (win_ticket t g) = absurd (o (g ∙ e))
WakeMove-loser k c c' p p' e o f (lose_ticket t g) = (refl, refl)
WakeMove-loser k c c' p p' e o f store = absurd cc
WakeMove-loser k c c' p p' e o f (see_on_cpu g) = absurd cc
WakeMove-loser k c c' p p' e o f (see_off_cpu g) = absurd cc
WakeMove-loser k c c' p p' e o f (win_exchange g) = absurd cc
WakeMove-loser k c c' p p' e o f (lose_exchange g) = absurd cc
WakeMove-loser k c c' p p' e o f enqueue = absurd cc

-- No step leads to the ticket.
pub WakeMove-IsOld : (k : ℕ) (c c' : Sleep) (p p' : Waker) → WakeMove c p c' p' → IsOld k p'
WakeMove-IsOld k c c' p p' (win_ticket t g) = tt
WakeMove-IsOld k c c' p p' (lose_ticket t g) = tt
WakeMove-IsOld k c c' p p' store = tt
WakeMove-IsOld k c c' p p' (see_on_cpu g) = tt
WakeMove-IsOld k c c' p p' (see_off_cpu g) = tt
WakeMove-IsOld k c c' p p' (win_exchange g) = tt
WakeMove-IsOld k c c' p p' (lose_exchange g) = tt
WakeMove-IsOld k c c' p p' enqueue = tt
