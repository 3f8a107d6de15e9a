-- ===== src/Kernel/Sched/Wakeup/Woken.antt =====
-- kernel/sched/main.cc: a wake-up is not lost.
use davix.Prelude.{ℕ, ◌+◌, ◌%◌, ◌≡◌, Bool, true, false}
use davix.Prelude.Words.{word_mod}
use davix.Kernel.Sched.Wakeup.{
  Waker, trying, refused, to_store, to_load, to_exchange, to_enqueue, returned, Sleep,
}

-- A call that was at `o` and has not done its exchange has the ticket that it was made with, and one with the ticket
-- `k` was refused only when `k` had been used.
abbrev pub IsFair : ℕ → Sleep → Waker → Waker → Type 0
IsFair k c o (trying u) = o ≡ trying u
IsFair k c o refused = o ≡ trying k → c.ticket ≡ (k + 1) % word_mod
IsFair k c o p = Unit

abbrev ticket_of : Waker → ℕ
ticket_of (trying k) = k
ticket_of p = 0

-- The call has not done its exchange, or it has returned.
abbrev pub is_settled : Waker → Bool
is_settled (trying k) = true
is_settled refused = true
is_settled to_store = false
is_settled to_load = false
is_settled to_exchange = false
is_settled to_enqueue = false
is_settled returned = true
