-- ===== src/Kernel/Sched/Wakeup/Invariant.antt =====
-- kernel/sched/main.cc: who is to put the task on a run queue.
use davix.Prelude.{ℕ, ◌+◌, ◌%◌, ◌≡◌, ◌≢◌, ◌⊎◌, Bool, true, false}
use davix.Prelude.Words.{word_mod}
use davix.Kernel.Sched.Wakeup.{
  Switch, armed, at_on_cpu, at_exchange, at_enqueue, finished, Waker, trying, refused, to_store,
  to_load, to_exchange, to_enqueue, returned, Sleep, System,
}

-- The task has not left its processor.
abbrev pub is_early : Switch → Bool
is_early armed = true
is_early at_on_cpu = true
is_early at_exchange = false
is_early at_enqueue = false
is_early finished = false

abbrev pub is_enqueuing : Switch → Bool
is_enqueuing at_enqueue = true
is_enqueuing armed = false
is_enqueuing at_on_cpu = false
is_enqueuing at_exchange = false
is_enqueuing finished = false

abbrev pub is_finished : Switch → Bool
is_finished finished = true
is_finished armed = false
is_finished at_on_cpu = false
is_finished at_exchange = false
is_finished at_enqueue = false

abbrev pub bit : Bool → ℕ
bit true = 1
bit false = 0

-- The wake-up is in one place: it is stored, or the switch or a run queue has it.
abbrev pub IsOnce : Sleep → Type 0
IsOnce c = bit c.pending + bit (is_enqueuing c.switch) + c.wakes ≡ 1

-- Nobody has signalled the wake-up.
abbrev pub IsQuiet : Sleep → Type 0
IsQuiet c = (c.pending ≡ false) × (is_enqueuing c.switch ≡ false) × (c.wakes ≡ 0)

-- What holds while the call that has won the ticket is at a place.
abbrev pub Winner : Waker → Sleep → Type 0
Winner (trying k) c = ⊥
Winner refused c = ⊥
Winner to_store c = IsQuiet c
Winner to_load c = IsOnce c
Winner to_exchange c = IsOnce c × (is_early c.switch ≡ false)
Winner to_enqueue c = IsQuiet c × (is_early c.switch ≡ false)
Winner returned c = IsOnce c × ((c.pending ≡ false) ⊎ (is_finished c.switch ≡ false))

-- The task is on a processor before the switch and when it was taken to run, and a run queue has it only after
-- the switch.
pub record IsPlaced (c : Sleep) : Type 0 where
  pub counted : c.wakes ≡ c.queued + c.runs
  pub on_cpu : bit c.on_cpu ≡ bit (is_early c.switch) + c.runs
  pub early : (is_early c.switch ≡ false) ⊎ (c.wakes ≡ 0)

-- No call has won the ticket.
abbrev pub has_won : Waker → Bool
has_won (trying k) = false
has_won refused = false
has_won to_store = true
has_won to_load = true
has_won to_exchange = true
has_won to_enqueue = true
has_won returned = true

-- A call that has not won does not have the ticket after `k`.
abbrev pub IsOld : ℕ → Waker → Type 0
IsOld k (trying t) = t ≢ (k + 1) % word_mod
IsOld k p = Unit

-- Either the ticket is out and nobody has won it, or one call has won it.
abbrev pub IsHeld : ℕ → System → Type 0
IsHeld k s =
    ((s.sleep.ticket ≡ k) × IsQuiet s.sleep × ((u : ℕ) → has_won (s.wakers u) ≡ false))
    ⊎ ((w : ℕ) × (s.sleep.ticket ≡ (k + 1) % word_mod)
        × Winner (s.wakers w) s.sleep
        × ((u : ℕ) → u ≢ w → has_won (s.wakers u) ≡ false))

pub record IsValid (k : ℕ) (s : System) : Type 0 where
  pub placed : IsPlaced s.sleep
  pub old : (u : ℕ) → IsOld k (s.wakers u)
  pub held : IsHeld k s

-- Nothing of an earlier sleep is left: no wake-up is pending, no call that has won an earlier ticket is still on its
-- way, and no call has the ticket after `k`, which was not given out.
pub record IsFresh (k : ℕ) (pending : Bool) (callers : ℕ → Waker) : Type 0 where
  pub none_pending : pending ≡ false
  pub none_won : (u : ℕ) → has_won (callers u) ≡ false
  pub old : (u : ℕ) → IsOld k (callers u)
