-- ===== src/Kernel/Mutex/Moves.antt =====
-- kernel/mutex.cc: the steps of the functions of `Mutex`. The word in a step's index is the value that
-- the access finds, so an exchange that succeeds has the expected value there.
use davix.Prelude.{ℕ, ◌<◌, ◌≡◌, ◌≢◌, true, false, List, [], ◌∷◌, ◌++◌, ◌==◌, if◌then◌else◌}
use davix.Kernel.Mutex.{
  Word, Call, no_timeout, Error, etime, eintr, Phase, idle, fast_lock, retry, acquire, enqueue,
  at_push, retry_sleep, asleep, retry_nosleep, awake, requeue, at_remove, at_store, at_test,
  giving_up, leaving, failed, locked, fast_unlock, retry_unlock, release, wake_first, at_begin,
  at_handover, at_wake, System, initial,
}
use davix.Kernel.Mutex.Queue.{unlink, nonempty}

-- The lock functions up to the sleep.
pub data LockMove (t : ℕ) : Word → List ℕ → Phase → Word → List ℕ → Phase → Type 0 where
  call_lock : (w : Word) (ws : List ℕ) (c : Call) → LockMove t w ws idle w ws (fast_lock c)
  fast_locked :
      (ws : List ℕ) (c : Call)
      → LockMove t
          (record { owner = 0; lock_bit = false; waiter_bit = false })
          ws
          (fast_lock c)
          (record { owner = t; lock_bit = false; waiter_bit = false })
          ws
          locked
  fast_failed : (w : Word) (ws : List ℕ) (c : Call) → LockMove t w ws (fast_lock c) w ws (retry c w)
  busy_try :
      (w v : Word) (ws : List ℕ) (c : Call)
      → v.lock_bit ≡ true
      → c.ns ≡ 0
      → LockMove t w ws (retry c v) w ws (failed c etime)
  -- a round of `spin_on_lock_bit`
  spin :
      (w v : Word) (ws : List ℕ) (c : Call)
      → v.lock_bit ≡ true
      → c.ns ≢ 0
      → LockMove t w ws (retry c v) w ws (retry c w)
  see_free :
      (w v : Word) (ws : List ℕ) (c : Call)
      → v.lock_bit ≡ false
      → v.owner ≡ 0
      → LockMove t w ws (retry c v) w ws (acquire c v)
  acquired :
      (v : Word) (ws : List ℕ) (c : Call)
      → LockMove t v ws
          (acquire c v)
          (record { owner = t; lock_bit = false; waiter_bit = v.waiter_bit })
          ws
          locked
  acquire_failed :
      (w v : Word) (ws : List ℕ) (c : Call) → LockMove t w ws (acquire c v) w ws (retry c w)
  owned_try :
      (w v : Word) (ws : List ℕ) (c : Call)
      → v.lock_bit ≡ false
      → v.owner ≢ 0
      → c.ns ≡ 0
      → LockMove t w ws (retry c v) w ws (failed c etime)
  timed_out :
      (w v : Word) (ws : List ℕ) (c : Call)
      → v.lock_bit ≡ false
      → v.owner ≢ 0
      → c.ns ≢ no_timeout
      → LockMove t w ws (retry c v) w ws (failed c etime)
  interrupted :
      (w v : Word) (ws : List ℕ) (c : Call)
      → v.lock_bit ≡ false
      → v.owner ≢ 0
      → c.interruptible ≡ true
      → LockMove t w ws (retry c v) w ws (failed c eintr)
  will_wait :
      (w v : Word) (ws : List ℕ) (c : Call)
      → v.lock_bit ≡ false
      → v.owner ≢ 0
      → c.ns ≢ 0
      → LockMove t w ws (retry c v) w ws (enqueue c v)
  enqueue_locked :
      (v : Word) (ws : List ℕ) (c : Call)
      → LockMove t v ws (enqueue c v) (record v { lock_bit = true }) ws (at_push c v)
  enqueue_failed :
      (w v : Word) (ws : List ℕ) (c : Call) → LockMove t w ws (enqueue c v) w ws (retry c w)
  push_back :
      (w v : Word) (ws : List ℕ) (c : Call)
      → LockMove t w ws (at_push c v) w (ws ++ t ∷ []) (retry_sleep c v)
  go_to_sleep :
      (w v : Word) (ws : List ℕ) (c : Call)
      → LockMove t w ws
          (retry_sleep c v)
          (record { owner = v.owner; lock_bit = false; waiter_bit = true })
          ws
          (asleep c)
  return_error :
      (w : Word) (ws : List ℕ) (c : Call) (e : Error) → LockMove t w ws (failed c e) w ws idle

-- The rest of `lock_slowpath`, from the wake-up on.
pub data SleepMove (t : ℕ) : Word → List ℕ → Phase → Word → List ℕ → Phase → Type 0 where
  -- woken, timed out or disturbed by a signal
  wake_up :
      (w : Word) (ws : List ℕ) (c : Call)
      → SleepMove t w ws
          (asleep c)
          w
          ws
          (retry_nosleep c (record { owner = 0; lock_bit = false; waiter_bit = true }))
  handed_over :
      (v : Word) (ws : List ℕ) (c : Call)
      → SleepMove t v ws
          (retry_nosleep c v)
          (record { owner = t; lock_bit = true; waiter_bit = true })
          ws
          (at_remove c)
  handover_failed :
      (w v : Word) (ws : List ℕ) (c : Call) → SleepMove t w ws (retry_nosleep c v) w ws (awake c w)
  awake_spin :
      (w v : Word) (ws : List ℕ) (c : Call)
      → v.lock_bit ≡ true
      → SleepMove t w ws (awake c v) w ws (awake c w)
  awake_free :
      (w v : Word) (ws : List ℕ) (c : Call)
      → v.lock_bit ≡ false
      → v.owner ≡ 0
      → SleepMove t w ws (awake c v) w ws (retry_nosleep c v)
  awake_owned :
      (w v : Word) (ws : List ℕ) (c : Call)
      → v.lock_bit ≡ false
      → v.owner ≢ 0
      → SleepMove t w ws (awake c v) w ws (requeue c v)
  requeue_locked :
      (v : Word) (ws : List ℕ) (c : Call)
      → SleepMove t v ws (requeue c v) (record v { lock_bit = true }) ws (at_test c v)
  requeue_failed :
      (w v : Word) (ws : List ℕ) (c : Call) → SleepMove t w ws (requeue c v) w ws (awake c w)
  sleep_again :
      (w v : Word) (ws : List ℕ) (c : Call) → SleepMove t w ws (at_test c v) w ws (retry_sleep c v)
  sleep_timed_out :
      (w v : Word) (ws : List ℕ) (c : Call)
      → c.ns ≢ no_timeout
      → SleepMove t w ws (at_test c v) w ws (giving_up c v etime)
  sleep_interrupted :
      (w v : Word) (ws : List ℕ) (c : Call)
      → c.interruptible ≡ true
      → SleepMove t w ws (at_test c v) w ws (giving_up c v eintr)
  unlink_failed :
      (w v : Word) (ws : List ℕ) (c : Call) (e : Error)
      → SleepMove t w ws (giving_up c v e) w (unlink t ws) (leaving c v e)
  store_failed :
      (w v : Word) (ws : List ℕ) (c : Call) (e : Error)
      → SleepMove t w ws
          (leaving c v e)
          (record {
            owner = v.owner;
            lock_bit = false;
            waiter_bit = if nonempty ws then v.waiter_bit else false;
          })
          ws
          (failed c e)
  unlink_locked :
      (w : Word) (ws : List ℕ) (c : Call)
      → SleepMove t w ws (at_remove c) w (unlink t ws) (at_store c)
  store_locked :
      (w : Word) (ws : List ℕ) (c : Call)
      → SleepMove t w ws
          (at_store c)
          (record { owner = t; lock_bit = false; waiter_bit = if nonempty ws then true else false })
          ws
          locked

pub data UnlockMove (t : ℕ) : Word → List ℕ → Phase → Word → List ℕ → Phase → Type 0 where
  call_unlock : (w : Word) (ws : List ℕ) → UnlockMove t w ws locked w ws fast_unlock
  fast_unlocked :
      (ws : List ℕ)
      → UnlockMove t
          (record { owner = t; lock_bit = false; waiter_bit = false })
          ws
          fast_unlock
          (record { owner = 0; lock_bit = false; waiter_bit = false })
          ws
          idle
  fast_unlock_failed :
      (w : Word) (ws : List ℕ) → UnlockMove t w ws fast_unlock w ws (retry_unlock w)
  unlock_spin :
      (w v : Word) (ws : List ℕ)
      → v.lock_bit ≡ true
      → UnlockMove t w ws (retry_unlock v) w ws (retry_unlock w)
  no_waiter :
      (w v : Word) (ws : List ℕ)
      → v.lock_bit ≡ false
      → v.waiter_bit ≡ false
      → UnlockMove t w ws (retry_unlock v) w ws (release v)
  released :
      (v : Word) (ws : List ℕ)
      → UnlockMove t v ws
          (release v)
          (record { owner = 0; lock_bit = false; waiter_bit = false })
          ws
          idle
  release_failed : (w v : Word) (ws : List ℕ) → UnlockMove t w ws (release v) w ws (retry_unlock w)
  some_waiter :
      (w v : Word) (ws : List ℕ)
      → v.lock_bit ≡ false
      → v.waiter_bit ≡ true
      → UnlockMove t w ws (retry_unlock v) w ws (wake_first v)
  wake_locked :
      (v : Word) (ws : List ℕ)
      → UnlockMove t v ws
          (wake_first v)
          (record { owner = 0; lock_bit = true; waiter_bit = true })
          ws
          at_begin
  wake_failed : (w v : Word) (ws : List ℕ) → UnlockMove t w ws (wake_first v) w ws (retry_unlock w)
  take_first :
      (w : Word) (u : ℕ) (ws : List ℕ) → UnlockMove t w (u ∷ ws) at_begin w (u ∷ ws) (at_handover u)
  store_waiter :
      (w : Word) (ws : List ℕ) (u : ℕ)
      → UnlockMove t w ws
          (at_handover u)
          (record { owner = 0; lock_bit = false; waiter_bit = true })
          ws
          (at_wake u)
  wake : (w : Word) (ws : List ℕ) (u : ℕ) → UnlockMove t w ws (at_wake u) w ws idle

pub data Move (t : ℕ) : Word → List ℕ → Phase → Word → List ℕ → Phase → Type 0 where
  lock :
      {w w' : Word} {ws ws' : List ℕ} {p p' : Phase}
      → LockMove t w ws p w' ws' p'
      → Move t w ws p w' ws' p'
  sleep :
      {w w' : Word} {ws ws' : List ℕ} {p p' : Phase}
      → SleepMove t w ws p w' ws' p'
      → Move t w ws p w' ws' p'
  unlock :
      {w w' : Word} {ws ws' : List ℕ} {p p' : Phase}
      → UnlockMove t w ws p w' ws' p'
      → Move t w ws p w' ws' p'

abbrev pub set_phase : (ℕ → Phase) → ℕ → Phase → ℕ → Phase
set_phase phase t p u = if t == u then p else phase u

-- A step of the system: one task moves.
pub data Step (s : System) : ℕ → System → Type 0 where
  step :
      (t : ℕ) {w : Word} {ws : List ℕ} {p : Phase}
      → 0 < t
      → Move t s.word s.waiters (s.phase t) w ws p
      → Step s t (record { word = w; waiters = ws; phase = set_phase s.phase t p })

pub data Reachable : System → Type 0 where
  start : Reachable initial
  next : {s s' : System} (t : ℕ) → Reachable s → Step s t s' → Reachable s'
