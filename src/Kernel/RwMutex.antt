-- ===== src/Kernel/RwMutex.antt =====
-- kernel/rwmutex.cc and include/davix/rwmutex.h. A thread is at a point of one of the functions, and a
-- step of the system is one atomic access or one call of a `Mutex` by one thread. A `Mutex` is taken
-- here for what its header promises: `lock` returns 0 once the mutex is free and takes it, the variants
-- that can be interrupted or time out may return an error instead, and `unlock` frees it.
pub mod Exclusion
pub mod Progress
use davix.Prelude.{ℕ, Bool, true, false, List, [], ◌∷◌, ◌++◌, ◌≡◌, ◌≢◌}
use davix.Prelude.Words.{add64, sub64}

-- `struct RWMutex`; a mutex is true while it is locked.
pub record RwMutex : Type 0 where
  pub common_mutex : Bool
  pub reader_count : ℕ
  pub reader_mutex : Bool

unfoldable pub init : RwMutex
init = record { common_mutex = false; reader_count = 0; reader_mutex = false }

-- Where a thread is. `fallible` is true in the functions that can be interrupted or time out.
pub data Phase : Type 0 where
  idle : Phase
  -- `inc_unless_zero`, before the load and before the compare-and-exchange, without `reader_mutex`
  first_load : Bool → Phase
  first_exchange : Bool → ℕ → Phase
  -- at `reader_mutex.lock`
  want_reader : Bool → Phase
  -- `inc_unless_zero` again, under `reader_mutex`
  second_load : Bool → Phase
  second_exchange : Bool → ℕ → Phase
  -- at `common_mutex.lock`, then at the store of 1
  want_common : Bool → Phase
  storing : Phase
  -- at `reader_mutex.unlock`, with the lock or with an error
  leaving : Phase
  failing : Phase
  reading : Phase
  -- in `read_unlock`, at `common_mutex.unlock`
  releasing : Phase
  want_write : Bool → Phase
  writing : Phase

-- One step of one thread.
pub data Move : RwMutex → Phase → RwMutex → Phase → Type 0 where
  call_read : (s : RwMutex) (fallible : Bool) → Move s idle s (first_load fallible)
  call_write : (s : RwMutex) (fallible : Bool) → Move s idle s (want_write fallible)
  first_zero :
      (s : RwMutex) (fallible : Bool)
      → s.reader_count ≡ 0
      → Move s (first_load fallible) s (want_reader fallible)
  first_loaded :
      (s : RwMutex) (fallible : Bool)
      → s.reader_count ≢ 0
      → Move s (first_load fallible) s (first_exchange fallible s.reader_count)
  first_done :
      (s : RwMutex) (fallible : Bool) (val : ℕ)
      → s.reader_count ≡ val
      → Move s (first_exchange fallible val) (record s { reader_count = add64 val 1 }) reading
  -- A failed exchange, which may be spurious, loads the count again.
  first_retry :
      (s : RwMutex) (fallible : Bool) (val : ℕ)
      → s.reader_count ≢ 0
      → Move s (first_exchange fallible val) s (first_exchange fallible s.reader_count)
  first_lost :
      (s : RwMutex) (fallible : Bool) (val : ℕ)
      → s.reader_count ≡ 0
      → Move s (first_exchange fallible val) s (want_reader fallible)
  lock_reader :
      (s : RwMutex) (fallible : Bool)
      → s.reader_mutex ≡ false
      → Move s (want_reader fallible) (record s { reader_mutex = true }) (second_load fallible)
  reader_error : (s : RwMutex) → Move s (want_reader true) s idle
  second_zero :
      (s : RwMutex) (fallible : Bool)
      → s.reader_count ≡ 0
      → Move s (second_load fallible) s (want_common fallible)
  second_loaded :
      (s : RwMutex) (fallible : Bool)
      → s.reader_count ≢ 0
      → Move s (second_load fallible) s (second_exchange fallible s.reader_count)
  second_done :
      (s : RwMutex) (fallible : Bool) (val : ℕ)
      → s.reader_count ≡ val
      → Move s (second_exchange fallible val) (record s { reader_count = add64 val 1 }) leaving
  second_retry :
      (s : RwMutex) (fallible : Bool) (val : ℕ)
      → s.reader_count ≢ 0
      → Move s (second_exchange fallible val) s (second_exchange fallible s.reader_count)
  second_lost :
      (s : RwMutex) (fallible : Bool) (val : ℕ)
      → s.reader_count ≡ 0
      → Move s (second_exchange fallible val) s (want_common fallible)
  lock_common :
      (s : RwMutex) (fallible : Bool)
      → s.common_mutex ≡ false
      → Move s (want_common fallible) (record s { common_mutex = true }) storing
  common_error : (s : RwMutex) → Move s (want_common true) s failing
  store_one : (s : RwMutex) → Move s storing (record s { reader_count = 1 }) leaving
  unlock_reader : (s : RwMutex) → Move s leaving (record s { reader_mutex = false }) reading
  unlock_failed : (s : RwMutex) → Move s failing (record s { reader_mutex = false }) idle
  -- `read_unlock`
  last_reader :
      (s : RwMutex)
      → sub64 s.reader_count 1 ≡ 0
      → Move s reading (record s { reader_count = sub64 s.reader_count 1 }) releasing
  other_reader :
      (s : RwMutex)
      → sub64 s.reader_count 1 ≢ 0
      → Move s reading (record s { reader_count = sub64 s.reader_count 1 }) idle
  release_common : (s : RwMutex) → Move s releasing (record s { common_mutex = false }) idle
  lock_write :
      (s : RwMutex) (fallible : Bool)
      → s.common_mutex ≡ false
      → Move s (want_write fallible) (record s { common_mutex = true }) writing
  write_error : (s : RwMutex) → Move s (want_write true) s idle
  -- `write_unlock`
  unlock_write : (s : RwMutex) → Move s writing (record s { common_mutex = false }) idle

-- A step of the system: one of the threads moves.
pub data Step : RwMutex → List Phase → RwMutex → List Phase → Type 0 where
  step :
      {s s' : RwMutex} {p p' : Phase} (xs ys : List Phase)
      → Move s p s' p'
      → Step s (xs ++ p ∷ ys) s' (xs ++ p' ∷ ys)

pub data AllIdle : List Phase → Type 0 where
  none_left : AllIdle []
  one_more : {ps : List Phase} → AllIdle ps → AllIdle (idle ∷ ps)

-- What the threads can reach, when no thread is in a call at first.
pub data Reachable : RwMutex → List Phase → Type 0 where
  start : {ps : List Phase} → AllIdle ps → Reachable init ps
  next :
      {s s' : RwMutex} {ps ps' : List Phase} → Reachable s ps → Step s ps s' ps' → Reachable s' ps'
