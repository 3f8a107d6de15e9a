-- ===== src/Tests/RwMutex.antt =====
-- The theorems on kernel/rwmutex.cc after a run of two threads, of which the first takes the lock for
-- reading and the second waits for it to write.
use davix.Prelude.{◌≤◌, ◌≡◌, ◌⊎◌, refl, false, true, List, [], ◌∷◌, arith}
use davix.Kernel.RwMutex.{
  RwMutex, init, Phase, idle, reading, want_write, call_read, call_write, first_zero, lock_reader,
  second_zero, lock_common, store_one, unlock_reader, step, Reachable, start, next, none_left,
  one_more,
}
use davix.Kernel.RwMutex.Exclusion.{total, is_reading, is_writing, Reachable-exclusive}
use davix.Kernel.RwMutex.Progress.{Moves, Reachable-Moves}

abbrev read_locked : RwMutex
read_locked = record { common_mutex = true; reader_count = 1; reader_mutex = false }

abbrev first : Phase → List Phase
first p = p ∷ idle ∷ []

run : Reachable read_locked (reading ∷ want_write false ∷ [])
unfolding init
run =
    let r0 = start (one_more (one_more none_left)) in
    let r1 = next r0 (step [] (idle ∷ []) (call_read init false)) in
    let r2 = next r1 (step [] (idle ∷ []) (first_zero init false refl)) in
    let r3 = next r2 (step [] (idle ∷ []) (lock_reader init false refl)) in
    let r4 = next r3 (step [] (idle ∷ []) (second_zero _ false refl)) in
    let r5 = next r4 (step [] (idle ∷ []) (lock_common _ false refl)) in
    let r6 = next r5 (step [] (idle ∷ []) (store_one _)) in
    let r7 = next r6 (step [] (idle ∷ []) (unlock_reader _)) in
    next r7 (step (reading ∷ []) [] (call_write read_locked false))

Reachable-exclusive_example :
    (total is_writing (reading ∷ want_write false ∷ []) ≤ 1)
    × ((total is_writing (reading ∷ want_write false ∷ []) ≡ 0)
        ⊎ (total is_reading (reading ∷ want_write false ∷ []) ≡ 0))
Reachable-exclusive_example =
    Reachable-exclusive read_locked (reading ∷ want_write false ∷ []) (omega arith) run

Reachable-Moves_example : Moves read_locked (reading ∷ want_write false ∷ [])
Reachable-Moves_example =
    Reachable-Moves read_locked (reading ∷ want_write false ∷ []) (omega arith) run (omega arith)
