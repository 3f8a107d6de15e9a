-- ===== src/Kernel/RwMutex/Exclusion.antt =====
-- kernel/rwmutex.cc: writers exclude each other and all readers, by an invariant that counts threads.
use davix.Prelude.{
  ℕ, ◌+◌, ◌≤◌, ◌<◌, ◌≡◌, sym, ap, ◌⊎◌, ◌∙◌, refl, true, if◌then◌else◌, ◌==◌, List, [], ◌∷◌, ◌++◌,
  arith, length, length-append,
}
use davix.Prelude.Words.{word_mod}
use davix.Kernel.RwMutex.{
  call_read, call_write, first_zero, first_loaded, first_done, first_retry, first_lost, lock_reader,
  reader_error, second_zero, second_loaded, second_done, second_retry, second_lost, lock_common,
  common_error, store_one, unlock_reader, unlock_failed, last_reader, other_reader, release_common,
  lock_write, write_error, unlock_write, idle, first_load, first_exchange, want_reader, second_load,
  second_exchange, want_common, storing, leaving, failing, reading, releasing, want_write, writing,
  RwMutex, init, Phase, Move, Step, step, AllIdle, none_left, one_more, Reachable, start, next,
}

-- The thread is counted in `reader_count`.
abbrev pub counted : Phase → ℕ
counted leaving = 1
counted reading = 1
counted _ = 0

-- The thread has locked `common_mutex` and must unlock it, or hand it over to the readers.
abbrev pub owns_common : Phase → ℕ
owns_common storing = 1
owns_common releasing = 1
owns_common writing = 1
owns_common _ = 0

abbrev pub owns_reader : Phase → ℕ
owns_reader (second_load b) = 1
owns_reader (second_exchange b v) = 1
owns_reader (want_common b) = 1
owns_reader storing = 1
owns_reader leaving = 1
owns_reader failing = 1
owns_reader _ = 0

-- The thread is about to exchange a count of 0, which the loop condition of `inc_unless_zero` excludes.
abbrev pub exchanges_zero : Phase → ℕ
exchanges_zero (first_exchange b v) = if v == 0 then 1 else 0
exchanges_zero (second_exchange b v) = if v == 0 then 1 else 0
exchanges_zero _ = 0

-- The threads that have the lock for reading, and for writing.
abbrev pub is_reading : Phase → ℕ
is_reading reading = 1
is_reading _ = 0

abbrev pub is_writing : Phase → ℕ
is_writing writing = 1
is_writing _ = 0

abbrev pub total : (Phase → ℕ) → List Phase → ℕ
total f [] = 0
total f (p ∷ ps) = f p + total f ps

pub total-append :
    (f : Phase → ℕ) (xs ys : List Phase) → total f (xs ++ ys) ≡ total f xs + total f ys
total-append f [] ys = omega arith
total-append f (x ∷ xs) ys = omega (arith, total-append f xs ys)

-- The counts of threads fit the state: a mutex is locked while one thread owns it, and the readers
-- together own `common_mutex`.
abbrev pub Fit : RwMutex → ℕ → ℕ → ℕ → ℕ → Type 0
Fit s readers commons locks zeros =
    (s.reader_count ≡ readers)
    × ((if s.common_mutex then 1 else 0) ≡ commons + (if s.reader_count == 0 then 0 else 1))
    × ((if s.reader_mutex then 1 else 0) ≡ locks)
    × (zeros ≡ 0)

-- A move keeps the fit, where `a`, `b`, `c` and `d` count the other threads.
Move-Fit :
    (a b c d : ℕ) (s s' : RwMutex) (p p' : Phase)
    → a + 1 < word_mod
    → Move s p s' p'
    → Fit s (a + counted p) (b + owns_common p) (c + owns_reader p) (d + exchanges_zero p)
    → Fit s' (a + counted p') (b + owns_common p') (c + owns_reader p') (d + exchanges_zero p')
Move-Fit a b c d _ _ _ _ w (call_read s fallible) h = ground arith
Move-Fit a b c d _ _ _ _ w (call_write s fallible) h = ground arith
Move-Fit a b c d _ _ _ _ w (first_zero s fallible e) h = ground arith
Move-Fit a b c d _ _ _ _ w (first_loaded s fallible e) h = ground arith
Move-Fit a b c d _ _ _ _ w (first_done s fallible val e) h = ground arith
Move-Fit a b c d _ _ _ _ w (first_retry s fallible val e) h = ground arith
Move-Fit a b c d _ _ _ _ w (first_lost s fallible val e) h = ground arith
Move-Fit a b c d _ _ _ _ w (lock_reader s fallible e) h = ground arith
Move-Fit a b c d _ _ _ _ w (reader_error s) h = ground arith
Move-Fit a b c d _ _ _ _ w (second_zero s fallible e) h = ground arith
Move-Fit a b c d _ _ _ _ w (second_loaded s fallible e) h = ground arith
Move-Fit a b c d _ _ _ _ w (second_done s fallible val e) h = ground arith
Move-Fit a b c d _ _ _ _ w (second_retry s fallible val e) h = ground arith
Move-Fit a b c d _ _ _ _ w (second_lost s fallible val e) h = ground arith
Move-Fit a b c d _ _ _ _ w (lock_common s fallible e) h = ground arith
Move-Fit a b c d _ _ _ _ w (common_error s) h = ground arith
Move-Fit a b c d _ _ _ _ w (store_one s) h = ground arith
Move-Fit a b c d _ _ _ _ w (unlock_reader s) h = ground arith
Move-Fit a b c d _ _ _ _ w (unlock_failed s) h = ground arith
Move-Fit a b c d _ _ _ _ w (last_reader s e) h = ground arith
Move-Fit a b c d _ _ _ _ w (other_reader s e) h = ground arith
Move-Fit a b c d _ _ _ _ w (release_common s) h = ground arith
Move-Fit a b c d _ _ _ _ w (lock_write s fallible e) h = ground arith
Move-Fit a b c d _ _ _ _ w (write_error s) h = ground arith
Move-Fit a b c d _ _ _ _ w (unlock_write s) h = ground arith

abbrev pub TotalFit : RwMutex → List Phase → Type 0
TotalFit s ps =
    Fit s (total counted ps) (total owns_common ps) (total owns_reader ps) (total exchanges_zero ps)

counted_le_one : (p : Phase) → counted p ≤ 1
counted_le_one idle = omega arith
counted_le_one (first_load b) = omega arith
counted_le_one (first_exchange b v) = omega arith
counted_le_one (want_reader b) = omega arith
counted_le_one (second_load b) = omega arith
counted_le_one (second_exchange b v) = omega arith
counted_le_one (want_common b) = omega arith
counted_le_one storing = omega arith
counted_le_one leaving = omega arith
counted_le_one failing = omega arith
counted_le_one reading = omega arith
counted_le_one releasing = omega arith
counted_le_one (want_write b) = omega arith
counted_le_one writing = omega arith

total-counted_le : (ps : List Phase) → total counted ps ≤ length ps
total-counted_le [] = omega arith
total-counted_le (p ∷ ps) = omega (arith, counted_le_one p, total-counted_le ps)

-- The count at a place apart from the others.
total-split :
    (f : Phase → ℕ) (xs ys : List Phase) (p : Phase)
    → total f (xs ++ p ∷ ys) ≡ (total f xs + total f ys) + f p
total-split f xs ys p = omega (arith, total-append f xs (p ∷ ys))

Step-length : (s s' : RwMutex) (ps ps' : List Phase) → Step s ps s' ps' → length ps' ≡ length ps
Step-length s s' _ _ (step {p = p} {p' = p'} xs ys m) =
    omega (arith, length-append xs (p ∷ ys), length-append xs (p' ∷ ys))

Step-Fit :
    (s s' : RwMutex) (ps ps' : List Phase)
    → length ps < word_mod
    → Step s ps s' ps'
    → TotalFit s ps
    → TotalFit s' ps'
Step-Fit s s' _ _ w (step {p = p} {p' = p'} xs ys m) h =
    let old = λ (f : Phase → ℕ). total-split f xs ys p in
    let new = λ (f : Phase → ℕ). total-split f xs ys p' in
    let len = length-append xs (p ∷ ys) in
    let few : total counted xs + total counted ys + 1 < word_mod =
      omega (arith, total-append counted xs ys, total-counted_le xs, total-counted_le ys, len, w) in
    let kept =
      Move-Fit (total counted xs + total counted ys) (total owns_common xs + total owns_common ys)
        (total owns_reader xs + total owns_reader ys)
        (total exchanges_zero xs + total exchanges_zero ys) s s' p p' few m
        (
          h.0 ∙ old counted,
          h.1 ∙ ap (λ (t : ℕ). t + (if s.reader_count == 0 then 0 else 1)) (old owns_common),
          h.2 ∙ old owns_reader,
          sym (old exchanges_zero) ∙ h.3,
        ) in
    (
      kept.0 ∙ sym (new counted),
      kept.1 ∙ ap (λ (t : ℕ). t + (if s'.reader_count == 0 then 0 else 1)) (sym (new owns_common)),
      kept.2 ∙ sym (new owns_reader),
      new exchanges_zero ∙ kept.3,
    )

AllIdle-total : (f : Phase → ℕ) (ps : List Phase) → f idle ≡ 0 → AllIdle ps → total f ps ≡ 0
AllIdle-total f _ e none_left = refl
AllIdle-total f _ e (one_more {ps = ps} a) = omega (arith, e, AllIdle-total f ps e a)

pub Reachable-Fit :
    (s : RwMutex) (ps : List Phase) → length ps < word_mod → Reachable s ps → TotalFit s ps
unfolding init
Reachable-Fit s ps w (start a) = (
  sym (AllIdle-total counted ps refl a),
  sym (omega (arith, AllIdle-total owns_common ps refl a)),
  sym (AllIdle-total owns_reader ps refl a),
  AllIdle-total exchanges_zero ps refl a,
)
Reachable-Fit s ps w (next {s = t} {ps = qs} r m) =
    let same = Step-length t s qs ps m in
    Step-Fit t s qs ps (omega (arith, same)) m (Reachable-Fit t qs (omega (arith, same)) r)

is_writing_le : (p : Phase) → is_writing p ≤ owns_common p
is_writing_le idle = omega arith
is_writing_le (first_load b) = omega arith
is_writing_le (first_exchange b v) = omega arith
is_writing_le (want_reader b) = omega arith
is_writing_le (second_load b) = omega arith
is_writing_le (second_exchange b v) = omega arith
is_writing_le (want_common b) = omega arith
is_writing_le storing = omega arith
is_writing_le leaving = omega arith
is_writing_le failing = omega arith
is_writing_le reading = omega arith
is_writing_le releasing = omega arith
is_writing_le (want_write b) = omega arith
is_writing_le writing = omega arith

is_reading_le : (p : Phase) → is_reading p ≤ counted p
is_reading_le idle = omega arith
is_reading_le (first_load b) = omega arith
is_reading_le (first_exchange b v) = omega arith
is_reading_le (want_reader b) = omega arith
is_reading_le (second_load b) = omega arith
is_reading_le (second_exchange b v) = omega arith
is_reading_le (want_common b) = omega arith
is_reading_le storing = omega arith
is_reading_le leaving = omega arith
is_reading_le failing = omega arith
is_reading_le reading = omega arith
is_reading_le releasing = omega arith
is_reading_le (want_write b) = omega arith
is_reading_le writing = omega arith

total-le :
    (f g : Phase → ℕ) → ((p : Phase) → f p ≤ g p) → (ps : List Phase) → total f ps ≤ total g ps
total-le f g le [] = omega arith
total-le f g le (p ∷ ps) = omega (arith, le p, total-le f g le ps)

-- In every reachable state of fewer than 2^64 threads, at most one thread has the lock for writing, and
-- then no thread has it for reading.
pub Reachable-exclusive :
    (s : RwMutex) (ps : List Phase)
    → length ps < word_mod
    → Reachable s ps
    → (total is_writing ps ≤ 1) × ((total is_writing ps ≡ 0) ⊎ (total is_reading ps ≡ 0))
Reachable-exclusive s ps w r =
    let fit = Reachable-Fit s ps w r in
    let writers = total-le is_writing owns_common is_writing_le ps in
    let readers = total-le is_reading counted is_reading_le ps in ground arith

-- In every reachable state of fewer than 2^64 threads in which a thread has the lock for reading, the
-- reader count is positive, so that `read_unlock` does not wrap it, and `common_mutex` is locked.
pub Reachable-reader_count :
    (s : RwMutex) (ps : List Phase)
    → length ps < word_mod
    → Reachable s ps
    → 0 < total is_reading ps
    → (total is_reading ps ≤ s.reader_count) × (s.common_mutex ≡ true)
Reachable-reader_count s ps w r pos =
    let fit = Reachable-Fit s ps w r in
    let readers = total-le is_reading counted is_reading_le ps in ground arith
