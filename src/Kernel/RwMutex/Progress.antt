-- ===== src/Kernel/RwMutex/Progress.antt =====
-- kernel/rwmutex.cc: the threads never block each other for good.
use davix.Prelude.{
  ℕ, ◌+◌, ◌<◌, ◌≡◌, refl, ap, inl, inr, Bool, true, false, List, [], ◌∷◌, ◌++◌, arith, length, ◌==◌,
  Bool-cases, ==→eq, ==→ne,
}
use davix.Prelude.Words.{word_mod, sub64}
use davix.Kernel.RwMutex.{
  RwMutex, Phase, Move, Reachable, idle, first_load, first_exchange, want_reader, second_load,
  second_exchange, want_common, storing, leaving, failing, reading, releasing, want_write, writing,
  first_zero, first_loaded, first_done, first_retry, first_lost, lock_reader, second_zero,
  second_loaded, second_done, second_retry, second_lost, lock_common, store_one, unlock_reader,
  unlock_failed, last_reader, other_reader, release_common, lock_write, unlock_write,
}
use davix.Kernel.RwMutex.Exclusion.{
  total, counted, owns_common, owns_reader, TotalFit, Reachable-Fit,
}

-- The thread is in a call, or has the lock.
abbrev pub busy : Phase → ℕ
busy idle = 0
busy _ = 1

-- The thread can make a step.
abbrev pub Can : RwMutex → Phase → Type 0
Can s p = (s' : RwMutex) × (p' : Phase) × Move s p s' p'

-- Some thread that is in a call can make a step.
abbrev pub Moves : RwMutex → List Phase → Type 0
Moves s ps =
    (xs : List Phase) × (p : Phase) × (ys : List Phase) × (ps ≡ xs ++ p ∷ ys)
    × (busy p ≡ 1)
    × Can s p

-- A positive total comes from some thread.
counted_at :
    (f : Phase → ℕ) (ps : List Phase)
    → 0 < total f ps
    → (xs : List Phase) × (p : Phase) × (ys : List Phase) × (ps ≡ xs ++ p ∷ ys) × (0 < f p)
counted_at f [] h = absurd (omega arith)
counted_at f (p ∷ ps) h = elim (Bool-cases (f p == 0)) [
  | inl e ↦
      let (xs, q, ys, same, pos) = counted_at f ps (omega (arith, ==→eq (f p) 0 e)) in
      (p ∷ xs, q, ys, ap (λ t. p ∷ t) same, pos)
  | inr e ↦ ([], p, ps, refl, omega (arith, ==→ne (f p) 0 e))
]

Can-exchange :
    (s : RwMutex) (b : Bool) (v : ℕ) → Can s (first_exchange b v) × Can s (second_exchange b v)
Can-exchange s b v = elim (Bool-cases (s.reader_count == v)) [
  | inl e ↦ (
    (_, _, first_done s b v (==→eq s.reader_count v e)),
    (_, _, second_done s b v (==→eq s.reader_count v e)),
  )
  | inr e ↦ elim (Bool-cases (s.reader_count == 0)) [
    | inl z ↦ (
      (_, _, first_lost s b v (==→eq s.reader_count 0 z)),
      (_, _, second_lost s b v (==→eq s.reader_count 0 z)),
    )
    | inr z ↦ (
      (_, _, first_retry s b v (==→ne s.reader_count 0 z)),
      (_, _, second_retry s b v (==→ne s.reader_count 0 z)),
    )
  ]
]

Can-load : (s : RwMutex) (b : Bool) → Can s (first_load b) × Can s (second_load b)
Can-load s b = elim (Bool-cases (s.reader_count == 0)) [
  | inl z ↦ (
    (_, _, first_zero s b (==→eq s.reader_count 0 z)),
    (_, _, second_zero s b (==→eq s.reader_count 0 z)),
  )
  | inr z ↦ (
    (_, _, first_loaded s b (==→ne s.reader_count 0 z)),
    (_, _, second_loaded s b (==→ne s.reader_count 0 z)),
  )
]

Can-stop_reading : (s : RwMutex) → Can s reading
Can-stop_reading s = elim (Bool-cases (sub64 s.reader_count 1 == 0)) [
  | inl z ↦ (_, _, last_reader s (==→eq (sub64 s.reader_count 1) 0 z))
  | inr z ↦ (_, _, other_reader s (==→ne (sub64 s.reader_count 1) 0 z))
]

-- Whoever owns `common_mutex`, a reader included, can make a step.
common_owner : (s : RwMutex) (p : Phase) → 0 < owns_common p + counted p → (busy p ≡ 1) × Can s p
common_owner s storing h = (refl, (_, _, store_one s))
common_owner s leaving h = (refl, (_, _, unlock_reader s))
common_owner s reading h = (refl, Can-stop_reading s)
common_owner s releasing h = (refl, (_, _, release_common s))
common_owner s writing h = (refl, (_, _, unlock_write s))
common_owner s idle h = absurd (omega arith)
common_owner s (first_load b) h = absurd (omega arith)
common_owner s (first_exchange b v) h = absurd (omega arith)
common_owner s (want_reader b) h = absurd (omega arith)
common_owner s (second_load b) h = absurd (omega arith)
common_owner s (second_exchange b v) h = absurd (omega arith)
common_owner s (want_common b) h = absurd (omega arith)
common_owner s failing h = absurd (omega arith)
common_owner s (want_write b) h = absurd (omega arith)

total-sum :
    (f g : Phase → ℕ) (ps : List Phase) → total (λ p. f p + g p) ps ≡ total f ps + total g ps
total-sum f g [] = refl
total-sum f g (p ∷ ps) = omega (arith, total-sum f g ps)

-- A locked `common_mutex` has an owner that can make a step.
locked-Moves : (s : RwMutex) (ps : List Phase) → TotalFit s ps → s.common_mutex ≡ true → Moves s ps
locked-Moves s ps fit e =
    let pos : 0 < total (λ p. owns_common p + counted p) ps =
      ground (arith, total-sum owns_common counted ps) in
    let (xs, p, ys, same, here) = counted_at (λ p. owns_common p + counted p) ps pos in
    let (b, can) = common_owner s p here in (xs, p, ys, same, b, can)

-- A thread at `common_mutex.lock`, or some owner of the mutex, can make a step.
module _ (s : RwMutex) (ps : List Phase) (fit : TotalFit s ps) where
  at_common :
      (xs : List Phase) (p : Phase) (ys : List Phase)
      → ps ≡ xs ++ p ∷ ys
      → busy p ≡ 1
      → (s.common_mutex ≡ false → Can s p)
      → Moves s ps
  at_common xs p ys same b free = elim (Bool-cases s.common_mutex) [
    | inl e ↦ locked-Moves s ps fit e
    | inr e ↦ (xs, p, ys, same, b, free e)
  ]

  reader_owner :
      (xs : List Phase) (p : Phase) (ys : List Phase)
      → ps ≡ xs ++ p ∷ ys
      → 0 < owns_reader p
      → Moves s ps
  reader_owner xs (second_load b) ys same h = (xs, _, ys, same, refl, (Can-load s b).1)
  reader_owner xs (second_exchange b v) ys same h = (xs, _, ys, same, refl, (Can-exchange s b v).1)
  reader_owner xs (want_common b) ys same h =
      at_common xs (want_common b) ys same refl (λ e. (_, _, lock_common s b e))
  reader_owner xs storing ys same h = (xs, _, ys, same, refl, (_, _, store_one s))
  reader_owner xs leaving ys same h = (xs, _, ys, same, refl, (_, _, unlock_reader s))
  reader_owner xs failing ys same h = (xs, _, ys, same, refl, (_, _, unlock_failed s))
  reader_owner xs idle ys same h = absurd (omega arith)
  reader_owner xs (first_load b) ys same h = absurd (omega arith)
  reader_owner xs (first_exchange b v) ys same h = absurd (omega arith)
  reader_owner xs (want_reader b) ys same h = absurd (omega arith)
  reader_owner xs reading ys same h = absurd (omega arith)
  reader_owner xs releasing ys same h = absurd (omega arith)
  reader_owner xs (want_write b) ys same h = absurd (omega arith)
  reader_owner xs writing ys same h = absurd (omega arith)

  at_reader :
      (xs : List Phase) (b : Bool) (ys : List Phase) → ps ≡ xs ++ want_reader b ∷ ys → Moves s ps
  at_reader xs b ys same = elim (Bool-cases s.reader_mutex) [
    | inl e ↦
        let pos : 0 < total owns_reader ps = ground arith in
        let (us, p, vs, at, own) = counted_at owns_reader ps pos in reader_owner us p vs at own
    | inr e ↦ (xs, want_reader b, ys, same, refl, (_, _, lock_reader s b e))
  ]

  busy-Moves :
      (xs : List Phase) (p : Phase) (ys : List Phase) → ps ≡ xs ++ p ∷ ys → 0 < busy p → Moves s ps
  busy-Moves xs idle ys same h = absurd (omega arith)
  busy-Moves xs (first_load b) ys same h = (xs, _, ys, same, refl, (Can-load s b).0)
  busy-Moves xs (first_exchange b v) ys same h = (xs, _, ys, same, refl, (Can-exchange s b v).0)
  busy-Moves xs (want_reader b) ys same h = at_reader xs b ys same
  busy-Moves xs (second_load b) ys same h = reader_owner xs _ ys same (omega arith)
  busy-Moves xs (second_exchange b v) ys same h =
      reader_owner xs (second_exchange b v) ys same (omega arith)
  busy-Moves xs (want_common b) ys same h = reader_owner xs (want_common b) ys same (omega arith)
  busy-Moves xs storing ys same h = reader_owner xs storing ys same (omega arith)
  busy-Moves xs leaving ys same h = reader_owner xs leaving ys same (omega arith)
  busy-Moves xs failing ys same h = reader_owner xs failing ys same (omega arith)
  busy-Moves xs reading ys same h = (xs, _, ys, same, refl, Can-stop_reading s)
  busy-Moves xs releasing ys same h = (xs, _, ys, same, refl, (_, _, release_common s))
  busy-Moves xs (want_write b) ys same h =
      at_common xs (want_write b) ys same refl (λ e. (_, _, lock_write s b e))
  busy-Moves xs writing ys same h = (xs, _, ys, same, refl, (_, _, unlock_write s))

-- In every reachable state of fewer than 2^64 threads in which some thread is in a call or has the lock,
-- some thread that is in a call or has the lock can make a step: there is no deadlock.
pub Reachable-Moves :
    (s : RwMutex) (ps : List Phase)
    → length ps < word_mod
    → Reachable s ps
    → 0 < total busy ps
    → Moves s ps
Reachable-Moves s ps w r some_busy =
    let (xs, p, ys, same, here) = counted_at busy ps some_busy in
    busy-Moves s ps (Reachable-Fit s ps w r) xs p ys same here
