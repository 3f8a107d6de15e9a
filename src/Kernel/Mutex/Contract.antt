-- ===== src/Kernel/Mutex/Contract.antt =====
-- kernel/mutex.cc: every reachable state satisfies the invariant, and what a `Mutex` promises follows.
use mathlib.Core.Path.{subst}
use davix.Prelude.{
  ℕ, ◌+◌, ◌<◌, ◌≡◌, ◌≢◌, refl, sym, ◌∙◌, ◌⊎◌, inl, inr, Bool, true, false, arith, ◌==◌, Bool-cases,
  ==→eq, ==→ne, List,
}
use davix.Kernel.Mutex.{
  Word, Phase, System, initial, idle, fast_lock, retry, acquire, enqueue, at_push, retry_sleep,
  asleep, retry_nosleep, awake, requeue, at_remove, at_store, at_test, giving_up, leaving, failed,
  locked, fast_unlock, retry_unlock, release, wake_first, at_begin, at_handover, at_wake,
}
use davix.Kernel.Mutex.Queue.{is_waiting, nonempty}
use davix.Kernel.Mutex.Moves.{
  Move, lock, sleep, unlock, set_phase, Step, step, Reachable, start, next,
}
use davix.Kernel.Mutex.Invariant.{holds, has_lock_bit, waits, Knows, Local, Settled, Kept}
use davix.Kernel.Mutex.Kept.{LockMove-Kept, SleepMove-Kept, UnlockMove-Kept}

pub record IsValid (s : System) : Type 0 where
  pub local : (t : ℕ) → 0 < t → Local t s.word s.waiters (s.phase t)
  pub settled : Settled s.word s.waiters
  pub unique :
      (t u : ℕ)
      → 0 < t
      → 0 < u
      → has_lock_bit (s.phase t) ≡ true
      → has_lock_bit (s.phase u) ≡ true
      → t ≡ u

Move-Kept :
    (t u : ℕ) (w w' : Word) (ws ws' : List ℕ) (p p' : Phase)
    → 0 < t
    → t ≢ u
    → 0 < u
    → Local t w ws p
    → Settled w ws
    → Move t w ws p w' ws' p'
    → Kept t u w ws p w' ws' p'
Move-Kept t u w w' ws ws' p p' pos ne pu h st (lock m) =
    LockMove-Kept t u w w' ws ws' p p' pos ne pu h st m
Move-Kept t u w w' ws ws' p p' pos ne pu h st (sleep m) =
    SleepMove-Kept t u w w' ws ws' p p' pos ne pu h st m
Move-Kept t u w w' ws ws' p p' pos ne pu h st (unlock m) =
    UnlockMove-Kept t u w w' ws ws' p p' pos ne pu h st m

-- A task without the lock bit knows nothing of the word and the list but its place in both.
Knows-change :
    (w w' : Word) (ws ws' : List ℕ) (p : Phase)
    → has_lock_bit p ≡ false
    → Knows w ws p
    → Knows w' ws' p
Knows-change w w' ws ws' idle e h = h
Knows-change w w' ws ws' (fast_lock c) e h = h
Knows-change w w' ws ws' (retry c v) e h = h
Knows-change w w' ws ws' (acquire c v) e h = h
Knows-change w w' ws ws' (enqueue c v) e h = h
Knows-change w w' ws ws' (at_push c v) e h = cc
Knows-change w w' ws ws' (retry_sleep c v) e h = cc
Knows-change w w' ws ws' (asleep c) e h = h
Knows-change w w' ws ws' (retry_nosleep c v) e h = h
Knows-change w w' ws ws' (awake c v) e h = h
Knows-change w w' ws ws' (requeue c v) e h = h
Knows-change w w' ws ws' (at_remove c) e h = cc
Knows-change w w' ws ws' (at_store c) e h = cc
Knows-change w w' ws ws' (at_test c v) e h = cc
Knows-change w w' ws ws' (giving_up c v f) e h = cc
Knows-change w w' ws ws' (leaving c v f) e h = cc
Knows-change w w' ws ws' (failed c f) e h = h
Knows-change w w' ws ws' locked e h = h
Knows-change w w' ws ws' fast_unlock e h = h
Knows-change w w' ws ws' (retry_unlock v) e h = h
Knows-change w w' ws ws' (release v) e h = h
Knows-change w w' ws ws' (wake_first v) e h = h
Knows-change w w' ws ws' at_begin e h = cc
Knows-change w w' ws ws' (at_handover u) e h = cc
Knows-change w w' ws ws' (at_wake u) e h = h

initial-IsValid : IsValid initial
unfolding initial
initial-IsValid = record {
  local = λ t pos. ground arith;
  settled = λ e. refl;
  unique = λ t u pt pu e f. cc;
}

-- Another task finds what it needs after a move.
Local-other :
    (t u : ℕ) (w w' : Word) (ws ws' : List ℕ) (p p' q : Phase)
    → Kept t u w ws p w' ws' p'
    → ((w.lock_bit ≡ false) ⊎ (has_lock_bit p ≡ true) → has_lock_bit q ≡ false)
    → Local u w ws q
    → Local u w' ws' q
Local-other t u w w' ws ws' p p' q (_, _, owner, place, change, _) outside h = elim change [
  | inl (same, same') ↦
      subst (λ x. Local u x ws' q) (sym same) (subst (λ xs. Local u w xs q) (sym same') h)
  | inr busy ↦
      let free = outside busy in
      (owner ∙ h.0, place ∙ h.1, λ e. cc, Knows-change w w' ws ws' q free h.3)
]

module _ (s : System) (t : ℕ) (w : Word) (ws : List ℕ) (p : Phase) (v : IsValid s) (pos : 0 < t)
    (m : Move t s.word s.waiters (s.phase t) w ws p) where
  kept : (u : ℕ) → t ≢ u → 0 < u → Kept t u s.word s.waiters (s.phase t) w ws p
  kept u ne pu =
      Move-Kept t u s.word w s.waiters ws (s.phase t) p pos ne pu (v.local t pos) v.settled m

  own : Kept t (t + 1) s.word s.waiters (s.phase t) w ws p
  own = kept (t + 1) (omega arith) (omega arith)

  -- No other task has the lock bit when the mover has it or when it is clear.
  alone :
      (u : ℕ)
      → t ≢ u
      → 0 < u
      → (s.word.lock_bit ≡ false) ⊎ (has_lock_bit (s.phase t) ≡ true)
      → has_lock_bit (s.phase u) ≡ false
  alone u ne pu h = elim (Bool-cases (has_lock_bit (s.phase u))) [
    | inl e ↦ absurd (elim h [
      | inl clear ↦ let set = (v.local u pu).2 e in cc
      | inr mine ↦ ne (v.unique t u pos pu mine e)
    ])
    | inr e ↦ e
  ]

  abbrev after : System
  after = record { word = w; waiters = ws; phase = set_phase s.phase t p }

  unique_after :
      (a b : ℕ)
      → 0 < a
      → 0 < b
      → has_lock_bit (set_phase s.phase t p a) ≡ true
      → has_lock_bit (set_phase s.phase t p b) ≡ true
      → a ≡ b
  unique_after a b pa pb = elim (Bool-cases (t == a)) [
    | inl e ↦ rw e (elim (Bool-cases (t == b)) [
      | inl f ↦ rw f (λ ha hb. sym (==→eq t a e) ∙ ==→eq t b f)
      | inr f ↦ rw f (λ ha hb. let gone = alone b (==→ne t b f) pb (own.5 ha) in cc)
    ])
    | inr e ↦ rw e (elim (Bool-cases (t == b)) [
      | inl f ↦ rw f (λ ha hb. let gone = alone a (==→ne t a e) pa (own.5 hb) in cc)
      | inr f ↦ rw f (λ ha hb. v.unique a b pa pb ha hb)
    ])
  ]

  Local-after : (u : ℕ) → 0 < u → Local u w ws (set_phase s.phase t p u)
  Local-after u pu = elim (Bool-cases (t == u)) [
    | inl e ↦ rw e (subst (λ i. Local i w ws p) (==→eq t u e) own.0)
    | inr e ↦
        let ne = ==→ne t u e in
        rw e (
          Local-other t u s.word w s.waiters ws (s.phase t) p (s.phase u) (kept u ne pu)
            (alone u ne pu) (v.local u pu))
  ]

  after-IsValid : IsValid after
  after-IsValid = record { local = Local-after; settled = own.1; unique = unique_after }

Step-IsValid : (s : System) (t : ℕ) (s' : System) → IsValid s → Step s t s' → IsValid s'
Step-IsValid s t _ v (step _ {w = w} {ws = ws} {p = p} pos m) = after-IsValid s t w ws p v pos m

pub Reachable-IsValid : (s : System) → Reachable s → IsValid s
Reachable-IsValid _ start = initial-IsValid
Reachable-IsValid s (next {s = r} t h m) = Step-IsValid r t s (Reachable-IsValid r h) m

-- In every reachable state, of all tasks at most one has the mutex, and it is the one that the word names.
pub holds_unique :
    (s : System) (t u : ℕ)
    → Reachable s
    → 0 < t
    → 0 < u
    → holds (s.phase t) ≡ true
    → holds (s.phase u) ≡ true
    → (t ≡ u) × (s.word.owner ≡ t)
holds_unique s t u r pt pu ht hu =
    let v = Reachable-IsValid s r in ground (arith, v.local t pt, v.local u pu)

-- In every reachable state, the waiter list has exactly the tasks whose call of `lock_slowpath` has
-- entered and not left it, so it has no waiter of a call that has returned; MUTEX_WAITER says whether it
-- is empty while MUTEX_LOCK is clear; and it is not empty when `unlock_slowpath` takes its first entry.
pub Reachable-waiters :
    (s : System) (t : ℕ)
    → Reachable s
    → 0 < t
    → (is_waiting t s.waiters ≡ waits (s.phase t))
      × (s.word.lock_bit ≡ false → s.word.waiter_bit ≡ nonempty s.waiters)
      × (s.phase t ≡ at_begin → nonempty s.waiters ≡ true)
Reachable-waiters s t r pt =
    let v = Reachable-IsValid s r in
    let h = v.local t pt in (h.1, v.settled, λ e. (subst (λ p. Knows s.word s.waiters p) e h.3).1)

-- What a mutex is for its users: its owner, and whether a task has it. A step changes nothing, or gives
-- a free mutex to the task, or frees the mutex of the task that has it.
abbrev pub Obeys : ℕ → ℕ → Bool → ℕ → Bool → Type 0
Obeys t owner has owner' has' =
    ((owner' ≡ owner) × (has' ≡ has))
    ⊎ ((owner ≡ 0) × (has ≡ false) × (owner' ≡ t) × (has' ≡ true))
    ⊎ ((owner ≡ t) × (has ≡ true) × (owner' ≡ 0) × (has' ≡ false))

one_owner :
    (t o o' : ℕ)
    → 0 < t
    → ((u : ℕ) → t ≢ u → 0 < u → (o' == u) ≡ (o == u))
    → ((o' ≡ o) ⊎ ((o ≡ 0) × (o' ≡ t))) ⊎ ((o ≡ t) × (o' ≡ 0))
one_owner t o o' pos same = ground (arith, same o, same o')

-- In every reachable state, every step of a task either leaves the owner of the mutex and whether the
-- task has it as they are, or gives a free mutex to the task, or frees the mutex that the task has.
pub Step-Obeys :
    (s : System) (t : ℕ) (s' : System)
    → Reachable s
    → Step s t s'
    → Obeys t s.word.owner (holds (s.phase t)) s'.word.owner (holds (s'.phase t))
Step-Obeys s t _ r (step _ {w = w} {ws = ws} {p = p} pos m) =
    let v = Reachable-IsValid s r in
    let before = v.local t pos in
    let now = (own s t w ws p v pos m).0 in
    let here : set_phase s.phase t p t ≡ p = ground arith in
    let owners =
      one_owner t s.word.owner w.owner pos (λ u ne pu. (kept s t w ws p v pos m u ne pu).2) in
    rw here (ground arith)
