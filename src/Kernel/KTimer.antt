-- ===== src/Kernel/KTimer.antt =====
-- kernel/ktimer.cc: the timers of one processor. The tree is its sequence, which Dsl/AvlTree shows to be what `insert`,
-- `remove` and `first` work on. The state is that between two changes of `next_expiry` by this processor.
pub mod Kept
pub mod Run
use davix.Prelude.{
  ℕ, zero, suc, ◌+◌, ◌≡◌, Bool, true, false, not, Option, none, some, List, [], ◌∷◌, ltb, leb, ◌==◌,
  if◌then◌else◌,
}
use davix.Prelude.Words.{word_max}
use davix.Dsl.AvlTree.Sorted.{insert_sorted}

abbrev pub expire_never : ℕ
expire_never = word_max

pub record KTimer : Type 0 where
  pub id : ℕ
  pub expiry_ns : ℕ

-- `KTimerQueue`, with the `on_queue` flags of the timers and whether the DPC is enqueued.
pub record KTimerQueue : Type 0 where
  pub tree : List KTimer
  pub next_expiry : ℕ
  pub is_enqueued : Bool
  pub on_queue : ℕ → Bool

abbrev pub expiry : KTimer → ℕ
expiry timer = timer.expiry_ns

abbrev pub set_flag : (ℕ → Bool) → ℕ → Bool → ℕ → Bool
set_flag flags id b i = if i == id then b else flags i

unfoldable pub ktimer_handle_timer_interrupt : ℕ → KTimerQueue → KTimerQueue
ktimer_handle_timer_interrupt now queue =
    if leb queue.next_expiry now
    then record queue { next_expiry = expire_never; is_enqueued = true }
    else queue

-- `KTimer::enqueue`
unfoldable pub enqueue : ℕ → ℕ → KTimerQueue → Bool × KTimerQueue
enqueue id t queue = if queue.on_queue id then (false, queue) else (
  true,
  record queue {
    tree = insert_sorted expiry (record { id = id; expiry_ns = t }) queue.tree;
    next_expiry = if ltb t queue.next_expiry then t else queue.next_expiry;
    on_queue = set_flag queue.on_queue id true;
  },
)

-- A timer is taken out of the tree.
abbrev pub without : ℕ → List KTimer → List KTimer
without id [] = []
without id (timer ∷ timers) =
    let rest = without id timers in if id == timer.id then timers else timer ∷ rest

-- Its `expiry_ns`.
abbrev pub expiry_of : ℕ → List KTimer → ℕ
expiry_of id [] = expire_never
expiry_of id (timer ∷ timers) =
    let rest = expiry_of id timers in if id == timer.id then timer.expiry_ns else rest

abbrev pub first_expiry : List KTimer → ℕ
first_expiry [] = expire_never
first_expiry (timer ∷ timers) = timer.expiry_ns

-- `KTimer::remove`
unfoldable pub remove : ℕ → KTimerQueue → Bool × KTimerQueue
remove id queue =
    if queue.on_queue id
    then (
      true,
      record queue {
        tree = without id queue.tree;
        next_expiry =
            if expiry_of id queue.tree == queue.next_expiry
            then first_expiry (without id queue.tree)
            else queue.next_expiry;
        on_queue = set_flag queue.on_queue id false;
      },
    )
    else (false, queue)

-- The loop of `timer_dpc_func`, on fuel, with a reading of the clock in each round and the callbacks of the timers.
unfoldable pub run_timers :
    ℕ
    → (ℕ → ℕ)
    → (ℕ → KTimerQueue → KTimerQueue)
    → ℕ
    → List KTimer
    → KTimerQueue
    → Option KTimerQueue
run_timers zero clock callback_fn now tree queue = none
run_timers (suc fuel) clock callback_fn now [] queue = some queue
run_timers (suc fuel) clock callback_fn now (timer ∷ timers) queue =
    let now' = if ltb now timer.expiry_ns then clock fuel else now in
    let called =
      callback_fn timer.id
        (record queue { tree = timers; on_queue = set_flag queue.on_queue timer.id false }) in
    let rest = run_timers fuel clock callback_fn now' called.tree called in
    if ltb now' timer.expiry_ns
    then some (record queue {
      next_expiry =
          if ltb timer.expiry_ns queue.next_expiry then timer.expiry_ns else queue.next_expiry;
    })
    else rest

unfoldable pub timer_dpc_func :
    ℕ → (ℕ → ℕ) → (ℕ → KTimerQueue → KTimerQueue) → KTimerQueue → Option KTimerQueue
timer_dpc_func fuel clock callback_fn queue =
    run_timers fuel clock callback_fn (clock fuel) queue.tree (record queue { is_enqueued = false })
