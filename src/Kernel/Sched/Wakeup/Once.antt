-- ===== src/Kernel/Sched/Wakeup/Once.antt =====
-- kernel/sched/main.cc: a wake-up is not done twice.
use mathlib.Core.Path.{subst}
use davix.Prelude.{
  ℕ, ◌+◌, ◌≤◌, ◌≡◌, ◌≢◌, ◌⊎◌, inl, inr, refl, sym, ap, ◌∙◌, Bool, true, false, arith, ◌==◌,
  Bool-cases, ==→eq, ==→ne,
}
use davix.Kernel.Sched.Wakeup.{
  Waker, System, set_waker, Step, by_task, by_waker, Reachable, start, next,
}
use davix.Kernel.Sched.Wakeup.Invariant.{
  is_early, bit, IsQuiet, Winner, IsPlaced, has_won, IsOld, IsValid, IsFresh,
}
use davix.Kernel.Sched.Wakeup.Kept.{
  SleepMove-IsQuiet, SleepMove-Winner, WakeMove-IsQuiet, WakeMove-Winner, WakeMove-loser,
  WakeMove-IsOld,
}

set_waker-same : (f : ℕ → Waker) (w : ℕ) (p : Waker) → set_waker f w p w ≡ p
set_waker-same f w p = ground arith

set_waker-other : (f : ℕ → Waker) (w u : ℕ) (p : Waker) → u ≢ w → set_waker f w p u ≡ f u
set_waker-other f w u p ne = ground arith

set_waker-All :
    (P : Waker → Type 0) (f : ℕ → Waker) (w : ℕ) (p : Waker)
    → P p
    → ((u : ℕ) → u ≢ w → P (f u))
    → (u : ℕ) → P (set_waker f w p u)
set_waker-All P f w p new old u = elim (Bool-cases (w == u)) [
  | inl e ↦ rw e new
  | inr e ↦ rw e (old u (λ same. ==→ne w u e (sym same)))
]

Step-IsValid : (k : ℕ) (s s' : System) → IsValid k s → Step s s' → IsValid k s'
Step-IsValid k s s' h (by_task {c = c} m) = elim h.held [
  | inl (at_k, quiet, none_won) ↦
      let (placed, quiet', same) = SleepMove-IsQuiet s.sleep c h.placed quiet m in
      record { placed = placed; old = h.old; held = inl (same ∙ at_k, quiet', none_won) }
  | inr (w, past, winner, others) ↦
      let (placed, winner', same) = SleepMove-Winner s.sleep c (s.wakers w) h.placed winner m in
      record { placed = placed; old = h.old; held = inr (w, same ∙ past, winner', others) }
]
Step-IsValid k s s' h (by_waker w {c = c} {p = p} m) =
    let old =
      set_waker-All (IsOld k) s.wakers w p (WakeMove-IsOld k s.sleep c (s.wakers w) p m)
        (λ u ne. h.old u) in
    elim h.held [
      | inl (at_k, quiet, none_won) ↦
          let (placed, after) =
            WakeMove-IsQuiet k s.sleep c (s.wakers w) p h.placed quiet at_k (none_won w) m in
          record {
            placed = placed;
            old = old;
            held = elim after [
              | inl (same, lost) ↦ inl (
                ap (λ d. d.ticket) same ∙ at_k,
                subst IsQuiet (sym same) quiet,
                set_waker-All (λ q. has_won q ≡ false) s.wakers w p lost (λ u ne. none_won u),
              )
              | inr (past, winner) ↦ inr (
                w,
                past,
                subst (λ q. Winner q c) (sym (set_waker-same s.wakers w p)) winner,
                λ u ne. ap has_won (set_waker-other s.wakers w u p ne) ∙ none_won u,
              )
            ];
          }
      | inr (v, past, winner, others) ↦ elim (Bool-cases (w == v)) [
        | inl e ↦
            let here : s.wakers v ≡ s.wakers w = ap s.wakers (sym (==→eq w v e)) in
            let (placed, winner', same) =
              WakeMove-Winner s.sleep c (s.wakers w) p h.placed
                (subst (λ q. Winner q s.sleep) here winner) m in
            record {
              placed = placed;
              old = old;
              held = inr (
                w,
                same ∙ past,
                subst (λ q. Winner q c) (sym (set_waker-same s.wakers w p)) winner',
                λ u ne.
                    ap has_won (set_waker-other s.wakers w u p ne)
                    ∙ others u (λ f. ne (f ∙ sym (==→eq w v e))),
              );
            }
        | inr e ↦
            let (same, lost) =
              WakeMove-loser k s.sleep c (s.wakers w) p past (h.old w) (others w (==→ne w v e)) m in
            record {
              placed = subst IsPlaced (sym same) h.placed;
              old = old;
              held = inr (
                v,
                ap (λ d. d.ticket) same ∙ past,
                rw (same, set_waker-other s.wakers w v p (λ f. ==→ne w v e (sym f))) winner,
                λ u ne. elim (Bool-cases (w == u)) [
                  | inl f ↦ rw f lost
                  | inr f ↦ rw f (others u ne)
                ],
              );
            }
      ]
    ]

pub Reachable-IsValid :
    (k : ℕ) (pending : Bool) (callers : ℕ → Waker) (s : System)
    → IsFresh k pending callers
    → Reachable k pending callers s
    → IsValid k s
Reachable-IsValid k pending callers _ fresh start = record {
  placed = record { counted = refl; on_cpu = refl; early = inr refl };
  old = fresh.old;
  held = inl (refl, (fresh.none_pending, refl, refl), fresh.none_won);
}
Reachable-IsValid k pending callers _ fresh (next {s = s} {s' = s'} r m) =
    Step-IsValid k s s' (Reachable-IsValid k pending callers s fresh r) m

-- What every state of the sleep keeps to.
pub record IsSingle (s : System) : Type 0 where
  pub won_once : (u v : ℕ) → has_won (s.wakers u) ≡ true → has_won (s.wakers v) ≡ true → u ≡ v
  pub woken_once : s.sleep.wakes ≤ 1
  pub one_place : s.sleep.queued + bit s.sleep.on_cpu ≤ 1
  pub not_early : (s.sleep.queued ≡ 0) ⊎ (is_early s.sleep.switch ≡ false)
