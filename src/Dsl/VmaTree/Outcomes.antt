-- ===== src/Dsl/VmaTree/Outcomes.antt =====
-- How the steps of a search in dsl/vmafind.cc end: with a block that satisfies `P`, or perhaps without an
-- end so far, but never by `return false`.
use davix.Prelude.{ℕ, ◌≡◌, true, false, Bool, if◌then◌else◌, arith, ◌&&◌}
use davix.Dsl.VmaTree.Find.{Outcome, found, fail, go_up, otherwise}

abbrev pub Hits : (ℕ → Type 0) → Outcome → Type 0
Hits P (found a) = P a
Hits P fail = ⊥
Hits P go_up = ⊥

abbrev pub Passes : (ℕ → Type 0) → Outcome → Type 0
Passes P (found a) = P a
Passes P fail = ⊥
Passes P go_up = Unit

pub Hits-Passes : (P : ℕ → Type 0) (o : Outcome) → Hits P o → Passes P o
Hits-Passes P (found a) h = h
Hits-Passes P fail h = absurd h
Hits-Passes P go_up h = tt

pub otherwise-Hits_first : (P : ℕ → Type 0) (x y : Outcome) → Hits P x → Hits P (otherwise x y)
otherwise-Hits_first P (found a) y h = h
otherwise-Hits_first P fail y h = h
otherwise-Hits_first P go_up y h = absurd h

pub otherwise-Hits :
    (P : ℕ → Type 0) (x y : Outcome) → Passes P x → Hits P y → Hits P (otherwise x y)
otherwise-Hits P (found a) y h g = h
otherwise-Hits P fail y h g = h
otherwise-Hits P go_up y h g = g

pub otherwise-Passes :
    (P : ℕ → Type 0) (x y : Outcome) → Passes P x → Passes P y → Passes P (otherwise x y)
otherwise-Passes P (found a) y h g = h
otherwise-Passes P fail y h g = h
otherwise-Passes P go_up y h g = g

pub guarded-Passes :
    (P : ℕ → Type 0) (c : Bool) (x : Outcome) → Passes P x → Passes P (if c then x else go_up)
guarded-Passes P true x h = h
guarded-Passes P false x h = tt

pub unless-Passes :
    (P : ℕ → Type 0) (c : Bool) (x : Outcome) → Passes P x → Passes P (if c then go_up else x)
unless-Passes P true x h = tt
unless-Passes P false x h = h

pub guarded-Hits :
    (P : ℕ → Type 0) (c : Bool) (x : Outcome)
    → c ≡ true
    → Hits P x
    → Hits P (if c then x else go_up)
guarded-Hits P true x e h = h
guarded-Hits P false x e h = cc

pub both_true : {c d : Bool} → c ≡ true → d ≡ true → (c && d) ≡ true
both_true e f = ground arith
