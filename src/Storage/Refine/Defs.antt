-- ===== src/Storage/Refine/Defs.antt =====
-- What it means that a call refines the abstract view.
use v.Base.{Bool, ◌≡◌}
use v.Storage.Types.{duplicate_deposit, solvency_violated, credit_failed}
use v.Storage.State.{Storage, Result, ok, throw, Action, ◌>>=◌}
use v.Storage.Step.{Steps, Steps-trans}

-- The call ends in a storage that a run of steps reaches, or throws for a duplicate deposit and
-- changes nothing.
abbrev pub Refines : {A : Type 0} → Bool → Storage → Result A × Storage → Type 0
Refines b s (ok _, t) = Steps b s t
Refines b s (throw (duplicate_deposit _), t) = t ≡ s
Refines b s (throw (solvency_violated _), t) = ⊥
Refines b s (throw (credit_failed _), t) = ⊥

-- The call ends in a storage that a run of steps reaches, and throws nothing.
abbrev pub Completes : {A : Type 0} → Bool → Storage → Result A × Storage → Type 0
Completes b s (ok _, t) = Steps b s t
Completes b s (throw _, t) = ⊥

pub Completes-Steps :
    {A : Type 0} (b : Bool) (s : Storage) (p : Result A × Storage) → Completes b s p → Steps b s p.1
Completes-Steps b s (ok a, t) h = h
Completes-Steps b s (throw e, t) h = absurd h

-- A call, and what follows it.
pub bind-Completes :
    {A B : Type 0} (b : Bool) (s : Storage) (m : Action A) (f : A → Action B)
    → Completes b s (m s)
    → ((a : A) (t : Storage) → Steps b s t → Completes b t (f a t))
    → Completes b s ((m >>= f) s)
bind-Completes {A} {B} b s m f h k = go (m s) h
  where
    go :
        (p : Result A × Storage)
        → Completes b s p
        → Completes {A = B} b s (let (r, t) = p in elim r [ ok a ↦ f a t | throw e ↦ (throw e, t) ])
    go (ok a, t) steps = lift (f a t) steps (k a t steps)
      where
        lift : (q : Result B × Storage) → Steps b s t → Completes b t q → Completes b s q
        lift (ok x, u) p q = Steps-trans p q
        lift (throw e, u) p q = absurd q
    go (throw e, t) bad = absurd bad
