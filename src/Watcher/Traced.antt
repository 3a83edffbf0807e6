-- ===== src/Watcher/Traced.antt =====
-- What a poll of the watcher (packages/deposit-watcher/src/real-watcher.ts) does to the storage is
-- a run of the storage's own methods, and none of them throws at it.
use v.Base.{◌≡◌, refl, sym, ap, ◌∙◌, Bool, true, false, List, [], ◌∷◌, ◌++◌, if◌then◌else◌}
use v.Storage.State.{Storage, Result, ok, throw, Action}
use v.Storage.Step.Solvent.{Solvent, Steps-Solvent}
use v.Storage.Step.Deposits.{Numbered, Steps-Numbered}
use v.Storage.Refine.{Completes}
use v.Storage.History.{Call, perform, run_calls, settle}
use v.Storage.History.Invariants.{run_calls-Steps}
use v.Watcher.Types.{
  World, RealDepositWatcher, Outcome, done, node_failed, thrown, Watch, fails, pure, ◌>>=◌, ◌>>◌,
  ask, reads, call, set_watcher,
}
use v.Verifier.Types.{RpcAnswer, answered, unavailable, app_error}
use mathlib.Core.Path.{subst}

run_calls-append :
    (cs ds : List Call) (s : Storage) → run_calls (cs ++ ds) s ≡ run_calls ds (run_calls cs s)
unfolding run_calls
run_calls-append [] ds s = refl
run_calls-append (c ∷ cs) ds s = run_calls-append cs ds (perform c s).1

-- A storage of the histories' invariants.
abbrev pub IsSound : Storage → Type 0
IsSound s = Solvent s × Numbered s

run_calls-IsSound : (cs : List Call) (s : Storage) → IsSound s → IsSound (run_calls cs s)
run_calls-IsSound cs s (h, n) =
    let steps = run_calls-Steps cs s h n in (Steps-Solvent steps h, Steps-Numbered steps n)

-- A storage that calls have built from another.
abbrev pub Extends : Storage → Storage → Type 0
Extends s t = (ds : List Call) × (t ≡ run_calls ds s)

pub Extends-trans : (s t u : Storage) → Extends s t → Extends t u → Extends s u
Extends-trans s t u (cs, e) (ds, e') =
    (cs ++ ds, e' ∙ ap (run_calls ds) e ∙ sym (run_calls-append cs ds s))

pub Extends-IsSound : (s t : Storage) → Extends s t → IsSound s → IsSound t
Extends-IsSound s t (cs, e) h = subst IsSound (sym e) (run_calls-IsSound cs s h)

-- No exception, and a storage that further calls have built.
abbrev pub Goes : {A : Type 0} → Storage → Outcome A × World → Type 0
Goes s (done a, w) = Extends s w.storage
Goes s (node_failed, w) = Extends s w.storage
Goes s (thrown t, w) = ⊥

pub record Kept {A : Type 0} (m : Watch A) : Type 0 where
  pub goes : (w : World) → IsSound w.storage → Goes w.storage (m w)

pub unchanged : (s : Storage) → Extends s s
unfolding run_calls
unchanged s = ([], refl)

pub pure-Kept : {A : Type 0} (a : A) → Kept (pure a)
unfolding pure
pure-Kept a = record { goes = λ w h. unchanged w.storage }

pub fails-Kept : {A : Type 0} → Kept (fails {A = A})
unfolding fails
fails-Kept = record { goes = λ w h. unchanged w.storage }

pub ask-Kept : {A : Type 0} (answer : RpcAnswer A) → Kept (ask answer)
unfolding ask
ask-Kept (answered a) = record { goes = λ w h. unchanged w.storage }
ask-Kept unavailable = record { goes = λ w h. unchanged w.storage }
ask-Kept app_error = record { goes = λ w h. unchanged w.storage }

pub reads-Kept : {A : Type 0} (f : Storage → A) → Kept (reads f)
unfolding reads
reads-Kept f = record { goes = λ w h. unchanged w.storage }

pub set_watcher-Kept : (f : RealDepositWatcher → RealDepositWatcher) → Kept (set_watcher f)
unfolding set_watcher
set_watcher-Kept f = record { goes = λ w h. unchanged w.storage }

Goes-trans :
    {A : Type 0} (s t : Storage) (r : Outcome A × World) → Extends s t → Goes t r → Goes s r
Goes-trans s t (done a, w) e g = Extends-trans s t w.storage e g
Goes-trans s t (node_failed, w) e g = Extends-trans s t w.storage e g
Goes-trans s t (thrown x, w) e g = g

bind-Goes :
    {A B : Type 0} (s : Storage) (r : Outcome A × World) (f : A → Watch B) (w : World)
    → IsSound s
    → Goes s r
    → ((a : A) → Kept (f a))
    → Goes s (((λ _. r) >>= f) w)
unfolding ◌>>=◌
bind-Goes s (done a, v) f w h g k =
    Goes-trans s v.storage (f a v) g ((k a).goes v (Extends-IsSound s v.storage g h))
bind-Goes s (node_failed, v) f w h g k = g
bind-Goes s (thrown x, v) f w h g k = g

pub bind-Kept :
    {A B : Type 0} {m : Watch A} {f : A → Watch B}
    → Kept m
    → ((a : A) → Kept (f a))
    → Kept (m >>= f)
unfolding ◌>>=◌
bind-Kept {m} {f} g k = record { goes = λ w h. bind-Goes w.storage (m w) f w h (g.goes w h) k }

pub then-Kept : {A B : Type 0} {m : Watch A} {k : Watch B} → Kept m → Kept k → Kept (m >> k)
then-Kept g h = bind-Kept g (λ _. h)

pub if-Kept : {A : Type 0} (b : Bool) {m k : Watch A} → Kept m → Kept k → Kept (if b then m else k)
if-Kept true g h = g
if-Kept false g h = h

-- A call of the storage that throws nothing is one more call of its history.
call-Goes :
    {A : Type 0} (c : Call) (s : Storage) (r : Result A × Storage) (w : World)
    → perform c s ≡ settle r
    → Completes false s r
    → Goes s (call (λ _. r) w)
unfolding run_calls call
call-Goes c s (ok a, t) w e h = (c ∷ [], sym (ap (λ p. p.1) e))
call-Goes c s (throw x, t) w e h = absurd h

pub call-Kept :
    {A : Type 0} (c : Call) (m : Action A)
    → ((s : Storage) → perform c s ≡ settle (m s))
    → ((s : Storage) → Solvent s → Completes false s (m s))
    → Kept (call m)
unfolding call
call-Kept c m e h = record {
  goes = λ w sound. call-Goes c w.storage (m w.storage) w (e w.storage) (h w.storage sound.0);
}
