-- ===== src/Supervisor/Interleaving.antt =====
-- What becomes of a task that others change while its dispatcher runs: dispatchClaimed of
-- src/data/delivery-system/supervisorQueue.ts.
use autopilot_beta.Prelude.{◌≡◌, some, List, Text, find, Result, ok, err, err≢ok, sym, ap, ◌∙◌}
use autopilot_beta.Time.{Timestamp}
use autopilot_beta.Supervisor.Task.{running, completed, Task, Env, Error, M, throw}
use autopilot_beta.Supervisor.Store.{has_id, put}
use autopilot_beta.Supervisor.Run.{completing, complete}
use autopilot_beta.Supervisor.Dispatch.{
  DispatchResult, dispatched, Clock, settle_dispatch, catch_error, with_catch, dispatch_claimed,
}
use autopilot_beta.Supervisor.Kept.{status_eq→≡}
use autopilot_beta.Supervisor.Inversion.{Ran, >>=-ok, require_that-ok, require-ok, pure-ok}
use autopilot_beta.Supervisor.Failing.{transition-ok}

abbrev pub as_completed : Timestamp → Task → Task
as_completed now u = record (completing u) { status = completed; updated_at = now }

throw-not_ok {ℓ} : {A : Type ℓ} (e : Error) (s s' : List Task) {a : A} → ¬ Ran (throw e) s a s'
unfolding throw
throw-not_ok e s s' h = err≢ok (ap (λ p. p.0) h)

-- The `catch` block never returns.
catch_error-ok :
    (env : Env) (id : Text) (now : Timestamp) (r : Result Error DispatchResult) (s s' : List Task)
    → {a : DispatchResult} → Ran (catch_error env id now r) s a s'
    → (r ≡ ok a) × (s' ≡ s)
unfolding catch_error
catch_error-ok env id now (ok a) s s' h = let (e, e') = pure-ok _ _ s s' h in (ap ok e, e')
catch_error-ok env id now (err e) s s' h =
    let (_, s₁, _, h₁) = >>=-ok _ _ s s' h in absurd (throw-not_ok e s₁ s' h₁)

settle_dispatched-ok :
    (env : Env) (id : Text) (now : Timestamp) (s s' : List Task)
    → {a : DispatchResult} → Ran (settle_dispatch env id now dispatched) s a s'
    → (u : Task) × (find (has_id id) s ≡ some u) × (s' ≡ put (as_completed now u) s)
unfolding settle_dispatch complete
settle_dispatched-ok env id now s s' h =
    let (t, s₁, ran, h₁) = >>=-ok _ _ s s' h in
    let (u, found, _, stored) = transition-ok env id completed now completing s s₁ ran in
    let (_, e) = pure-ok _ _ s₁ s' h₁ in (u, found, e ∙ stored)

with_catch-ok :
    (env : Env) (id : Text) (now : Timestamp) (body : M DispatchResult) (s s' : List Task)
    → {a : DispatchResult} → Ran (with_catch env id now body) s a s'
    → Ran body s a s'
unfolding with_catch
with_catch-ok env id now body s s' h =
    let (settled, e) = catch_error-ok env id now (body s).0 (body s).1 s' h in
    λ i. (settled i, sym e i)

-- A task was running when its dispatch began. If the dispatch then succeeds and the call returns, the
-- task, as the other callers left it, is marked as completed, whatever its status has become.
pub dispatch_claimed-completes :
    (env : Env) (id : Text) (others : List Task → List Task) (clock : Clock) (s s' : List Task)
    → (r : DispatchResult) → Ran (dispatch_claimed env id others dispatched clock) s r s'
    → (t u : Task) × (find (has_id id) s ≡ some t)
      × (t.status ≡ running)
      × (find (has_id id) (others s) ≡ some u)
      × (s' ≡ put (as_completed clock.at_end u) (others s))
unfolding dispatch_claimed
dispatch_claimed-completes env id others clock s s' r h =
    let (t, s₁, ran_require, h₁) = >>=-ok _ _ s s' h in
    let (found, e₁) = require-ok id s s₁ ran_require in
    let (_, s₂, ran_that, h₂) = >>=-ok _ _ s₁ s' h₁ in
    let (test, e₂) = require_that-ok _ _ s₁ s₂ ran_that in
    let ran =
      with_catch-ok env id clock.at_catch
        (λ tasks. settle_dispatch env id clock.at_end dispatched (others tasks)) s₂ s' h₂ in
    let (u, found', stored) = settle_dispatched-ok env id clock.at_end (others s₂) s' ran in
    let e = e₂ ∙ e₁ in
    (
      t,
      u,
      found,
      status_eq→≡ t.status running test,
      ap (λ q. find (has_id id) (others q)) (sym e) ∙ found',
      stored ∙ ap (λ q. put (as_completed clock.at_end u) (others q)) e,
    )
