-- ===== src/Supervisor/KeptCalls.antt =====
-- Every method of SupervisorQueue keeps what the updates of one task keep: dispatchClaimed, runOnce, and
-- any sequence of calls, src/data/delivery-system/supervisorQueue.ts.
use autopilot_beta.Prelude.{Option, none, some, List, ◌++◌, Text, codes, Result, ok, err}
use autopilot_beta.Time.{Timestamp}
use autopilot_beta.Supervisor.Task.{Task, Env, Error, dispatch_error, message}
use autopilot_beta.Supervisor.Hoare.{Good, Any, pure-Keeps, throw-Keeps}
use autopilot_beta.Supervisor.Update.{Stable}
use autopilot_beta.Supervisor.Dispatch.{
  DispatchResult, dispatched, refused, threw, Clock, settle_dispatch, catch_error, with_catch,
  dispatch_claimed, run_claimed, run_once,
}
use autopilot_beta.Supervisor.Kept.{
  Kept, then-Kept, guarded-Kept, found-Kept, Kept-at, enqueue-Kept, approve-Kept, complete-Kept,
  cancel-Kept, retry-Kept, fail-Kept,
}
use autopilot_beta.Supervisor.Dispatch.{
  Call, Calls, enqueues, approves as approve_call, claims, completes as complete_call,
  fails as fail_call, retries, cancels as cancel_call, recovers, reconciles, dispatches, runs_once,
  done, also, perform, perform_all,
}
use autopilot_beta.Supervisor.KeptRun.{reconcile-Kept, recover-Kept, claim-Kept}

module _ (env : Env) (P : Task → Type 0) (stable : Stable env P) where
  settle_dispatch-Kept :
      (id : Text) (now : Timestamp) (r : DispatchResult)
      → Kept env P stable (settle_dispatch env id now r)
  unfolding settle_dispatch
  settle_dispatch-Kept id now dispatched =
      then-Kept env P stable Any _ _ (complete-Kept env P stable id now)
        λ _ _. pure-Keeps (Good env P) Any dispatched tt
  settle_dispatch-Kept id now (refused reason) =
      then-Kept env P stable Any _ _
        (fail-Kept env P stable id reason now (some (codes "retry_after_refusal:" ++ reason)))
        λ _ _. pure-Keeps (Good env P) Any (refused reason) tt
  settle_dispatch-Kept id now (threw m) = throw-Keeps (Good env P) Any (dispatch_error m)

  caught_kept :
      (id : Text) (now : Timestamp) (r : Result Error DispatchResult) (s : List Task)
      → Good env P s
      → Good env P (catch_error env id now r s).1
  unfolding catch_error
  caught_kept id now (ok a) s i = (pure-Keeps (Good env P) Any a tt).keeps s i
  caught_kept id now (err e) s i =
      (then-Kept env P stable Any _ _
          (fail-Kept env P stable id (message e) now
            (some (codes "retry_after_dispatch_exception")))
          (λ _ _. throw-Keeps (Good env P) Any e)).keeps
        s i

  dispatch_claimed-Kept :
      (id : Text) (others : List Task → List Task) (r : DispatchResult) (clock : Clock)
      → ((s : List Task) → Good env P s → Good env P (others s))
      → Kept env P stable (dispatch_claimed env id others r clock)
  unfolding dispatch_claimed with_catch
  dispatch_claimed-Kept id others r clock k = found-Kept env P stable id _ λ t h.
      guarded-Kept env P stable _ _ _ λ _ _. Kept-at env P stable _ λ s i.
        caught_kept id clock.at_catch _ _
          ((settle_dispatch-Kept id clock.at_end r).keeps (others s) (k s i))

  run_claimed-Kept :
      (others : List Task → List Task) (r : DispatchResult) (clock : Clock) (c : Option Task)
      → ((s : List Task) → Good env P s → Good env P (others s))
      → Kept env P stable (run_claimed env others r clock c)
  unfolding run_claimed
  run_claimed-Kept others r clock none k = pure-Keeps (Good env P) Any none tt
  run_claimed-Kept others r clock (some t) k =
      then-Kept env P stable Any _ _ (dispatch_claimed-Kept t.task_id others r clock k) λ a _.
        found-Kept env P stable t.task_id _ λ u _. pure-Keeps (Good env P) Any (some (u, a)) tt

  run_once-Kept :
      (others : List Task → List Task) (r : DispatchResult) (clock : Clock) (now : Timestamp)
      → ((s : List Task) → Good env P s → Good env P (others s))
      → Kept env P stable (run_once env others r clock now)
  unfolding run_once
  run_once-Kept others r clock now k =
      then-Kept env P stable Any _ _ (claim-Kept env P stable now)
        λ c _. run_claimed-Kept others r clock c k

  mutual
    unfolding perform perform_all

    perform-All : (c : Call) (s : List Task) → Good env P s → Good env P (perform env c s)
    perform-All (enqueues input now) s i = (enqueue-Kept env P stable input now).keeps s i
    perform-All (approve_call id now) s i = (approve-Kept env P stable id now).keeps s i
    perform-All (claims now) s i = (claim-Kept env P stable now).keeps s i
    perform-All (complete_call id now) s i = (complete-Kept env P stable id now).keeps s i
    perform-All (fail_call id reason now d) s i = (fail-Kept env P stable id reason now d).keeps s i
    perform-All (retries id reason now d) s i = (retry-Kept env P stable id reason now d).keeps s i
    perform-All (cancel_call id reason now) s i = (cancel-Kept env P stable id reason now).keeps s i
    perform-All (recovers now) s i = (recover-Kept env P stable now).keeps s i
    perform-All (reconciles now) s i = (reconcile-Kept env P stable now).keeps s i
    perform-All (dispatches id others r clock) s i =
        (dispatch_claimed-Kept id (perform_all env others) r clock (perform_all-All others)).keeps s
          i
    perform-All (runs_once others r clock now) s i =
        (run_once-Kept (perform_all env others) r clock now (perform_all-All others)).keeps s i

    perform_all-All :
        (cs : Calls) (s : List Task) → Good env P s → Good env P (perform_all env cs s)
    perform_all-All done s i = i
    perform_all-All (also c cs) s i = perform_all-All cs (perform env c s) (perform-All c s i)

  -- What the updates keep holds of every task after any calls, interleaved or not.
  pub calls_keep : (cs : Calls) (s : List Task) → Good env P s → Good env P (perform_all env cs s)
  calls_keep cs s i = perform_all-All cs s i
