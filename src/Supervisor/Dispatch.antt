-- ===== src/Supervisor/Dispatch.antt =====
-- dispatchClaimed and runOnce of the class SupervisorQueue,
-- src/data/delivery-system/supervisorQueue.ts. The dispatcher is a parameter: how it ends, and what
-- the other callers of the queue do while it is awaited. Each `new Date()` is an argument.
use autopilot_beta.Prelude.{Option, none, some, List, ◌++◌, Text, codes, Result, ok, err}
use autopilot_beta.Time.{Timestamp}
use autopilot_beta.Supervisor.Task.{
  running, Task, Env, EnqueueInput, Error, task_not_running, dispatch_error, message, status_eq, M,
  ◌>>=◌, ◌>>◌, pure, throw, require_that,
}
use autopilot_beta.Supervisor.Store.{require}
use autopilot_beta.Supervisor.Enqueue.{enqueue, approve}
use autopilot_beta.Supervisor.Run.{complete, fail, retry, cancel}
use autopilot_beta.Supervisor.Claim.{claim, recover, reconcile}

-- How the awaited dispatcher ends. A refusal carries its reason, an exception its message.
pub data DispatchResult : Type 0 where
  dispatched : DispatchResult
  refused : Text → DispatchResult
  threw : Text → DispatchResult

-- The clock at the two calls of `new Date()`, in the `try` and in the `catch`.
pub record Clock : Type 0 where
  pub at_end : Timestamp
  pub at_catch : Timestamp

-- The body of the `try` behind the `await`.
unfoldable pub settle_dispatch : Env → Text → Timestamp → DispatchResult → M DispatchResult
unfolding complete fail
settle_dispatch env id now dispatched = do complete env id now; pure dispatched
settle_dispatch env id now (refused reason) = do
  fail env id reason now (some (codes "retry_after_refusal:" ++ reason))
  pure (refused reason)
settle_dispatch env id now (threw m) = throw (dispatch_error m)

-- `catch (error) { this.fail(…); throw error; }`
unfoldable pub catch_error : Env → Text → Timestamp → Result Error DispatchResult → M DispatchResult
unfolding fail message
catch_error env id now (ok a) = pure a
catch_error env id now (err e) = do
  fail env id (message e) now (some (codes "retry_after_dispatch_exception"))
  throw e

unfoldable pub with_catch : Env → Text → Timestamp → M DispatchResult → M DispatchResult
unfolding catch_error
with_catch env id now body tasks = let (r, s) = body tasks in catch_error env id now r s

-- What happens to the queue while the dispatcher runs: `others`.
unfoldable pub dispatch_claimed :
    Env → Text → (List Task → List Task) → DispatchResult → Clock → M DispatchResult
unfolding require settle_dispatch with_catch
dispatch_claimed env id others result clock = do
  task ← require id
  require_that (status_eq task.status running) task_not_running
  with_catch env id clock.at_catch
      (λ tasks. settle_dispatch env id clock.at_end result (others tasks))

-- The part of `runOnce` behind the claim.
unfoldable pub run_claimed :
    Env
    → (List Task → List Task)
    → DispatchResult
    → Clock
    → Option Task
    → M (Option (Task × DispatchResult))
unfolding dispatch_claimed require
run_claimed env others result clock none = pure none
run_claimed env others result clock (some task) = do
  r ← dispatch_claimed env task.task_id others result clock
  t ← require task.task_id
  pure (some (t, r))

unfoldable pub run_once :
    Env
    → (List Task → List Task)
    → DispatchResult
    → Clock
    → Timestamp
    → M (Option (Task × DispatchResult))
unfolding claim run_claimed
run_once env others result clock now = do
  claimed ← claim env now
  run_claimed env others result clock claimed

-- A call of a public method, with its arguments. `others` are the calls that other callers make
-- while the dispatcher is awaited.
mutual
  pub data Call : Type 0 where
    enqueues : EnqueueInput → Timestamp → Call
    approves : Text → Timestamp → Call
    claims : Timestamp → Call
    completes : Text → Timestamp → Call
    fails : Text → Text → Timestamp → Option Text → Call
    retries : Text → Text → Timestamp → Option Text → Call
    cancels : Text → Text → Timestamp → Call
    recovers : Timestamp → Call
    reconciles : Timestamp → Call
    dispatches : Text → Calls → DispatchResult → Clock → Call
    runs_once : Calls → DispatchResult → Clock → Timestamp → Call

  pub data Calls : Type 0 where
    done : Calls
    also : Call → Calls → Calls

unfoldable mutual
  unfolding enqueue approve claim complete fail retry cancel recover reconcile dispatch_claimed
      run_once

  -- The tasks after a call.
  pub perform : Env → Call → List Task → List Task
  perform env (enqueues input now) s = (enqueue env input now s).1
  perform env (approves id now) s = (approve env id now s).1
  perform env (claims now) s = (claim env now s).1
  perform env (completes id now) s = (complete env id now s).1
  perform env (fails id reason now delta) s = (fail env id reason now delta s).1
  perform env (retries id reason now delta) s = (retry env id reason now delta s).1
  perform env (cancels id reason now) s = (cancel env id reason now s).1
  perform env (recovers now) s = (recover env now s).1
  perform env (reconciles now) s = (reconcile env now s).1
  perform env (dispatches id others result clock) s =
      (dispatch_claimed env id (perform_all env others) result clock s).1
  perform env (runs_once others result clock now) s =
      (run_once env (perform_all env others) result clock now s).1

  -- The tasks after a sequence of calls.
  pub perform_all : Env → Calls → List Task → List Task
  perform_all env done s = s
  perform_all env (also c cs) s = perform_all env cs (perform env c s)
