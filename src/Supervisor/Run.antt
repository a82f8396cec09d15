-- ===== src/Supervisor/Run.antt =====
-- The run of a task in the class SupervisorQueue, src/data/delivery-system/supervisorQueue.ts: claim,
-- complete, fail, retry, cancel, and what becomes of a running task by a time-out or a restart.
use autopilot_beta.Prelude.{
  ℕ, ◌+◌, ◌-◌, ◌*◌, ◌^◌, min, max, Bool, true, false, not, ◌&&◌, ◌||◌, Option, none, some, List, [],
  ◌∷◌, ◌++◌, map, Text, codes, text_eq, is_blank, is_empty, trim, dedup_from, includes, take,
  length, every, any, find, leb, ltb, is_some, or_default, if◌then◌else◌, Result, ok, err,
}
use autopilot_beta.Prelude
use autopilot_beta.Time.{Timestamp, date_parse, to_iso}
use autopilot_beta.Supervisor.Task.{
  Status, queued, running, completed, failed, cancelled, Task, Env, Error, task_not_running,
  task_not_retryable, attempt_delta_missing, task_already_terminal, range_error, status_eq, M,
  ◌>>=◌, ◌>>◌, require_that, lift,
}
use autopilot_beta.Supervisor.Store.{bounded, assert_timestamp, require, replace, transition}

-- Math.min(maxRetryDelayMs, baseRetryDelayMs * 2 ** Math.max(0, attempt - 1)); `-` stops at 0
unfoldable pub retry_delay : Env → ℕ → ℕ
retry_delay env attempt = min env.max_retry_delay (env.base_retry_delay * 2 ^ (attempt - 1))

-- `new Date(Date.parse(now) + delay).toISOString()`
unfoldable pub next_attempt : Env → Timestamp → ℕ → Result Error Timestamp
unfolding date_parse to_iso retry_delay
next_attempt env now attempt = elim (date_parse now) [
  | none ↦ err range_error
  | some at ↦ elim (to_iso (at + retry_delay env attempt)) [
    | none ↦ err range_error
    | some t ↦ ok t
  ]
]

abbrev pub requeued : Env → Task → Text → Timestamp → Text → Timestamp → Task
requeued env task reason now attempt_delta next = record task {
  status = queued;
  run_started_at = none;
  updated_at = now;
  next_attempt_at = next;
  last_error = some reason;
  attempt_delta_hash = some (env.sha256 attempt_delta);
}

unfoldable pub requeue : Env → Task → Text → Timestamp → Text → Result Error Task
unfolding next_attempt
requeue env task reason now attempt_delta =
    Prelude.◌>>=◌ (next_attempt env now task.attempt)
      (λ next. ok (requeued env task reason now attempt_delta next))

-- What `fail`, `retry` and `cancel` change besides the status and the time of the update.
abbrev pub failing : Text → Task → Task
failing reason t = record t { run_started_at = none; last_error = some (bounded reason) }

abbrev pub cancelling : Text → Task → Task
cancelling reason t = record t {
  run_started_at = none;
  last_error = some (bounded reason);
  blocked_reason = none;
}

-- `fail` and `retry` end here where no attempt is left.
unfoldable pub fail_for_good : Env → Text → Text → Timestamp → M Task
unfolding transition
fail_for_good env id reason now = transition env id failed now (failing reason)

unfoldable pub is_retryable : Status → Bool
is_retryable running = true
is_retryable failed = true
is_retryable _ = false

-- The part of `retry` behind its tests.
unfoldable pub retry_task : Env → Task → Text → Timestamp → Option Text → M Task
unfolding replace requeue
retry_task env task reason now attempt_delta = do
  let delta = trim (or_default attempt_delta [])
  require_that (not (is_empty delta)) attempt_delta_missing
  next ← lift (requeue env task (bounded reason) now delta)
  replace env next

unfoldable pub retry : Env → Text → Text → Timestamp → Option Text → M Task
unfolding assert_timestamp require retry_task fail_for_good is_retryable
retry env id reason now attempt_delta = do
  assert_timestamp now
  task ← require id
  require_that (is_retryable task.status) task_not_retryable
  if leb task.max_attempts task.attempt
      then fail_for_good env id reason now
      else retry_task env task reason now attempt_delta

unfoldable pub fail : Env → Text → Text → Timestamp → Option Text → M Task
unfolding assert_timestamp require retry fail_for_good
fail env id reason now attempt_delta = do
  assert_timestamp now
  task ← require id
  require_that (status_eq task.status running) task_not_running
  if ltb task.attempt task.max_attempts
      then retry env id reason now attempt_delta
      else fail_for_good env id reason now

abbrev pub completing : Task → Task
completing t = record t { run_started_at = none; blocked_reason = none }

unfoldable pub complete : Env → Text → Timestamp → M Task
unfolding transition
complete env id now = transition env id completed now completing

unfoldable pub is_terminal : Status → Bool
is_terminal completed = true
is_terminal failed = true
is_terminal cancelled = true
is_terminal _ = false

unfoldable pub cancel : Env → Text → Text → Timestamp → M Task
unfolding require transition is_terminal
cancel env id reason now = do
  task ← require id
  require_that (not (is_terminal task.status)) task_already_terminal
  transition env id cancelled now (cancelling reason)
