-- ===== src/Supervisor/Update.antt =====
-- The life of a task, abstractly: the updates that the methods of SupervisorQueue may make to one
-- task, src/data/delivery-system/supervisorQueue.ts. Every method keeps whatever these updates keep.
use autopilot_beta.Prelude.{ℕ, ◌<◌, ◌≤◌, true, false, ◌≡◌, none, some, List, Text}
use autopilot_beta.Time.{Timestamp}
use autopilot_beta.Supervisor.Task.{
  queued, blocked, completed, failed, cancelled, Task, Env, EnqueueInput,
}
use autopilot_beta.Supervisor.Enqueue.{new_task}
use autopilot_beta.Supervisor.Run.{requeued, is_retryable, is_terminal}
use autopilot_beta.Supervisor.Claim.{started}

pub data Update (env : Env) (t : Task) : Task → Type 0 where
  approves :
      (now : Timestamp)
      → t.status ≡ blocked
      → Update env t (record t {
        status = queued;
        approval_granted = true;
        blocked_reason = none;
        updated_at = now;
        next_attempt_at = now;
      })
  starts : (now : Timestamp) → t.status ≡ queued → Update env t (started now t)
  requeues :
      (reason : Text) (now : Timestamp) (delta : Text) (next : Timestamp)
      → is_retryable t.status ≡ true
      → t.attempt < t.max_attempts
      → Update env t (requeued env t reason now delta next)
  fails :
      (reason : Text) (now : Timestamp)
      → is_retryable t.status ≡ true
      → t.max_attempts ≤ t.attempt
      → Update env t (record t {
        run_started_at = none;
        last_error = some reason;
        status = failed;
        updated_at = now;
      })
  completes :
      (now : Timestamp)
      → Update env t (record t {
        run_started_at = none;
        blocked_reason = none;
        status = completed;
        updated_at = now;
      })
  cancels :
      (reason : Text) (now : Timestamp)
      → is_terminal t.status ≡ false
      → Update env t (record t {
        run_started_at = none;
        last_error = some reason;
        blocked_reason = none;
        status = cancelled;
        updated_at = now;
      })

-- What every update keeps, and every new task has.
pub record Stable (env : Env) (P : Task → Type 0) : Type 0 where
  pub fresh :
      (input : EnqueueInput) (now : Timestamp) (attempts timeout : ℕ) (deps : List Text)
      → P (new_task input now attempts timeout deps)
  pub update : (t u : Task) → P t → Update env t u → P u
