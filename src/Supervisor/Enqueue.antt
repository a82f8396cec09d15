-- ===== src/Supervisor/Enqueue.antt =====
-- enqueue and approve of the class SupervisorQueue, src/data/delivery-system/supervisorQueue.ts. The
-- argument `now` is the caller's, or the clock's where the caller gives none.
use autopilot_beta.Prelude.{
  ℕ, Bool, true, false, not, ◌&&◌, ◌||◌, Option, none, some, List, [], ◌∷◌, ◌++◌, map, Text, codes,
  text_eq, is_blank, dedup_from, take, length, any, leb, ltb, or_default, if◌then◌else◌,
}
use autopilot_beta.Time.{Timestamp}
use autopilot_beta.Supervisor.Task.{
  queued, blocked, Task, Env, EnqueueInput, invalid_task_id, prompt_too_large, task_already_exists,
  queue_full, invalid_task_dependency, task_not_approval_blocked, default_timeout_ms,
  max_safe_integer, max_attempts_cap, max_dependencies, status_eq, M, ◌>>=◌, ◌>>◌, require_that,
  get_tasks, lift,
}
use autopilot_beta.Supervisor.Cycle.{has_dependency_cycle}
use autopilot_beta.Supervisor.Valid.{entry}
use autopilot_beta.Supervisor.Store.{
  has_id, assert_timestamp, bounded_integer_input, publish, require, replace,
}

abbrev pub needs_approval : EnqueueInput → Bool
needs_approval input =
    or_default input.requires_approval false && not (or_default input.approval_granted false)

-- `input.sessionId ?? handoff.sessionId ?? null`
abbrev pub first_some : Option Text → Option Text → Option Text
first_some (some a) other = some a
first_some none other = other

abbrev pub new_task : EnqueueInput → Timestamp → ℕ → ℕ → List Text → Task
new_task input now max_attempts timeout_ms dependency_ids = record {
  task_id = input.task_id;
  session_id = first_some input.session_id input.handoff.session_id;
  handoff = input.handoff;
  handoff_ref = record {
    handoff_id = input.handoff.handoff_id;
    packet_hash = input.handoff.packet_hash;
    task_packet_ref = input.handoff.task_packet_ref;
  };
  status = if needs_approval input then blocked else queued;
  attempt = 0;
  max_attempts = max_attempts;
  timeout_ms = timeout_ms;
  queued_at = now;
  updated_at = now;
  next_attempt_at = now;
  run_started_at = none;
  blocked_reason = if needs_approval input then some (codes "approval_required") else none;
  last_error = none;
  attempt_delta_hash = none;
  dependency_ids = dependency_ids;
  requires_approval = or_default input.requires_approval false;
  approval_granted = or_default input.approval_granted false;
}

-- `[...new Set(input.dependencyIds ?? [])].slice(0, MAX_DEPENDENCIES)`
abbrev pub chosen_dependencies : EnqueueInput → List Text
chosen_dependencies input =
    take max_dependencies (dedup_from [] (or_default input.dependency_ids []))

unfoldable pub enqueue : Env → EnqueueInput → Timestamp → M Task
unfolding publish require assert_timestamp bounded_integer_input
enqueue env input now = do
  tasks ← get_tasks
  require_that (not (is_blank input.task_id)) invalid_task_id
  require_that (leb (length input.handoff.prompt) env.max_prompt_chars) prompt_too_large
  require_that (not (any (has_id input.task_id) tasks)) task_already_exists
  require_that (ltb (length tasks) env.max_tasks) queue_full
  assert_timestamp now
  attempts ← lift (bounded_integer_input input.max_attempts 2 1 max_attempts_cap)
  timeout ← lift (bounded_integer_input input.timeout_ms default_timeout_ms 1000 max_safe_integer)
  let deps = chosen_dependencies input
  require_that
      (not (
        any (λ id. is_blank id || text_eq id input.task_id) deps
        || has_dependency_cycle (map entry tasks ++ (input.task_id, deps) ∷ [])))
      invalid_task_dependency
  publish env (tasks ++ new_task input now attempts timeout deps ∷ [])
  require input.task_id

unfoldable pub approve : Env → Text → Timestamp → M Task
unfolding replace assert_timestamp require
approve env id now = do
  assert_timestamp now
  task ← require id
  require_that (status_eq task.status blocked && task.requires_approval) task_not_approval_blocked
  replace env (record task {
    status = queued;
    approval_granted = true;
    blocked_reason = none;
    updated_at = now;
    next_attempt_at = now;
  })
