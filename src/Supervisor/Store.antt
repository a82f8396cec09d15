-- ===== src/Supervisor/Store.antt =====
-- The private helpers of the class SupervisorQueue of src/data/delivery-system/supervisorQueue.ts:
-- how a method validates and writes the next state, and finds and replaces a task. The state is the
-- list of tasks in memory; a method returns its result, or the error it throws, beside the new state.
use autopilot_beta.Prelude.{
  ℕ, min, max, Bool, Option, none, some, List, map, Text, text_eq, take, find, leb, ltb,
  if◌then◌else◌, Result, ok, err,
}
use autopilot_beta.Time.{Timestamp, is_valid_timestamp}
use autopilot_beta.Supervisor.Task.{
  Status, Task, Env, Error, invalid_timestamp, invalid_numeric_input, task_not_found, invalid_state,
  state_too_large, write_failed, max_safe_integer, max_error_chars, max_state_bytes, M, ◌>>=◌, ◌>>◌,
  require_that, get_tasks,
}
use autopilot_beta.Supervisor.Valid.{is_supervisor_state}

abbrev pub bounded : Text → Text
bounded value = take max_error_chars value

abbrev pub has_id : Text → Task → Bool
has_id id t = text_eq t.task_id id

unfoldable pub assert_timestamp : Timestamp → M (Unit {0})
unfolding is_valid_timestamp
assert_timestamp now = require_that (is_valid_timestamp now) invalid_timestamp

-- boundedIntegerInput, for a natural number
unfoldable pub bounded_integer_input : Option ℕ → ℕ → ℕ → ℕ → Result Error ℕ
bounded_integer_input none fallback minimum maximum = ok fallback
bounded_integer_input (some value) fallback minimum maximum =
    if leb value max_safe_integer
    then ok (min maximum (max minimum value))
    else err invalid_numeric_input

unfoldable pub publish : Env → List Task → M (Unit {0})
publish env next tasks =
    if ltb max_state_bytes (env.json_bytes next)
    then (err state_too_large, tasks)
    else if is_supervisor_state env next
    then elim (env.write_failure next) [
      | some m ↦ (err (write_failed m), tasks)
      | none ↦ (ok tt, next)
    ]
    else (err invalid_state, tasks)

-- `require`
unfoldable pub require : Text → M Task
require id tasks = elim (find (has_id id) tasks) [
  | none ↦ (err task_not_found, tasks)
  | some t ↦ (ok t, tasks)
]

abbrev pub put : Task → List Task → List Task
put t = map (λ candidate. if text_eq candidate.task_id t.task_id then t else candidate)

unfoldable pub replace : Env → Task → M Task
unfolding publish require
replace env task = do tasks ← get_tasks; publish env (put task tasks); require task.task_id

-- `transition`, given the task with `extra` put in
unfoldable pub transition : Env → Text → Status → Timestamp → (Task → Task) → M Task
unfolding replace assert_timestamp
transition env id status now extra = do
  assert_timestamp now
  task ← require id
  replace env (record (extra task) { status = status; updated_at = now })
