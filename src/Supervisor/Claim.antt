-- ===== src/Supervisor/Claim.antt =====
-- Claims, time-outs and restarts in the class SupervisorQueue,
-- src/data/delivery-system/supervisorQueue.ts: claim, peekClaimable, reconcile and recover.
use autopilot_beta.Prelude.{
  ℕ, ◌+◌, ◌-◌, ◌*◌, ◌^◌, min, max, Bool, true, false, not, ◌&&◌, ◌||◌, Option, none, some, List, [],
  ◌∷◌, ◌++◌, map, Text, codes, text_eq, is_blank, is_empty, trim, dedup_from, includes, take,
  length, every, any, find, leb, ltb, is_some, or_default, if◌then◌else◌, Result, ok, err,
}
use autopilot_beta.Prelude
use autopilot_beta.Time.{Timestamp, date_parse}
use autopilot_beta.Supervisor.Task.{
  queued, running, completed, failed, Task, Env, Error, status_eq, M, ◌>>=◌, ◌>>◌, pure, get_tasks,
  lift,
}
use autopilot_beta.Supervisor.Store.{has_id, assert_timestamp, publish, replace}
use autopilot_beta.Supervisor.Run.{requeue}

-- A task whose attempts are used up fails with `last`; any other waits for its next attempt.
unfoldable pub give_up_or_requeue : Env → Timestamp → Text → Text → Text → Task → Result Error Task
unfolding requeue
give_up_or_requeue env now last reason attempt_delta task =
    if leb task.max_attempts task.attempt
    then ok (record task {
      status = failed;
      run_started_at = none;
      updated_at = now;
      last_error = some last;
    })
    else requeue env task reason now attempt_delta

-- `tasks.map(f)`, where `f` may throw
unfoldable pub map_tasks : (Task → Result Error Task) → List Task → Result Error (List Task)
map_tasks f [] = ok []
map_tasks f (t ∷ ts) =
    Prelude.◌>>=◌ (f t) (λ t'. Prelude.◌>>=◌ (map_tasks f ts) (λ ts'. ok (t' ∷ ts')))

-- `Date.parse(started) + timeout > at` is false where `started` does not parse.
unfoldable pub past_timeout : ℕ → ℕ → Option Timestamp → Bool
unfolding date_parse
past_timeout at timeout none = false
past_timeout at timeout (some started) = elim (date_parse started) [
  | none ↦ true
  | some ms ↦ leb (ms + timeout) at
]

unfoldable pub is_expired : ℕ → Task → Bool
unfolding past_timeout
is_expired at t = status_eq t.status running && past_timeout at t.timeout_ms t.run_started_at

unfoldable pub reconcile_task : Env → Timestamp → ℕ → Task → Result Error Task
unfolding is_expired give_up_or_requeue
reconcile_task env now at t =
    if is_expired at t
    then give_up_or_requeue env now (codes "timeout") (codes "timeout")
        (codes "retry_after_timeout") t
    else ok t

unfoldable pub reconcile : Env → Timestamp → M (Unit {0})
unfolding assert_timestamp date_parse reconcile_task map_tasks publish
reconcile env now = do
  assert_timestamp now
  let at = or_default (date_parse now) 0
  tasks ← get_tasks
  changed ← lift (map_tasks (reconcile_task env now at) tasks)
  if any (is_expired at) tasks then publish env changed else pure tt

unfoldable pub recovered_task : Env → Timestamp → Task → Result Error Task
unfolding give_up_or_requeue
recovered_task env now t =
    if status_eq t.status running
    then give_up_or_requeue env now (codes "recovered_attempt_limit")
        (codes "recovered_after_restart") (codes "retry_after_process_restart") t
    else ok t

unfoldable pub recover : Env → Timestamp → M (List Task)
unfolding assert_timestamp recovered_task map_tasks publish
recover env now = do
  assert_timestamp now
  tasks ← get_tasks
  changed ← lift (map_tasks (recovered_task env now) tasks)
  publish env changed
  get_tasks

unfoldable pub is_completed : Option Task → Bool
is_completed none = false
is_completed (some t) = status_eq t.status completed

unfoldable pub dependencies_complete : List Task → Task → Bool
unfolding is_completed
dependencies_complete tasks t = every (λ id. is_completed (find (has_id id) tasks)) t.dependency_ids

-- `Date.parse(next) <= at` is false where `next` does not parse.
unfoldable pub is_due : ℕ → Timestamp → Bool
unfolding date_parse
is_due at next = elim (date_parse next) [ none ↦ false | some ms ↦ leb ms at ]

unfoldable pub is_claimable : ℕ → List Task → Task → Bool
unfolding is_due dependencies_complete
is_claimable at tasks t =
    status_eq t.status queued && is_due at t.next_attempt_at && dependencies_complete tasks t

unfoldable pub peek_claimable : Env → Timestamp → M (Option Task)
unfolding assert_timestamp date_parse reconcile is_claimable
peek_claimable env now = do
  assert_timestamp now
  reconcile env now
  let at = or_default (date_parse now) 0
  tasks ← get_tasks
  pure (find (is_claimable at tasks) tasks)

abbrev pub started : Timestamp → Task → Task
started now t = record t {
  status = running;
  attempt = t.attempt + 1;
  run_started_at = some now;
  updated_at = now;
  last_error = none;
}

-- The part of `claim` behind the choice of a candidate.
unfoldable pub start : Env → Timestamp → Option Task → M (Option Task)
unfolding replace
start env now none = pure none
start env now (some candidate) = do t ← replace env (started now candidate); pure (some t)

unfoldable pub claim : Env → Timestamp → M (Option Task)
unfolding assert_timestamp peek_claimable start
claim env now = do assert_timestamp now; candidate ← peek_claimable env now; start env now candidate
