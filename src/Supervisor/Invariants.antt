-- ===== src/Supervisor/Invariants.antt =====
-- What holds of the supervisor queue after any sequence of calls,
-- src/data/delivery-system/supervisorQueue.ts.
use autopilot_beta.Prelude.{
  ℕ, ◌≤◌, ◌<◌, Bool, true, false, not, ◌&&◌, ◌≡◌, refl, ◌⊎◌, ◌≢◌, is_some, inl, inr, none, List, [],
  ◌∷◌, map, All, All-map, Text, length, includes, leb→le, sym, text_eq_iff, arith,
}
use autopilot_beta.Supervisor.Task.{
  EnqueueInput, queued, running, failed, Task, Env, max_attempts_cap,
}
use autopilot_beta.Time.{Timestamp}
use autopilot_beta.Supervisor.Acyclic.{DependsOn, has_dependency_cycle_sound}
use autopilot_beta.Supervisor.Valid.{
  entry, attempts_valid, run_matches, is_task, are_tasks, is_supervisor_state,
}
use autopilot_beta.Supervisor.Enqueue.{new_task}
use autopilot_beta.Supervisor.Run.{is_retryable}
use autopilot_beta.Supervisor.Update.{
  Update, approves, starts, requeues, fails, completes, cancels, Stable,
}
use autopilot_beta.Supervisor.Dispatch.{Calls, perform_all}
use autopilot_beta.Supervisor.KeptCalls.{calls_keep}

-- The owner has approved what needs approval.
abbrev pub HasApproval : Task → Type 0
HasApproval t = (t.requires_approval ≡ false) ⊎ (t.approval_granted ≡ true)

-- A task that has been started, or may be, has its approval.
abbrev pub IsApproved : Task → Type 0
IsApproved t = (t.status ≡ queued) ⊎ ((t.status ≡ running) ⊎ (t.status ≡ failed)) → HasApproval t

IsApproved-Update : (env : Env) (t u : Task) → IsApproved t → Update env t u → IsApproved u
unfolding is_retryable
IsApproved-Update env t _ h (approves now b) l = inr refl
IsApproved-Update env t _ h (starts now q) l = h (inl q)
IsApproved-Update env t _ h (requeues reason now d next r lt) l = h (ground arith)
IsApproved-Update env t _ h (fails reason now r le) l = h (ground arith)
IsApproved-Update env t _ h (completes now) l = ground arith
IsApproved-Update env t _ h (cancels reason now r) l = ground arith

IsApproved-new :
    (input : EnqueueInput) (now : Timestamp) (attempts timeout : ℕ) (deps : List Text)
    → IsApproved (new_task input now attempts timeout deps)
IsApproved-new input now attempts timeout deps l = ground arith

IsApproved-Stable : (env : Env) → Stable env IsApproved
IsApproved-Stable env = record { fresh = IsApproved-new; update = IsApproved-Update env }

empty-Good : (env : Env) → is_supervisor_state env [] ≡ true
unfolding is_supervisor_state includes
empty-Good env = ground arith

-- From the empty queue, whatever the callers do and in whatever order their calls interleave, a task
-- that is queued, running or failed needs no approval or has it.
pub calls-IsApproved : (env : Env) (cs : Calls) → All IsApproved (perform_all env cs [])
calls-IsApproved env cs =
    (calls_keep env IsApproved (IsApproved-Stable env) cs [] (tt, empty-Good env)).0

-- The bounds of one task.
pub record InBounds (t : Task) : Type 0 where
  pub some_attempt : 0 < t.max_attempts
  pub attempts_capped : t.max_attempts ≤ max_attempts_cap
  pub attempt_capped : t.attempt ≤ t.max_attempts
  pub attempt_left : t.status ≡ queued → t.attempt < t.max_attempts
  pub attempted : t.status ≡ running → 0 < t.attempt
  pub not_started : t.status ≢ running → t.run_started_at ≡ none
  pub started : t.status ≡ running → is_some t.run_started_at ≡ true

-- The seven groups of tests on one task.
is_task_split :
    (a b c d e f g : Bool)
    → (a && b && c && d && e && f && g) ≡ true
    → (b ≡ true) × (f ≡ true) × (g ≡ true)
is_task_split a b c d e f g h = ground arith

bounds_of_tests :
    (t : Task)
    → attempts_valid t ≡ true
    → run_matches t.status t.run_started_at t.attempt ≡ true
    → InBounds t
unfolding attempts_valid
bounds_of_tests t h k = ground arith

is_task-InBounds : (env : Env) (t : Task) → is_task env t ≡ true → InBounds t
unfolding is_task
is_task-InBounds env t h =
    let (attempts, run, _) = is_task_split _ _ _ _ _ _ _ h in bounds_of_tests t attempts run

-- No two tasks have one id.
abbrev pub Distinct : List Task → Type 0
Distinct [] = Unit
Distinct (t ∷ ts) = All (λ u. u.task_id ≢ t.task_id) ts × Distinct ts

not_included :
    (a b : Text) (seen : List Text)
    → includes a (b ∷ seen) ≡ false
    → (includes a seen ≡ false) × (a ≢ b)
unfolding includes
not_included a b seen h = (ground arith, λ e. ground (arith, text_eq_iff b a, sym e))

are_tasks_split : (a b c d : Bool) → (not a && not b && c && d) ≡ true → (c ≡ true) × (d ≡ true)
are_tasks_split a b c d e = ground arith

are_tasks_fresh : (a b c d : Bool) → (not a && not b && c && d) ≡ true → b ≡ false
are_tasks_fresh a b c d e = ground arith

are_tasks-Distinct :
    (env : Env) (seen : List Text) (ts : List Task)
    → are_tasks env seen ts ≡ true
    → All (λ u. includes u.task_id seen ≡ false) ts × Distinct ts × All InBounds ts
unfolding are_tasks
are_tasks-Distinct env seen [] h = (tt, tt, tt)
are_tasks-Distinct env seen (t ∷ ts) h =
    let (bounds, rest) = are_tasks_split _ _ _ _ h in
    let (unseen, distinct, all) = are_tasks-Distinct env (t.task_id ∷ seen) ts rest in
    let apart = All-map _ _ ts (λ u. not_included u.task_id t.task_id seen) unseen in
    (
      (are_tasks_fresh _ _ _ _ h, All-map _ _ ts (λ u k. k.0) apart),
      (All-map _ _ ts (λ u k. k.1) apart, distinct),
      (is_task-InBounds env t bounds, all),
    )

-- What a stored queue satisfies: its size, different ids, the bounds of each task, and dependencies
-- that do not come back to their task.
pub record IsValid (env : Env) (tasks : List Task) : Type 0 where
  pub bounded : length tasks ≤ env.max_tasks
  pub distinct : Distinct tasks
  pub in_bounds : All InBounds tasks
  pub acyclic : (id : Text) → ¬ DependsOn (map entry tasks) id id

state_split :
    (a b c d : Bool) → (a && b && c && not d) ≡ true → (a ≡ true) × (b ≡ true) × (d ≡ false)
state_split a b c d h = ground arith

-- The validator accepts only such queues.
pub is_supervisor_state-IsValid :
    (env : Env) (tasks : List Task) → is_supervisor_state env tasks ≡ true → IsValid env tasks
unfolding is_supervisor_state
is_supervisor_state-IsValid env tasks h =
    let (size, each, no_cycle) = state_split _ _ _ _ h in
    let (_, distinct, bounds) = are_tasks-Distinct env [] tasks each in
    record {
      bounded = leb→le _ _ size;
      distinct = distinct;
      in_bounds = bounds;
      acyclic = has_dependency_cycle_sound (map entry tasks) no_cycle;
    }

-- What every task has, trivially.
unit-Stable : (env : Env) → Stable env (λ t. Unit {0})
unit-Stable env = record { fresh = λ _ _ _ _ _. tt; update = λ _ _ _ _. tt }

-- From the empty queue, whatever the callers do and in whatever order their calls interleave, the
-- queue is within its size, its ids differ, no task runs more often than it may, a running task has
-- a start time and no other has, and no task depends on itself through others.
pub calls-IsValid : (env : Env) (cs : Calls) → IsValid env (perform_all env cs [])
calls-IsValid env cs =
    is_supervisor_state-IsValid env _
      (calls_keep env _ (unit-Stable env) cs [] (tt, empty-Good env)).1
