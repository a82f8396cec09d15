-- ===== src/Supervisor/Scenarios.antt =====
-- Runs of a small supervisor queue: two tasks, the second behind the first.
use autopilot_beta.Prelude.{
  ◌*◌, ◌≤◌, min, ◌≡◌, refl, true, none, some, List, [], ◌∷◌, map, Text, codes, All, ok, find,
  text_eq, is_space,
}
use autopilot_beta.Supervisor.Task.{
  queued, running, cancelled, Handoff, Task, Env, EnqueueInput, ◌>>=◌, pure, throw, require_that,
  get_tasks, lift,
}
use autopilot_beta.Supervisor.Acyclic.{DependsOn, has_dependency_cycle_sound}
use autopilot_beta.Supervisor.Search.{has_dependency_cycle-IsCyclic}
use autopilot_beta.Supervisor.Cycle.{Entry}
use autopilot_beta.Supervisor.Valid.{entry, is_supervisor_state}
use autopilot_beta.Supervisor.Store.{has_id, put}
use autopilot_beta.Supervisor.Enqueue.{enqueue, new_task}
use autopilot_beta.Supervisor.Run.{retry_delay, requeued, fail}
use autopilot_beta.Supervisor.Claim.{claim, recover}
use autopilot_beta.Supervisor.Dispatch.{
  dispatched, Clock, dispatch_claimed, Calls, enqueues, approves, claims, cancels, done, also,
  perform_all,
}
use autopilot_beta.Supervisor.Invariants.{IsApproved, calls-IsApproved, IsValid, calls-IsValid}
use autopilot_beta.Supervisor.Retries.{retry_delay_backoff}
use autopilot_beta.Supervisor.Restart.{Recovered, Pointwise, recover-Recovered}
use autopilot_beta.Supervisor.Outcomes.{Claimed, claim-Claimed}
use autopilot_beta.Supervisor.Failing.{Failed, fail-Failed}
use autopilot_beta.Supervisor.Interleaving.{as_completed, dispatch_claimed-completes}

abbrev digest : Text
digest = codes "aaaaaaaaaaaaaaaaaaaaaaaaaaaaaaaaaaaaaaaaaaaaaaaaaaaaaaaaaaaaaaaa"

abbrev env : Env
env = record {
  max_tasks = 4;
  max_prompt_chars = 100;
  base_retry_delay = 1000;
  max_retry_delay = 5000;
  sha256 = λ _. digest;
  json_bytes = λ _. 10;
  write_failure = λ _. none;
}

abbrev handoff : Handoff
handoff = record {
  handoff_id = codes "h1";
  prompt = codes "do it";
  packet_hash = codes "p1";
  session_id = none;
  task_packet_ref = none;
  timeout_ms = none;
  max_prompt_chars = none;
  prep_provenance = none;
}

abbrev input : Text → List Text → EnqueueInput
input id deps = record {
  task_id = id;
  handoff = handoff;
  session_id = none;
  max_attempts = none;
  timeout_ms = none;
  dependency_ids = some deps;
  requires_approval = none;
  approval_granted = none;
}

abbrev a_queued : Task
a_queued = new_task (input (codes "a") []) (some 100) 2 900000 []

abbrev b_queued : Task
b_queued = new_task (input (codes "b") (codes "a" ∷ [])) (some 100) 2 900000 (codes "a" ∷ [])

abbrev a_running : Task
a_running = record a_queued {
  status = running;
  attempt = 1;
  run_started_at = some (some 200);
  updated_at = some 200;
  last_error = none;
}

abbrev two_tasks : List Task
two_tasks = a_queued ∷ b_queued ∷ []

abbrev one_running : List Task
one_running = a_running ∷ b_queued ∷ []

-- Names what a run computes with.
machine : Unit {0}
unfolding text_eq is_space is_supervisor_state ◌>>=◌ pure throw require_that get_tasks lift
machine = tt

enqueue_second :
    enqueue env (input (codes "b") (codes "a" ∷ [])) (some 100) (a_queued ∷ [])
    ≡ (ok b_queued, two_tasks)
unfolding machine enqueue
enqueue_second = refl

claim_first : claim env (some 200) two_tasks ≡ (ok (some a_running), one_running)
unfolding machine claim
claim_first = refl

claim-Claimed_example : Claimed env (some 200) two_tasks a_running one_running
claim-Claimed_example = claim-Claimed env (some 200) two_tasks one_running a_running claim_first

abbrev a_retried : Task
a_retried = record a_running {
  status = queued;
  run_started_at = none;
  updated_at = some 300;
  next_attempt_at = some 1300;
  last_error = some (codes "oops");
  attempt_delta_hash = some digest;
}

fail_first :
    fail env (codes "a") (codes "oops") (some 300) (some (codes " new plan ")) one_running
    ≡ (ok a_retried, a_retried ∷ b_queued ∷ [])
unfolding machine fail
fail_first = refl

fail-Failed_example :
    (u : Task) × (find (has_id (codes "a")) one_running ≡ some u)
    × (u.status ≡ running)
    × (Failed env (codes "oops") (some 300) (some (codes " new plan ")) u a_retried
        × (a_retried ∷ b_queued ∷ [] ≡ put a_retried one_running))
fail-Failed_example =
    fail-Failed env (codes "a") (codes "oops") (some 300) (some (codes " new plan ")) one_running _
      a_retried fail_first

abbrev a_recovered : Task
a_recovered = requeued env a_running (codes "recovered_after_restart") (some 300) [] (some 1300)

recover_first :
    recover env (some 300) one_running
    ≡ (ok (a_recovered ∷ b_queued ∷ []), a_recovered ∷ b_queued ∷ [])
unfolding machine recover
recover_first = refl

recover-Recovered_example :
    Pointwise (Recovered env) one_running (a_recovered ∷ b_queued ∷ [])
    × ◌≡◌ {A = List Task} (a_recovered ∷ b_queued ∷ []) (a_recovered ∷ b_queued ∷ [])
recover-Recovered_example =
    recover-Recovered env (some 300) one_running (a_recovered ∷ b_queued ∷ [])
      (a_recovered ∷ b_queued ∷ []) recover_first

retry_delay_backoff_example :
    (retry_delay env 1 ≡ min 5000 1000)
    × (retry_delay env 4 ≡ min 5000 (2 * retry_delay env 3))
    × (retry_delay env 2 ≤ 5000)
retry_delay_backoff_example = retry_delay_backoff env 2

-- While the dispatcher runs, the owner cancels the task.
abbrev cancelling_calls : Calls
cancelling_calls = also (cancels (codes "a") (codes "stop") (some 250)) done

abbrev clock : Clock
clock = record { at_end = some 300; at_catch = some 300 }

cancel_overridden :
    dispatch_claimed env (codes "a") (perform_all env cancelling_calls) dispatched clock one_running
    ≡ (
      ok dispatched,
      as_completed (some 300) (record a_running {
        status = cancelled;
        run_started_at = none;
        updated_at = some 250;
        last_error = some (codes "stop");
        blocked_reason = none;
      })
          ∷ b_queued
          ∷ [],
    )
unfolding machine dispatch_claimed perform_all
cancel_overridden = refl

dispatch_claimed-completes_example :
    (t u : Task) × (find (has_id (codes "a")) one_running ≡ some t)
    × (t.status ≡ running)
    × (find (has_id (codes "a")) (perform_all env cancelling_calls one_running) ≡ some u)
    × ((dispatch_claimed env
          (codes "a")
          (perform_all env cancelling_calls)
          dispatched
          clock
          one_running).1
        ≡ put (as_completed (some 300) u) (perform_all env cancelling_calls one_running))
unfolding machine dispatch_claimed perform_all
dispatch_claimed-completes_example =
    dispatch_claimed-completes env (codes "a") (perform_all env cancelling_calls) clock one_running
      _ dispatched refl

-- An owner-approved task, claimed and completed.
abbrev history : Calls
history =
    also (enqueues (record (input (codes "a") []) { requires_approval = some true }) (some 100)) (
      also (claims (some 110))
        (also (approves (codes "a") (some 120)) (also (claims (some 130)) done)))

calls-IsApproved_example : All IsApproved (perform_all env history [])
calls-IsApproved_example = calls-IsApproved env history

calls-IsValid_example : IsValid env (perform_all env history [])
calls-IsValid_example = calls-IsValid env history

has_dependency_cycle-sound_example : ¬ DependsOn (map entry two_tasks) (codes "a") (codes "a")
unfolding machine
has_dependency_cycle-sound_example =
    has_dependency_cycle_sound (map entry two_tasks) refl (codes "a")

-- Two ids that depend on each other.
abbrev circle : List Entry
circle = (codes "a", codes "b" ∷ []) ∷ (codes "b", codes "a" ∷ []) ∷ []

has_dependency_cycle-IsCyclic_example : (a : Text) × DependsOn circle a a
unfolding machine
has_dependency_cycle-IsCyclic_example = has_dependency_cycle-IsCyclic circle refl
