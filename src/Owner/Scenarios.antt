-- ===== src/Owner/Scenarios.antt =====
-- Runs of the owner's records: an approval that is rejected, a session that is cancelled, a brainstorm.
use autopilot_beta.Prelude.{
  ◌+◌, ◌≤◌, ◌≡◌, refl, ◌⊎◌, ◌↔◌, true, false, Option, none, some, [], ◌∷◌, ◌++◌, map, Text, codes,
  text_eq, dedup_from, length, ok, err,
}
use autopilot_beta.Owner.Approval.{
  max_safe_integer, Approval, ApprovalInput, already_decided, invalid_approval_queue, valid_text,
  is_valid, create_approval_record, approve, reject, decided, decide_approval, Files,
  read_approval_queue, write_approval_queue,
}
use autopilot_beta.Owner.Session.{
  Session, Scope, create_session_record, is_in_scope, select_scoped_session, cancel_session,
  resume_session, is_session_owner_expired,
}
use autopilot_beta.Owner.Brainstorm.{counts_accepted, estimate_brainstorm_token_envelope}
use autopilot_beta.Owner.Profile.{
  dev, prod, high_risk, full_fail_closed, Effort, RouteSnapshot, resolve_verification_mode,
  classify_work_unit_for_profile, assert_no_silent_route_change, assert_no_silent_route_change_iff,
  classify_work_unit_for_profile_lem,
}
use autopilot_beta.Owner.Decisions.{
  decide_approval_final, decide_approval-valid, decide_approval-empty_reason,
  write_approval_queue-read,
}
use autopilot_beta.Owner.Lifecycle.{enqueue_all, item, enqueue_all-order, resume_session-cancelled}
use autopilot_beta.Owner.Envelope.{sum, envelope_of, estimate_brainstorm_token_envelope_iff}

abbrev today : Text
today = codes "2026-01-01T00:00:00.000Z"

abbrev input : ApprovalInput
input = record {
  approval_id = codes "ap-1";
  run_id = none;
  revision = some 1;
  session_id = codes "s-1";
  vendor = codes "codex_cli";
  model = none;
  skill_ids = codes "k" ∷ codes "k" ∷ [];
  prompt = codes "do it";
  prompt_file = none;
  estimated_tokens = 30;
  input_token_bound = 10;
  output_token_allowance = 20;
  prompt_review_acknowledged = none;
}

abbrev waiting : Approval
waiting = create_approval_record input today

-- Names what the examples compute with.
machine : Unit {0}
unfolding text_eq dedup_from valid_text is_valid create_approval_record decide_approval
    write_approval_queue
machine = tt

waiting-valid : is_valid waiting ≡ true
unfolding machine
waiting-valid = refl

abbrev reason : Option Text
reason = some (codes "too broad")

decide_approval_final_example :
    decide_approval (decided waiting reject today reason) approve today none ≡ err already_decided
unfolding machine
decide_approval_final_example =
    decide_approval_final waiting reject approve today today reason none
      (decided waiting reject today reason) refl

decide_approval-valid_example : is_valid (decided waiting reject today reason) ≡ true
unfolding machine
decide_approval-valid_example =
    decide_approval-valid waiting reject today reason (decided waiting reject today reason) refl
      refl (λ h. cc) refl

abbrev files : Files
files = record {
  stringify = λ _. codes "[]";
  parse = λ _. some (waiting ∷ []);
  byte_length = length;
  write_failure = λ _. none;
}

decide_approval-empty_reason_example :
    write_approval_queue files ((waiting ∷ []) ++ decided waiting reject today (some []) ∷ [])
    ≡ err invalid_approval_queue
unfolding machine
decide_approval-empty_reason_example =
    decide_approval-empty_reason files waiting (decided waiting reject today (some [])) today
      (waiting ∷ []) [] refl

write_approval_queue-read_example :
    read_approval_queue files (some (codes "[]")) ≡ ok (waiting ∷ [])
unfolding machine
write_approval_queue-read_example =
    write_approval_queue-read files (waiting ∷ []) (some (codes "[]")) refl refl

abbrev scope : Scope
scope = record { agent_command = codes "codex"; cwd = codes "/repo"; name = none }

abbrev session : Session
session = create_session_record (codes "s-1") scope (some (some 500)) (some 100)

enqueue_all-order_example :
    ((enqueue_all session ((codes "p", some 110) ∷ (codes "q", some 120) ∷ [])).queue
      ≡ session.queue ++ map item ((codes "p", some 110) ∷ (codes "q", some 120) ∷ []))
    × (is_in_scope scope (enqueue_all session ((codes "p", some 110) ∷ (codes "q", some 120) ∷ []))
        ≡ is_in_scope scope session)
enqueue_all-order_example =
    enqueue_all-order session ((codes "p", some 110) ∷ (codes "q", some 120) ∷ []) scope

abbrev resumed : Session
resumed = resume_session (cancel_session session (codes "stop") (some 200)) (some 300)

resume_session-cancelled_example :
    (select_scoped_session (cancel_session session (codes "stop") (some 200) ∷ session ∷ []) scope
      ≡ select_scoped_session (session ∷ []) scope)
    × (is_in_scope scope session ≡ true
        → select_scoped_session (resumed ∷ session ∷ []) scope ≡ some resumed)
    × (resumed.queue ≡ session.queue)
    × (is_session_owner_expired resumed (some 600) ≡ false)
    × (resumed.close_reason ≡ some (codes "stop"))
resume_session-cancelled_example =
    resume_session-cancelled session scope (session ∷ []) (codes "stop") (some 200) (some 300)
      (some 600)

estimate_brainstorm_token_envelope_iff_example :
    (estimate_brainstorm_token_envelope (100 ∷ 200 ∷ []) 50 0
      ≡ ok (envelope_of (100 ∷ 200 ∷ []) 50 0))
    ↔ ((counts_accepted (100 ∷ 200 ∷ []) 50 0 ≡ true)
        × (sum (100 ∷ 200 ∷ []) + 50 + 0 ≤ max_safe_integer)
        × (envelope_of (100 ∷ 200 ∷ []) 50 0 ≡ envelope_of (100 ∷ 200 ∷ []) 50 0))
estimate_brainstorm_token_envelope_iff_example =
    estimate_brainstorm_token_envelope_iff (100 ∷ 200 ∷ []) 50 0 (envelope_of (100 ∷ 200 ∷ []) 50 0)

abbrev route : RouteSnapshot
route = record { provider = codes "codex_cli"; model = none; reasoning = some Effort.ultra }

assert_no_silent_route_change_iff_example : (assert_no_silent_route_change route route ≡ ok tt) ↔ (
    (route.provider ≡ route.provider)
    × (route.model ≡ route.model)
    × (route.reasoning ≡ route.reasoning))
assert_no_silent_route_change_iff_example = assert_no_silent_route_change_iff route route

classify_work_unit_for_profile_lem_example :
    ((resolve_verification_mode dev (classify_work_unit_for_profile dev true).1 ≡ full_fail_closed)
      ↔ ((dev ≡ prod) ⊎ (true ≡ true)))
    × (((classify_work_unit_for_profile dev true).0 ≡ high_risk) ↔ ((dev ≡ prod) ⊎ (true ≡ true)))
classify_work_unit_for_profile_lem_example = classify_work_unit_for_profile_lem dev true
