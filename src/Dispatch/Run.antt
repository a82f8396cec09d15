-- ===== src/Dispatch/Run.antt =====
-- `dispatchHandoff`, src/governed-core/dispatch.ts.
use autopilot_beta.Prelude.{
  ℕ, Bool, true, false, not, ◌&&◌, Option, none, some, [], ◌∷◌, ◌++◌, Text, codes, text_eq, ◌==◌,
  is_some, if◌then◌else◌, Result, ok, err,
}
use autopilot_beta.Routing.Budget.{number}
use autopilot_beta.Gateway.Types.{
  Refusal, refused, Input, Reservation, Usage, Settlement, estimate_token_count,
}
use autopilot_beta.Gateway.Store.{World, Outcome}
use autopilot_beta.Gateway.Reserve.{reserve}
use autopilot_beta.Gateway.Settle.{settle, release}
use autopilot_beta.Gateway.Coherent.{load}
use autopilot_beta.Dispatch.Modes.{Vendor, codex_cli, claude_cli, agy_cli, openrouter_api}
use autopilot_beta.Dispatch.Handoff.{
  DispatchRefusal, packet_provenance_mismatch, token_budget_exhausted, Handoff, WorkerInput,
  WorkerResult, DispatchResult, refused_dispatch, done, DispatchError, invalid_gateway_state,
  gateway_failed, worker_failed, not_prepared, Decision, Status, refused_status, started_status,
  completed_status, failed_status, Host, Options, Scene,
}
use autopilot_beta.Dispatch.Gates.{
  live_hash, resolve_handoff_lane, resolve_tier, pass_checks, to_worker_input,
}

-- DEFAULT_AGENT_PACKET_TOKEN_BUDGET
abbrev pub packet_token_budget : ℕ
packet_token_budget = 8000

abbrev pub vendor_text : Vendor → Text
vendor_text codex_cli = codes "codex_cli"
vendor_text claude_cli = codes "claude_cli"
vendor_text agy_cli = codes "agy_cli"
vendor_text openrouter_api = codes "openrouter_api"

-- The code of a TokenGatewayError.
abbrev pub refusal_code : Refusal → Text
refusal_code Refusal.input_cap_exceeded = codes "token_input_cap_exceeded"
refusal_code Refusal.output_cap_exceeded = codes "token_output_cap_exceeded"
refusal_code Refusal.budget_exhausted = codes "token_budget_exhausted"
refusal_code Refusal.reservation_missing = codes "token_reservation_missing"
refusal_code Refusal.route_mismatch = codes "token_route_mismatch"
refusal_code Refusal.settlement_exceeds_reservation = codes "token_settlement_exceeds_reservation"
refusal_code Refusal.reservation_limit = codes "token_reservation_limit"

abbrev pub DispatchOutcome : Type 0
DispatchOutcome = Result DispatchError DispatchResult × Scene

-- `recordEfficiencyStatus`
unfoldable pub record_status : Host → Handoff → Status → Option Text → Scene → Scene
record_status host h status model s =
    if h.has_efficiency && not host.telemetry_fails
    then record s { statuses = s.statuses ++ (status, model) ∷ [] }
    else s

-- `buildDispatchDecisionRecord`
unfoldable pub decision_of : Host → Handoff → Option Text → Option DispatchRefusal → Decision
decision_of host h tier reason = record {
  recorded_at = host.now;
  handoff_id = h.handoff_id;
  task_hash = host.sha256 h.task;
  agent = h.agent;
  vendor = h.vendor;
  routing_mode = h.routing_mode;
  resolved_lane = resolve_handoff_lane h;
  tier_id = tier;
  refusal_reason = reason;
}

-- `appendDispatchDecisionRecordBestEffort`
unfoldable pub append_decision : Host → Decision → Scene → Scene
append_decision host d s =
    if host.telemetry_fails then s else record s { decisions = s.decisions ++ d ∷ [] }

-- A refusal, with its two records.
unfoldable pub refuse_dispatch :
    Host → Handoff → DispatchRefusal → Option Text → Bool → Scene → DispatchOutcome
unfolding record_status decision_of append_decision
refuse_dispatch host h reason tier verified s = (
  ok (refused_dispatch reason tier verified),
  append_decision host (decision_of host h tier (some reason))
      (record_status host h refused_status h.model s),
)

-- `workerSucceeded`
abbrev pub worker_succeeded : WorkerResult → Bool
worker_succeeded r = (r.exit_code == 0) && not (is_some r.error_reason)

-- The end of a dispatch whose worker has come back.
unfoldable pub complete : Host → Handoff → Option Text → WorkerResult → Scene → DispatchOutcome
unfolding record_status decision_of append_decision
complete host h tier r s =
    let status = if worker_succeeded r then completed_status else failed_status in
    (
      ok (done r tier),
      append_decision host (decision_of host h tier none) (record_status host h status r.model s),
    )

abbrev pub with_worker : WorkerInput → Scene → Scene
with_worker input s = record s { workers = s.workers ++ input ∷ [] }

-- A worker whose tokens the caller has reserved.
unfoldable pub run_for_caller : Host → Handoff → Option Text → Scene → DispatchOutcome
unfolding to_worker_input record_status complete
run_for_caller host h tier s =
    let input = to_worker_input h in
    let started = with_worker input (record_status host h started_status input.model s) in
    elim (host.run_worker input) [
      | err e ↦ (err (worker_failed e), record_status host h failed_status input.model started)
      | ok r ↦ complete host h tier r started
    ]

-- What the tokens are reserved for.
unfoldable pub reservation_input : WorkerInput → Input
reservation_input input = record {
  route = record {
    provider = vendor_text input.vendor;
    model = input.model;
    session_id = input.session_id;
  };
  input_tokens = number (estimate_token_count input.prompt) 0;
  output_tokens = number packet_token_budget 0;
  handoff_id = some input.handoff_id;
}

unfoldable pub usage_of : WorkerInput → WorkerResult → Usage
usage_of input r = record {
  input_tokens = number (estimate_token_count input.prompt) 0;
  output_tokens = number (estimate_token_count r.raw_output) 0;
  released = none;
}

abbrev pub with_gateway : World → Scene → Scene
with_gateway w s = record s { gateway = w }

-- What the settlement leaves of a result: only a refusal of the gateway, behind a worker without an
-- error of its own, is told.
unfoldable pub after_settle :
    Host → Handoff → Option Text → WorkerResult → Scene → Outcome Settlement → DispatchOutcome
unfolding complete record_status
after_settle host h tier r s (ok st, w) = complete host h tier r (with_gateway w s)
after_settle host h tier r s (err (refused reason), w) =
    if is_some r.error_reason then complete host h tier r (with_gateway w s) else (
      ok (done (record r { error_reason = some (refusal_code reason) }) tier),
      record_status host h failed_status r.model (with_gateway w s),
    )
after_settle host h tier r s (err e, w) = complete host h tier r (with_gateway w s)

-- What `release` throws behind a failed worker hides the worker's error.
abbrev pub after_release : Text → Scene → Outcome (Unit {0}) → DispatchOutcome
after_release e s (ok u, w) = (err (worker_failed e), with_gateway w s)
after_release e s (err g, w) = (err (gateway_failed g), with_gateway w s)

-- A worker whose tokens are reserved.
unfoldable pub run_reserved : Host → Handoff → Option Text → Reservation → Scene → DispatchOutcome
unfolding to_worker_input record_status usage_of after_settle release settle
run_reserved host h tier made s =
    let input = to_worker_input h in
    let started = with_worker input (record_status host h started_status input.model s) in
    let w = host.meanwhile started.gateway in
    elim (host.run_worker input) [
      | err e ↦
          after_release e (record_status host h failed_status input.model started)
            (release host.env host.ending made w)
      | ok r ↦
          after_settle host h tier r started (settle host.env host.ending made (usage_of input r) w)
    ]

unfoldable pub after_reserve :
    Host → Handoff → Option Text → Scene → Outcome Reservation → DispatchOutcome
unfolding refuse_dispatch run_reserved
after_reserve host h tier s (ok made, w) = run_reserved host h tier made (with_gateway w s)
after_reserve host h tier s (err (refused reason), w) =
    refuse_dispatch host h token_budget_exhausted tier true (with_gateway w s)
after_reserve host h tier s (err e, w) = (err (gateway_failed e), with_gateway w s)

-- The gateway that is given, or a new one on the same directory.
unfoldable pub gateway_of : Host → Options → Scene → Option World
unfolding load
gateway_of host options s =
    if options.has_gateway then some s.gateway else load host.canonical s.gateway

unfoldable pub run_worker_of : Host → Options → Handoff → Option Text → Scene → DispatchOutcome
unfolding run_for_caller reservation_input after_reserve gateway_of reserve to_worker_input
run_worker_of host options h tier s =
    if options.caller_reserves
    then run_for_caller host h tier s
    else elim (gateway_of host options s) [
      | none ↦ (err invalid_gateway_state, s)
      | some w ↦
          after_reserve host h tier s
            (reserve host.env host.reserving (reservation_input (to_worker_input h)) w)
    ]

unfoldable pub dispatch_handoff : Host → Options → Handoff → Scene → DispatchOutcome
unfolding refuse_dispatch run_worker_of resolve_tier pass_checks text_eq
dispatch_handoff host options h s =
    if text_eq (live_hash host h) h.packet_hash
    then elim (resolve_tier host h) [
      | err reason ↦ refuse_dispatch host h reason none true s
      | ok tier ↦ elim (pass_checks h) [
        | err reason ↦ refuse_dispatch host h reason tier true s
        | ok u ↦ run_worker_of host options h tier s
      ]
    ]
    else refuse_dispatch host h packet_provenance_mismatch none false s

-- What a session dispatch passes on: no options.
abbrev pub no_options : Options
no_options = record { caller_reserves = false; has_gateway = false }

-- `dispatchGovernedSessionHandoff`, of whose plan only the session is looked at
unfoldable pub dispatch_session_handoff : Host → Handoff → Scene → DispatchOutcome
unfolding dispatch_handoff
dispatch_session_handoff host h s = elim (host.prepare h) [
  | err e ↦ (err (not_prepared e), s)
  | ok id ↦ dispatch_handoff host no_options (record h { session_id = some id }) s
]
