-- ===== src/Dispatch/Scenarios.antt =====
-- Runs of a dispatch, src/governed-core/dispatch.ts.
use autopilot_beta.Prelude.{
  ℕ, zero, suc, ◌+◌, ◌≡◌, refl, ◌⊎◌, true, false, none, some, [], ◌∷◌, length, Text, codes,
  includes, text_eq, is_blank, trim, trim_start, is_space, if◌then◌else◌, leb→le, ltb→lt, Result,
  ok, err,
}
use autopilot_beta.Dict.{lookup}
use autopilot_beta.Gateway.Types.{
  default_limits, safe_count, normalize_request, route_usage_keys, estimate_token_count,
}
use autopilot_beta.Gateway.Store.{Env, used_of}
use autopilot_beta.Gateway.Reserve.{admit, existing_reservation, with_reservation}
use autopilot_beta.Gateway.Calls.{new_gateway}
use autopilot_beta.Dispatch.Modes.{
  idea, build, codex_cli, cheap_attempts, is_prep_satisfied, is_lane_allowed, resolve_routing_lane,
}
use autopilot_beta.Dispatch.Handoff.{
  Packet, missing_upstream_draft, lane_not_allowed_in_mode, Handoff, WorkerResult, refused_dispatch,
  Host, Options, Scene,
}
use autopilot_beta.Dispatch.Gates.{
  compute_packet_hash, resolve_tier, has_non_empty, passes_lane, needs_draft, has_draft,
  pass_checks, to_worker_input,
}
use autopilot_beta.Dispatch.Run.{
  record_status, decision_of, append_decision, refuse_dispatch, reservation_input, run_worker_of,
  dispatch_handoff,
}
use autopilot_beta.Dispatch.Required.{IsGoverned}
use autopilot_beta.Dispatch.Governed.{IsReserved, dispatch_handoff-IsGoverned}
use autopilot_beta.Dispatch.Behind.{request_of, made_by, IsReady}
use autopilot_beta.Dispatch.Tokens.{
  dispatch_handoff-settled, dispatch_handoff-released, dispatch_handoff-stranded,
}

abbrev env : Env
env = record {
  limits = default_limits;
  json_bytes = λ s. length s.reservations;
  write_failure = λ s. none;
  log_fails = λ l. false;
  older = λ a b. false;
}

abbrev answer : Text → WorkerResult
answer t = record { exit_code = 0; raw_output = t; error_reason = none; model = none }

abbrev packet : Packet
packet = record {
  relevant_nodes = [];
  rules = codes "b" ∷ codes "a" ∷ [];
  required_checks = codes "tests" ∷ [];
  stop_conditions = [];
  must_not_assume = [];
}

abbrev host : Result Text WorkerResult → Host
host r = record {
  live_packet = λ h. packet;
  json = λ p mode. codes "f00d";
  prepare = λ h. ok (codes "s-1");
  sha256 = λ t. t;
  now = codes "2026-01-01T00:00:00.000Z";
  assigned = λ h. (codes "openai_gpt", none);
  run_worker = λ i. r;
  meanwhile = λ w. w;
  env = env;
  canonical = λ t. true;
  reserving = record { id = codes "tgr-1"; now = codes "2026-01-01T00:00:00.000Z" };
  ending = record { id = codes "tgr-2"; now = codes "2026-01-01T00:01:00.000Z" };
  telemetry_fails = false;
}

abbrev handoff : Handoff
handoff = record {
  handoff_id = codes "h-1";
  session_id = none;
  vendor = codex_cli;
  prompt = codes "fix the test";
  openrouter_mode = none;
  model = none;
  task = codes "fix";
  agent = codes "coder";
  packet_hash = codes "f00d";
  required_checks = codes "tests" ∷ [];
  routing_mode = some build;
  task_packet_ref = some (codes "packet-1");
  task_package_hash = some (codes "beef");
  prep_provenance = some (cheap_attempts (codes "attempt-1" ∷ []));
  has_routing = false;
  has_efficiency = true;
}

abbrev options : Options
options = record { caller_reserves = false; has_gateway = true }

abbrev scene : Scene
scene = record { gateway = new_gateway; decisions = []; statuses = []; workers = [] }

abbrev repeat : ℕ → Text
repeat zero = []
repeat (suc n) = 120 ∷ repeat n

abbrev short_answer : WorkerResult
short_answer = answer (codes "done")

abbrev long_answer : WorkerResult
long_answer = answer (repeat 32001)

machine : Unit {0}
unfolding compute_packet_hash dispatch_handoff refuse_dispatch run_worker_of resolve_tier
    pass_checks text_eq passes_lane needs_draft has_draft has_non_empty is_prep_satisfied is_blank
    trim trim_start is_space is_lane_allowed resolve_routing_lane record_status append_decision
    decision_of
machine =
    -- Codex builds only behind a draft, and not in the idea mode.
    let bare = record handoff { task_package_hash = some (codes " ") } in
    let undrafted : (dispatch_handoff (host (ok short_answer)) options bare scene).0
        ≡ ok (refused_dispatch missing_upstream_draft none true) =
      refl in
    let idle = record handoff { routing_mode = some idea } in
    let walled : (dispatch_handoff (host (ok short_answer)) options idle scene).0
        ≡ ok (refused_dispatch lane_not_allowed_in_mode none true) =
      refl in
    tt

dispatch_handoff-IsGoverned_example :
    ((dispatch_handoff (host (ok short_answer)) options handoff scene).1.workers ≡ [])
    ⊎ (IsGoverned (host (ok short_answer)) handoff
        × IsReserved (host (ok short_answer)) options handoff scene)
dispatch_handoff-IsGoverned_example =
    dispatch_handoff-IsGoverned (host (ok short_answer)) options handoff scene

ready : (r : Result Text WorkerResult) → IsReady (host r) options handoff none scene
unfolding compute_packet_hash text_eq resolve_tier pass_checks passes_lane needs_draft has_draft
    has_non_empty is_prep_satisfied is_blank trim trim_start is_space is_lane_allowed
    resolve_routing_lane existing_reservation admit normalize_request reservation_input
    to_worker_input with_reservation safe_count
ready r = (refl, refl, refl, refl, refl, refl, refl, refl, refl, λ w. refl)

dispatch_handoff-settled_example :
    let w = (dispatch_handoff (host (ok short_answer)) options handoff scene).1.gateway in
    ((k : Text)
      → used_of w.state.used k ≡ (
          if includes k (route_usage_keys (request_of handoff).route)
          then used_of new_gateway.state.used k
            + (estimate_token_count (to_worker_input handoff).prompt
                + estimate_token_count (codes "done"))
          else used_of new_gateway.state.used k))
    × (lookup (codes "tgr-1") w.state.reservations ≡ none)
dispatch_handoff-settled_example =
    dispatch_handoff-settled (host (ok short_answer)) options handoff none scene short_answer
      (ready (ok short_answer)) refl (leb→le 1 8000 refl)

dispatch_handoff-released_example :
    let w = (dispatch_handoff (host (err (codes "spawn"))) options handoff scene).1.gateway in
    ((k : Text) → used_of w.state.used k ≡ used_of new_gateway.state.used k)
    × (lookup (codes "tgr-1") w.state.reservations ≡ none)
dispatch_handoff-released_example =
    dispatch_handoff-released (host (err (codes "spawn"))) options handoff none scene
      (codes "spawn") (ready (err (codes "spawn"))) refl

dispatch_handoff-stranded_example :
    let h = host (ok long_answer) in
    let w = (dispatch_handoff h options handoff scene).1.gateway in
    (w.state ≡ with_reservation (made_by h handoff) new_gateway.state)
    × (lookup (codes "tgr-1") w.state.reservations ≡ some (made_by h handoff))
dispatch_handoff-stranded_example =
    dispatch_handoff-stranded (host (ok long_answer)) options handoff none scene long_answer
      (ready (ok long_answer)) refl (ltb→lt 8000 (estimate_token_count (repeat 32001)) refl)
