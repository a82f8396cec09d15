-- ===== src/Dispatch/Handoff.antt =====
-- The data of src/governed-core/dispatch.ts. Of a handoff, what the worker is only passed (directories,
-- images, skills, session hashes) is left out, and of the efficiency records all but their status.
use autopilot_beta.Prelude.{ℕ, Bool, Option, List, Text, Result}
use autopilot_beta.Gateway.Types.{GatewayError}
use autopilot_beta.Gateway.Store.{Env, Stamp, World}
use autopilot_beta.Dispatch.Modes.{Mode, RoutingLane, PrepProvenance, Vendor, OpenRouterMode}

-- DispatchRefusalReason
pub data DispatchRefusal : Type 0 where
  packet_provenance_mismatch routing_no_viable_provider missing_required_checks : DispatchRefusal
  lane_not_allowed_in_mode missing_upstream_draft token_budget_exhausted : DispatchRefusal

-- GovernedHandoff; `has_routing` tells whether it has a `routing` context, `has_efficiency` whether it
-- has an `efficiency` part.
pub record Handoff : Type 0 where
  pub handoff_id : Text
  pub session_id : Option Text
  pub vendor : Vendor
  pub prompt : Text
  pub openrouter_mode : Option OpenRouterMode
  pub model : Option Text
  pub task : Text
  pub agent : Text
  pub packet_hash : Text
  pub required_checks : List Text
  pub routing_mode : Option Mode
  pub task_packet_ref : Option Text
  pub task_package_hash : Option Text
  pub prep_provenance : Option PrepProvenance
  pub has_routing : Bool
  pub has_efficiency : Bool

-- CliWorkerInput, as far as dispatch looks at it
pub record WorkerInput : Type 0 where
  pub handoff_id : Text
  pub session_id : Option Text
  pub vendor : Vendor
  pub prompt : Text
  pub model : Option Text

-- CliWorkerResult, as far as dispatch looks at it
pub record WorkerResult : Type 0 where
  pub exit_code : ℕ
  pub raw_output : Text
  pub error_reason : Option Text
  pub model : Option Text

pub data DispatchResult : Type 0 where
  refused_dispatch : DispatchRefusal → Option Text → Bool → DispatchResult
  done : WorkerResult → Option Text → DispatchResult

pub data DispatchError : Type 0 where
  invalid_gateway_state : DispatchError
  gateway_failed : GatewayError → DispatchError
  worker_failed : Text → DispatchError
  not_prepared : Text → DispatchError

-- DispatchDecisionRecord, with the reason where it is a refusal
pub record Decision : Type 0 where
  pub recorded_at : Text
  pub handoff_id : Text
  pub task_hash : Text
  pub agent : Text
  pub vendor : Vendor
  pub routing_mode : Option Mode
  pub resolved_lane : Option RoutingLane
  pub tier_id : Option Text
  pub refusal_reason : Option DispatchRefusal

pub data Status : Type 0 where
  refused_status started_status completed_status failed_status : Status

-- GovernanceHashPacket
pub record Packet : Type 0 where
  pub relevant_nodes : List Text
  pub rules : List Text
  pub required_checks : List Text
  pub stop_conditions : List Text
  pub must_not_assume : List Text

-- What dispatch is given and calls: the packet that the live mesh has for a handoff, JSON, the session
-- that a handoff is prepared for, SHA-256, the time of the records, the provider and the tier that the
-- routing decision assigns, the worker, what other calls of the gateway do while it runs, and the
-- gateway's own parameters.
pub record Host : Type 0 where
  pub live_packet : Handoff → Packet
  pub json : Packet → Option Mode → Text
  pub prepare : Handoff → Result Text Text
  pub sha256 : Text → Text
  pub now : Text
  pub assigned : Handoff → Text × Option Text
  pub run_worker : WorkerInput → Result Text WorkerResult
  pub meanwhile : World → World
  pub env : Env
  pub canonical : Text → Bool
  pub reserving : Stamp
  pub ending : Stamp
  pub telemetry_fails : Bool

-- `options`: who reserves the tokens, and whether a gateway is given.
pub record Options : Type 0 where
  pub caller_reserves : Bool
  pub has_gateway : Bool

-- The gateway, the records of decisions and of efficiency, and the workers that were started.
pub record Scene : Type 0 where
  pub gateway : World
  pub decisions : List Decision
  pub statuses : List (Status × Option Text)
  pub workers : List WorkerInput
