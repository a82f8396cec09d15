-- ===== src/Gateway/Types.antt =====
-- The data of src/data/delivery-system/tokenGateway.ts.
use autopilot_beta.Prelude.{
  ℕ, ◌+◌, ◌-◌, ◌*◌, ◌/◌, length, Bool, Option, none, some, List, [], ◌∷◌, ◌++◌, map, Text, codes,
  take, ◌==◌, ◌||◌, or_default, if◌then◌else◌, ltb, not, ◌&&◌, Result, err, guard, zero, suc,
}
use autopilot_beta.Dict.{Dict}
use autopilot_beta.Routing.Budget.{Amount, not_finite, negative, number}

-- TokenGatewayRefusalCode
pub data Refusal : Type 0 where
  input_cap_exceeded output_cap_exceeded budget_exhausted reservation_missing : Refusal
  route_mismatch settlement_exceeds_reservation reservation_limit : Refusal

-- What a method throws.
pub data GatewayError : Type 0 where
  refused : Refusal → GatewayError
  group_mismatch group_slot_missing group_slot_mismatch group_missing state_limit : GatewayError
  write_failed : Text → GatewayError

-- TokenGatewayLimits
pub record Limits : Type 0 where
  pub input_cap : ℕ
  pub output_cap : ℕ
  pub provider_budget : ℕ
  pub model_budget : ℕ
  pub session_budget : ℕ

abbrev pub default_limits : Limits
default_limits = record {
  input_cap = 128000;
  output_cap = 16000;
  provider_budget = 1000000;
  model_budget = 500000;
  session_budget = 500000;
}

-- TokenGatewayRoute
pub record Route : Type 0 where
  pub provider : Text
  pub model : Option Text
  pub session_id : Option Text

-- TokenReservationRequest as a caller gives it.
pub record Input : Type 0 where
  pub route : Route
  pub input_tokens : Amount
  pub output_tokens : Amount
  pub handoff_id : Option Text

-- TokenReservationRequest behind `normalizeRequest`.
pub record Request : Type 0 where
  pub route : Route
  pub input_tokens : ℕ
  pub output_tokens : ℕ
  pub handoff_id : Option Text

-- TokenReservation. The last three are given together, to the reservation of a group's slot.
pub record Reservation : Type 0 where
  pub request : Request
  pub reservation_id : Text
  pub reserved_at : Text
  pub total_tokens : ℕ
  pub group_id : Option Text
  pub slot_id : Option Text
  pub held_tokens : Option ℕ

pub data SlotState : Type 0 where
  reserved claimed settled released : SlotState

-- TokenGroupSlotRequest
pub record SlotRequest : Type 0 where
  pub slot_id : Text
  pub route : Route
  pub hold_tokens : ℕ

-- TokenGroupSlotReservation
pub record Slot : Type 0 where
  pub request : SlotRequest
  pub state : SlotState
  pub reservation : Option Reservation

-- TokenGroupReservation
pub record Group : Type 0 where
  pub group_id : Text
  pub slots : List Slot
  pub maximum_tokens : ℕ

-- OrchestrationGroupSpec
pub record GroupSpec : Type 0 where
  pub group_id : Text
  pub slots : List SlotRequest

-- TokenSettlement as a caller gives it, and as it is kept.
pub record Usage : Type 0 where
  pub input_tokens : Amount
  pub output_tokens : Amount
  pub released : Option Bool

pub record Settlement : Type 0 where
  pub input_tokens : ℕ
  pub output_tokens : ℕ
  pub released : Bool

pub data TerminalEvent : Type 0 where
  was_settled was_released : TerminalEvent

pub record Terminal : Type 0 where
  pub event : TerminalEvent
  pub settlement : Settlement
  pub completed_at : Text

-- GatewayState
pub record State : Type 0 where
  pub used : Dict ℕ
  pub reservations : Dict Reservation
  pub terminal : Dict Terminal
  pub groups : Dict Group

pub data Event : Type 0 where
  reserved_event settled_event released_event : Event
  refused_event : Refusal → Event

-- TokenGatewayTelemetry; the reason is part of a refusal.
pub record Telemetry : Type 0 where
  pub event : Event
  pub recorded_at : Text
  pub reservation_id : Option Text
  pub handoff_id : Option Text
  pub route : Route
  pub input_tokens : ℕ
  pub output_tokens : ℕ
  pub total_tokens : ℕ

abbrev pub max_telemetry_lines : ℕ
max_telemetry_lines = 512

abbrev pub max_field_length : ℕ
max_field_length = 128

abbrev pub max_active_reservations : ℕ
max_active_reservations = 512

abbrev pub max_terminal_reservations : ℕ
max_terminal_reservations = 1024

abbrev pub max_state_bytes : ℕ
max_state_bytes = 2 * 1024 * 1024

abbrev pub max_usage_keys : ℕ
max_usage_keys = max_active_reservations * 3

-- `Number.isFinite(value) && value >= 0 ? Math.floor(value) : 0`
unfoldable pub safe_count : Amount → ℕ
safe_count not_finite = 0
safe_count (negative n) = 0
safe_count (number whole fraction) = whole

-- `value.replace(/[\r\n\t]/g, " ").slice(0, MAX_FIELD_LENGTH)`
abbrev pub clean_unit : ℕ → ℕ
clean_unit c = if c == 13 || c == 10 || c == 9 then 32 else c

abbrev pub non_empty : Text → Option Text
non_empty [] = none
non_empty (c ∷ t) = some (c ∷ t)

unfoldable pub bounded : Option Text → Option Text
bounded none = none
bounded (some t) = non_empty (take max_field_length (map clean_unit t))

abbrev pub unknown : Text
unknown = codes "unknown"

-- `input.handoffId === undefined ? {} : { handoffId: bounded(input.handoffId) ?? "unknown" }`
unfoldable pub bounded_handoff : Option Text → Option Text
unfolding bounded
bounded_handoff none = none
bounded_handoff (some t) = some (or_default (bounded (some t)) unknown)

unfoldable pub bounded_route : Route → Route
unfolding bounded
bounded_route r = record {
  provider = or_default (bounded (some r.provider)) unknown;
  model = bounded r.model;
  session_id = bounded r.session_id;
}

unfoldable pub normalize_request : Input → Request
unfolding bounded_route bounded_handoff safe_count
normalize_request input = record {
  route = bounded_route input.route;
  input_tokens = safe_count input.input_tokens;
  output_tokens = safe_count input.output_tokens;
  handoff_id = bounded_handoff input.handoff_id;
}

-- The three keys under which the usage of a route is counted.
abbrev pub provider_key : Route → Text
provider_key r = codes "provider:" ++ r.provider

abbrev pub model_key : Route → Text
model_key r = codes "model:" ++ (r.provider ++ (codes ":" ++ or_default r.model (codes "default")))

abbrev pub session_key : Route → Text
session_key r = codes "session:" ++ or_default r.session_id (codes "unscoped")

abbrev pub route_usage_keys : Route → List Text
route_usage_keys r = provider_key r ∷ model_key r ∷ session_key r ∷ []

-- TokenBudget
pub record TokenBudget : Type 0 where
  pub max_tokens : ℕ
  pub used_tokens : ℕ

-- `Math.max(0, max - used)`; `-` stops at 0
abbrev pub remaining_token_budget : TokenBudget → ℕ
remaining_token_budget b = b.max_tokens - b.used_tokens

-- `Math.ceil(text.length / 4)`
abbrev pub estimate_token_count : Text → ℕ
estimate_token_count t = (length t + 3) / 4

pub data BudgetError : Type 0 where
  invalid_estimated_tokens token_budget_exceeded : BudgetError

-- `estimated + used > max`
abbrev pub over_budget : ℕ → ℕ → TokenBudget → Bool
over_budget whole fraction b =
    ltb b.max_tokens (whole + b.used_tokens)
    || (whole + b.used_tokens == b.max_tokens && ltb 0 fraction)

unfoldable pub assert_token_budget : Amount → TokenBudget → Result BudgetError (Unit {0})
assert_token_budget not_finite b = err invalid_estimated_tokens
assert_token_budget (negative zero) b = guard (not (over_budget 0 0 b)) token_budget_exceeded
assert_token_budget (negative (suc n)) b = err invalid_estimated_tokens
assert_token_budget (number whole fraction) b =
    guard (not (over_budget whole fraction b)) token_budget_exceeded
