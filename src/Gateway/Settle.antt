-- ===== src/Gateway/Settle.antt =====
-- `settle`, `release` and `acknowledgeTerminal`, src/data/delivery-system/tokenGateway.ts.
use autopilot_beta.Prelude.{
  ℕ, ◌+◌, Bool, true, false, ◌&&◌, Option, none, some, Text, leb, or_default, if◌then◌else◌, Result,
  ok, err, ◌>>◌, guard,
}
use autopilot_beta.Dict.{Dict, lookup, insert, erase}
use autopilot_beta.Gateway.Types.{
  Refusal, GatewayError, refused, reservation_missing, route_mismatch, input_cap_exceeded,
  output_cap_exceeded, settlement_exceeds_reservation, budget_exhausted, Limits, Reservation,
  SlotState, settled, released, Usage, Settlement, Terminal, TerminalEvent, was_settled,
  was_released, State, settled_event, released_event, safe_count, provider_key, model_key,
  session_key, route_usage_keys,
}
use autopilot_beta.Gateway.Store.{
  Env, Stamp, World, Outcome, used_of, update_usage, raise_usage, lower_usage, route_eq,
  telemetry_of, record_event, persist, finish, prune_terminal, update_group_slot, held_of,
}

-- What is left of a reservation that has ended. A release adds no tokens, which leaves the usage as
-- the return of the held ones does.
unfoldable pub without_reservation :
    Env → Stamp → Text → Reservation → SlotState → TerminalEvent → Settlement → State → State
unfolding update_usage prune_terminal update_group_slot
without_reservation env stamp id active slot event settlement s = record {
  used =
      raise_usage (settlement.input_tokens + settlement.output_tokens)
        (route_usage_keys active.request.route)
        (lower_usage (held_of active) (route_usage_keys active.request.route) s.used);
  reservations = erase id s.reservations;
  terminal = prune_terminal env (
      insert id (record { event = event; settlement = settlement; completed_at = stamp.now })
        s.terminal);
  groups = update_group_slot active slot s.groups;
}

-- `used(key) - held + actual <= cap`, with the subtraction moved to the other side
abbrev pub settles_within : Limits → Dict ℕ → Reservation → ℕ → Bool
settles_within limits used active actual =
    let held = held_of active in
    let r = active.request.route in
    leb (used_of used (provider_key r) + actual) (limits.provider_budget + held)
    && leb (used_of used (model_key r) + actual) (limits.model_budget + held)
    && leb (used_of used (session_key r) + actual) (limits.session_budget + held)

abbrev pub settlement_of : Usage → Settlement
settlement_of usage = record {
  input_tokens = safe_count usage.input_tokens;
  output_tokens = safe_count usage.output_tokens;
  released = or_default usage.released false;
}

-- The tests on a settlement, in their order.
unfoldable pub admit_settlement :
    Limits → Dict ℕ → Reservation → Reservation → Settlement → Result Refusal (Unit {0})
admit_settlement limits used active given s = do
  guard (route_eq active.request.route given.request.route) route_mismatch
  guard (leb s.input_tokens limits.input_cap) input_cap_exceeded
  guard (leb s.output_tokens limits.output_cap) output_cap_exceeded
  guard (leb (s.input_tokens + s.output_tokens) active.total_tokens) settlement_exceeds_reservation
  guard (settles_within limits used active (s.input_tokens + s.output_tokens)) budget_exhausted

abbrev pub earlier_settlement : Option Terminal → Result GatewayError Settlement
earlier_settlement none = err (refused reservation_missing)
earlier_settlement (some t) = elim t.event [
  | was_settled ↦ ok t.settlement
  | was_released ↦ err (refused reservation_missing)
]

-- A settlement that passed the tests.
unfoldable pub conclude : Env → Stamp → Text → Reservation → Settlement → World → Outcome Settlement
unfolding without_reservation persist record_event telemetry_of
conclude env stamp id active s w =
    finish
      (record_event env (
        telemetry_of settled_event stamp.now (some active.reservation_id) active.request
          s.input_tokens s.output_tokens))
      s (persist env (without_reservation env stamp id active settled was_settled s w.state) w)

unfoldable pub settle : Env → Stamp → Reservation → Usage → World → Outcome Settlement
unfolding admit_settlement conclude
settle env stamp given usage w = elim (lookup given.reservation_id w.state.reservations) [
  | none ↦ (earlier_settlement (lookup given.reservation_id w.state.terminal), w)
  | some active ↦
      elim (admit_settlement env.limits w.state.used active given (settlement_of usage)) [
        | err reason ↦ (err (refused reason), w)
        | ok u ↦ conclude env stamp given.reservation_id active (settlement_of usage) w
      ]
]

abbrev pub nothing_used : Settlement
nothing_used = record { input_tokens = 0; output_tokens = 0; released = true }

abbrev pub released_before : Option Terminal → Result GatewayError (Unit {0})
released_before none = err (refused reservation_missing)
released_before (some t) = ok tt

unfoldable pub give_back : Env → Stamp → Text → Reservation → World → Outcome (Unit {0})
unfolding without_reservation persist record_event telemetry_of
give_back env stamp id active w =
    finish
      (record_event env
        (telemetry_of released_event stamp.now (some active.reservation_id) active.request 0 0))
      tt
      (persist env
        (without_reservation env stamp id active released was_released nothing_used w.state) w)

unfoldable pub release : Env → Stamp → Reservation → World → Outcome (Unit {0})
unfolding give_back
release env stamp given w = elim (lookup given.reservation_id w.state.reservations) [
  | none ↦ (released_before (lookup given.reservation_id w.state.terminal), w)
  | some active ↦
      if route_eq active.request.route given.request.route
      then give_back env stamp given.reservation_id active w
      else (err (refused route_mismatch), w)
]

unfoldable pub acknowledge_terminal : Env → Text → World → Outcome (Unit {0})
unfolding persist
acknowledge_terminal env id w = elim (lookup id w.state.terminal) [
  | none ↦ (ok tt, w)
  | some t ↦ persist env (record w.state { terminal = erase id w.state.terminal }) w
]
