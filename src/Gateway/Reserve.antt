-- ===== src/Gateway/Reserve.antt =====
-- `reserve` and what it tests, src/data/delivery-system/tokenGateway.ts.
use autopilot_beta.Prelude.{
  ℕ, ◌+◌, Bool, true, false, not, ◌&&◌, Option, none, some, List, Text, opt_text_eq, length, find,
  filter, leb, ltb, ◌==◌, if◌then◌else◌, Result, ok, err, ◌>>◌, guard, is_some,
}
use autopilot_beta.Dict.{Dict, lookup, insert, values, weigh}
use autopilot_beta.Gateway.Types.{
  Refusal, refused, route_mismatch, reservation_limit, input_cap_exceeded, output_cap_exceeded,
  budget_exhausted, Limits, Input, Request, Reservation, SlotState, reserved, claimed, settled,
  released, Slot, Group, State, reserved_event, refused_event, max_active_reservations,
  max_usage_keys, normalize_request, provider_key, model_key, session_key, route_usage_keys,
}
use autopilot_beta.Gateway.Store.{
  Env, Stamp, World, Outcome, used_of, update_usage, raise_usage, route_eq, telemetry_of,
  record_event, persist, finish,
}

abbrev pub is_held : SlotState → Bool
is_held reserved = true
is_held claimed = true
is_held settled = false
is_held released = false

abbrev pub held_slot : Slot → Bool
held_slot s = is_held s.state

-- `activeGroupSlots` and `ordinaryReservations`
abbrev pub active_group_slots : Dict Group → ℕ
active_group_slots = weigh (λ (g : Group). length (filter held_slot g.slots))

abbrev pub is_ordinary : Reservation → Bool
is_ordinary r = not (is_some r.group_id)

abbrev pub ordinary_reservations : Dict Reservation → ℕ
ordinary_reservations d = length (filter is_ordinary (values d))

abbrev pub new_usage_keys : Dict ℕ → List Text → ℕ
new_usage_keys used ks = length (filter (λ k. not (is_some (lookup k used))) ks)

abbrev pub has_room : State → Bool
has_room s =
    ltb (active_group_slots s.groups + ordinary_reservations s.reservations) max_active_reservations

-- `used(key) + total <= cap` for the three keys
abbrev pub within_budgets : Limits → Dict ℕ → Request → Bool
within_budgets limits used r =
    let total = r.input_tokens + r.output_tokens in
    leb (used_of used (provider_key r.route) + total) limits.provider_budget
    && leb (used_of used (model_key r.route) + total) limits.model_budget
    && leb (used_of used (session_key r.route) + total) limits.session_budget

-- The tests on a request that is not in flight yet, in their order.
unfoldable pub admit : Limits → State → Request → Result Refusal (Unit {0})
admit limits s r = do
  guard (has_room s) reservation_limit
  guard (leb (length s.used + new_usage_keys s.used (route_usage_keys r.route)) max_usage_keys)
      reservation_limit
  guard (leb r.input_tokens limits.input_cap) input_cap_exceeded
  guard (leb r.output_tokens limits.output_cap) output_cap_exceeded
  guard (within_budgets limits s.used r) budget_exhausted

abbrev pub has_handoff : Text → Reservation → Bool
has_handoff h r = opt_text_eq r.request.handoff_id (some h)

-- `findActiveReservation`
abbrev pub find_active_reservation : Dict Reservation → Text → Option Reservation
find_active_reservation d h = find (has_handoff h) (values d)

-- The reservation in flight for the request's handoff, if it names one.
unfoldable pub existing_reservation : State → Request → Option Reservation
existing_reservation s r = elim r.handoff_id [
  | none ↦ none
  | some h ↦ find_active_reservation s.reservations h
]

abbrev pub same_tokens : Request → Request → Bool
same_tokens a b =
    route_eq a.route b.route
    && (a.input_tokens == b.input_tokens)
    && (a.output_tokens == b.output_tokens)

abbrev pub new_reservation : Stamp → Request → Reservation
new_reservation stamp r = record {
  request = r;
  reservation_id = stamp.id;
  reserved_at = stamp.now;
  total_tokens = r.input_tokens + r.output_tokens;
  group_id = none;
  slot_id = none;
  held_tokens = none;
}

-- The state with a new reservation, whose tokens are held.
unfoldable pub with_reservation : Reservation → State → State
unfolding update_usage
with_reservation r s = record s {
  reservations = insert r.reservation_id r s.reservations;
  used = raise_usage r.total_tokens (route_usage_keys r.request.route) s.used;
}

unfoldable pub refuse : {A : Type 0} → Env → Stamp → Request → Refusal → World → Outcome A
unfolding record_event telemetry_of
refuse env stamp r reason w = (
  err (refused reason),
  record_event env
      (telemetry_of (refused_event reason) stamp.now none r r.input_tokens r.output_tokens) w,
)

-- A reservation that passed the tests.
unfoldable pub place : Env → Stamp → Request → World → Outcome Reservation
unfolding with_reservation persist record_event telemetry_of
place env stamp r w =
    let made = new_reservation stamp r in
    finish
      (record_event env
        (telemetry_of reserved_event stamp.now (some stamp.id) r r.input_tokens r.output_tokens))
      made (persist env (with_reservation made w.state) w)

unfoldable pub reserve_request : Env → Stamp → Request → World → Outcome Reservation
unfolding existing_reservation admit refuse place
reserve_request env stamp r w = elim (existing_reservation w.state r) [
  | some found ↦ (if same_tokens found.request r then ok found else err (refused route_mismatch), w)
  | none ↦ elim (admit env.limits w.state r) [
    | err reason ↦ refuse env stamp r reason w
    | ok u ↦ place env stamp r w
  ]
]

unfoldable pub reserve : Env → Stamp → Input → World → Outcome Reservation
unfolding reserve_request normalize_request
reserve env stamp input = reserve_request env stamp (normalize_request input)
