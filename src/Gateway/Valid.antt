-- ===== src/Gateway/Valid.antt =====
-- What a state file must say to be loaded, `isGatewayState` of src/data/delivery-system/tokenGateway.ts.
-- The shape of the JSON values is the shape of the types.
use autopilot_beta.Prelude.{
  ℕ, ◌+◌, Bool, true, false, not, ◌&&◌, Option, none, some, List, [], ◌∷◌, map, Text, text_eq,
  opt_text_eq, unique, length, every, leb, ltb, ◌==◌, if◌then◌else◌, is_some,
}
use autopilot_beta.Owner.Approval.{max_safe_integer}
use autopilot_beta.Gateway.Types.{
  Reservation, SlotState, reserved, claimed, settled, released, Slot, Group, Terminal, was_settled,
  was_released,
}
use autopilot_beta.Gateway.Store.{route_eq}
use autopilot_beta.Gateway.Groups.{is_persisted, null_or_persisted}

abbrev pub is_safe : ℕ → Bool
is_safe n = leb n max_safe_integer

-- `isDeepStrictEqual` of two reservations
abbrev pub opt_number_eq : Option ℕ → Option ℕ → Bool
opt_number_eq none none = true
opt_number_eq (some a) (some b) = a == b
opt_number_eq _ _ = false

unfoldable pub reservation_eq : Reservation → Reservation → Bool
reservation_eq a b =
    text_eq a.reservation_id b.reservation_id
    && route_eq a.request.route b.request.route
    && (a.request.input_tokens == b.request.input_tokens)
    && (a.request.output_tokens == b.request.output_tokens)
    && opt_text_eq a.request.handoff_id b.request.handoff_id
    && text_eq a.reserved_at b.reserved_at
    && (a.total_tokens == b.total_tokens)
    && opt_text_eq a.group_id b.group_id
    && opt_text_eq a.slot_id b.slot_id
    && opt_number_eq a.held_tokens b.held_tokens

unfoldable pub is_reservation : Option Reservation → Option Reservation → Bool
unfolding reservation_eq
is_reservation (some a) (some b) = reservation_eq a b
is_reservation _ _ = false

abbrev pub valid_place : Reservation → Bool
valid_place r = elim r.group_id [
  | none ↦ not (is_some r.slot_id) && not (is_some r.held_tokens)
  | some g ↦ elim r.slot_id [
    | none ↦ false
    | some s ↦ elim r.held_tokens [
      | none ↦ false
      | some h ↦ is_persisted g && is_persisted s && is_safe h && leb r.total_tokens h
    ]
  ]
]

abbrev pub fits_state : SlotState → Option Reservation → Bool
fits_state reserved o = not (is_some o)
fits_state claimed o = is_some o
fits_state settled o = is_some o
fits_state released o = true

-- The sum of the holds, if every partial sum is safe.
abbrev pub sum_holds : ℕ → List Slot → Option ℕ
sum_holds total [] = some total
sum_holds total (s ∷ ss) =
    let rest = sum_holds (total + s.request.hold_tokens) ss in
    if is_safe (total + s.request.hold_tokens) then rest else none

-- A date that `Date` reads and prints back is the parameter `canonical`.
module _ (canonical : Text → Bool) where
  abbrev pub is_timestamp : Text → Bool
  is_timestamp t = leb (length t) 32 && canonical t

  -- `isReservation`
  unfoldable pub valid_reservation : Text → Reservation → Bool
  unfolding is_persisted
  valid_reservation id r =
      is_persisted id
      && text_eq r.reservation_id id
      && is_persisted r.request.route.provider
      && null_or_persisted r.request.route.model
      && null_or_persisted r.request.route.session_id
      && null_or_persisted r.request.handoff_id
      && is_timestamp r.reserved_at
      && is_safe r.request.input_tokens
      && is_safe r.request.output_tokens
      && is_safe r.total_tokens
      && (r.total_tokens == r.request.input_tokens + r.request.output_tokens)
      && valid_place r

  unfoldable pub valid_slot_reservation : Text → Slot → Option Reservation → Bool
  unfolding valid_reservation
  valid_slot_reservation group_id s none = true
  valid_slot_reservation group_id s (some r) =
      valid_reservation r.reservation_id r
      && opt_text_eq r.group_id (some group_id)
      && opt_text_eq r.slot_id (some s.request.slot_id)
      && opt_number_eq r.held_tokens (some s.request.hold_tokens)

  unfoldable pub valid_slot : Text → Slot → Bool
  unfolding is_persisted valid_slot_reservation
  valid_slot group_id s =
      is_persisted s.request.slot_id
      && is_persisted s.request.route.provider
      && null_or_persisted s.request.route.model
      && null_or_persisted s.request.route.session_id
      && is_safe s.request.hold_tokens
      && ltb 0 s.request.hold_tokens
      && fits_state s.state s.reservation
      && valid_slot_reservation group_id s s.reservation

  -- `isGroup`
  unfoldable pub valid_group : Group → Bool
  unfolding is_persisted valid_slot unique
  valid_group g =
      is_persisted g.group_id
      && is_safe g.maximum_tokens
      && ltb 0 (length g.slots)
      && unique (map (λ (s : Slot). s.request.slot_id) g.slots)
      && every (valid_slot g.group_id) g.slots
      && opt_number_eq (sum_holds 0 g.slots) (some g.maximum_tokens)

  -- `isTerminalReservation`
  unfoldable pub valid_terminal : Terminal → Bool
  valid_terminal t =
      is_safe t.settlement.input_tokens
      && is_safe t.settlement.output_tokens
      && is_safe (t.settlement.input_tokens + t.settlement.output_tokens)
      && is_timestamp t.completed_at
      && elim t.event [
        | was_settled ↦ true
        | was_released ↦
            (t.settlement.input_tokens == 0)
            && (t.settlement.output_tokens == 0)
            && t.settlement.released
      ]
