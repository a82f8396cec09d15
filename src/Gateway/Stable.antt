-- ===== src/Gateway/Stable.antt =====
-- What the state of src/data/delivery-system/tokenGateway.ts goes through: the changes that its methods
-- make to the state in memory, each behind the tests that lead to it. A predicate on states that every
-- change keeps is an invariant of the gateway.
use autopilot_beta.Prelude.{ℕ, ◌≡◌, true, none, some, List, map, Text, find, ok}
use autopilot_beta.Dict.{lookup, insert, erase}
use autopilot_beta.Gateway.Types.{
  Input, Request, Reservation, settled, released, SlotRequest, Slot, Group, GroupSpec, Settlement,
  was_settled, was_released, State, route_usage_keys, normalize_request,
}
use autopilot_beta.Gateway.Store.{Env, Stamp, lower_usage}
use autopilot_beta.Gateway.Reserve.{admit, new_reservation, with_reservation}
use autopilot_beta.Gateway.Settle.{without_reservation, admit_settlement, nothing_used}
use autopilot_beta.Gateway.Groups.{
  normalize_group, admit_group, new_group, with_group, has_slot_id, fits_slot, slot_reservation,
  with_claim, admit_claim,
}

abbrev pub requests : List Slot → List SlotRequest
requests = map (λ (s : Slot). s.request)

pub record Stable (env : Env) (P : State → Type 0) : Type 0 where
  pub placing :
      (stamp : Stamp) (r : Request) (s : State)
      → admit env.limits s r ≡ ok tt
      → P s
      → P (with_reservation (new_reservation stamp r) s)
  pub concluding :
      (stamp : Stamp) (id : Text) (active given : Reservation) (st : Settlement) (s : State)
      → lookup id s.reservations ≡ some active
      → admit_settlement env.limits s.used active given st ≡ ok tt
      → P s
      → P (without_reservation env stamp id active settled was_settled st s)
  pub giving_back :
      (stamp : Stamp) (id : Text) (active : Reservation) (s : State)
      → lookup id s.reservations ≡ some active
      → P s
      → P (without_reservation env stamp id active released was_released nothing_used s)
  pub acknowledging :
      (id : Text) (s : State) → P s → P (record s { terminal = erase id s.terminal })
  pub opening :
      (spec : GroupSpec) (held : ℕ × List (Text × ℕ)) (s : State)
      → normalize_group spec ≡ ok tt
      → lookup spec.group_id s.groups ≡ none
      → admit_group env.limits s spec ≡ ok held
      → P s
      → P (with_group (new_group spec held.0) held.1 s)
  pub claiming :
      (stamp : Stamp) (group_id slot_id : Text) (g : Group) (slot : Slot) (input : Input)
      (s : State)
      → lookup group_id s.groups ≡ some g
      → find (has_slot_id slot_id) g.slots ≡ some slot
      → fits_slot input (normalize_request input) slot ≡ true
      → slot.reservation ≡ none
      → admit_claim env.limits (normalize_request input) ≡ ok tt
      → P s
      → P (
          with_claim group_id g slot
            (slot_reservation stamp group_id slot (normalize_request input))
            s)
  pub lowering :
      (slot : Slot) (s : State)
      → P s
      → P (record s {
        used = lower_usage slot.request.hold_tokens (route_usage_keys slot.request.route) s.used;
      })
  -- The group is the one of the state before the loop over its slots.
  pub storing :
      (group_id : Text) (g : Group) (ss : List Slot) (before s : State)
      → lookup group_id before.groups ≡ some g
      → requests ss ≡ requests g.slots
      → P before
      → P s
      → P (record s { groups = insert group_id (record g { slots = ss }) s.groups })
