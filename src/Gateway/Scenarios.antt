-- ===== src/Gateway/Scenarios.antt =====
-- Runs of the gateway of src/data/delivery-system/tokenGateway.ts.
use autopilot_beta.Prelude.{
  ℕ, zero, suc, ◌+◌, ◌≡◌, refl, Bool, true, false, none, some, List, [], ◌∷◌, ◌++◌, map, is_some,
  Text, codes, includes, unique, text_eq, if◌then◌else◌, leb→le, length, ok, err,
}
use autopilot_beta.Dict.{insert, Dict, lookup}
use autopilot_beta.Supervision.Route.{starts_with}
use autopilot_beta.Routing.Budget.{number}
use autopilot_beta.Gateway.Types.{
  was_settled, refused, reservation_limit, default_limits, Route, Input, Reservation, SlotRequest,
  reserved, claimed, Slot, Group, GroupSpec, Usage, State, bounded, bounded_route, bounded_handoff,
  safe_count, normalize_request, route_usage_keys,
}
use autopilot_beta.Gateway.Store.{
  Env, Stamp, World, used_of, set_usage, update_usage, telemetry_of, record_event, persist,
  insert_terminal, sort_terminal, prune_terminal, update_group_slot,
}
use autopilot_beta.Gateway.Reserve.{
  admit, existing_reservation, new_reservation, with_reservation, refuse, place, reserve_request,
  reserve,
}
use autopilot_beta.Gateway.Settle.{
  settlement_of, without_reservation, admit_settlement, conclude, settle, give_back, release,
  acknowledge_terminal,
}
use autopilot_beta.Gateway.Groups.{
  is_persisted, valid_slot_request, normalize_group, same_group_request, hold_keys, hold_slots,
  admit_group, open_group, reserve_group, is_canonical_request, admit_claim, take_slot, claim_slot,
  claim_group_slot, free_slot, free_slots, store_slots, release_group_slots, slot_reservation,
}
use autopilot_beta.Gateway.Valid.{
  reservation_eq, is_reservation, valid_reservation, valid_slot_reservation, valid_slot,
  valid_group, valid_terminal,
}
use autopilot_beta.Gateway.Coherent.{
  splits, behind, usage_key_kind, safe_increment, count_usage, need, need_all, coherent_usage,
  is_gateway_state, load,
}
use autopilot_beta.Gateway.Within.{Sound}
use autopilot_beta.Gateway.Calls.{
  Call, reserving, grouping, claiming, freeing, settling, acknowledging, restarting, perform,
  perform_all, new_gateway, new_gateway-Sound,
}
use autopilot_beta.Gateway.Ledger.{Ledger, new_gateway-Ledger}
use autopilot_beta.Gateway.Full.{reserve_group-full}
use autopilot_beta.Gateway.Charged.{reserve-release, reserve-settle}
use autopilot_beta.Gateway.Retries.{reserve-reserve}
use autopilot_beta.Gateway.Refused.{Intact, refusals-Intact}
use autopilot_beta.Gateway.Twice.{claim_group_slot-load}

abbrev env : Env
env = record {
  limits = default_limits;
  json_bytes = λ s. length s.reservations;
  write_failure = λ s. none;
  log_fails = λ l. false;
  older = λ a b. false;
}

abbrev any_time : Text → Bool
any_time t = true

abbrev stamp : ℕ → Stamp
stamp n = record { id = codes "tgr-" ++ n ∷ []; now = codes "2026-01-01T00:00:00.000Z" }

abbrev route : Route
route = record { provider = codes "codex"; model = some (codes "gpt"); session_id = none }

abbrev input : ℕ → ℕ → Input
input i o = record {
  route = route;
  input_tokens = number i 0;
  output_tokens = number o 0;
  handoff_id = some (codes "h-1");
}

abbrev other_input : ℕ → ℕ → Input
other_input i o = record (input i o) { handoff_id = some (codes "h-2") }

abbrev slot : ℕ → SlotRequest
slot n = record { slot_id = codes "slot-" ++ n ∷ []; route = route; hold_tokens = 100 }

abbrev pair : GroupSpec
pair = record { group_id = codes "g-1"; slots = slot 65 ∷ slot 66 ∷ [] }

abbrev usage : ℕ → ℕ → Usage
usage i o = record { input_tokens = number i 0; output_tokens = number o 0; released = none }

-- The state file cannot be written.
abbrev full_disk : Env
full_disk = record env { write_failure = λ s. some (codes "ENOSPC") }

-- The three usages of the route.
abbrev counts : World → List ℕ
counts w = map (used_of w.state.used) (route_usage_keys route)

unfoldable loads : World → Bool
unfolding load
loads w = is_some (load any_time w)

machine : Unit {0}
unfolding loads perform_all perform reserve reserve_request normalize_request bounded_route
    bounded_handoff bounded safe_count existing_reservation admit refuse place with_reservation
    update_usage set_usage persist record_event telemetry_of reserve_group normalize_group
    is_persisted valid_slot_request unique includes text_eq same_group_request open_group
    admit_group hold_slots hold_keys claim_group_slot claim_slot is_canonical_request take_slot
    admit_claim release_group_slots free_slots free_slot store_slots release give_back settle
    admit_settlement conclude without_reservation prune_terminal sort_terminal insert_terminal
    update_group_slot acknowledge_terminal load is_gateway_state coherent_usage count_usage
    usage_key_kind splits behind starts_with safe_increment need need_all valid_reservation
    valid_slot_reservation valid_slot valid_group valid_terminal is_reservation reservation_eq
machine =
    -- A reservation is held, then charged for what it used.
    let one = perform_all env any_time (reserving (stamp 65) (input 30 20) ∷ []) new_gateway in
    let r = new_reservation (stamp 65) (normalize_request (input 30 20)) in
    let held : counts one ≡ 50 ∷ 50 ∷ 50 ∷ [] = refl in
    let again : loads one ≡ true = refl in
    let charged : counts (perform env any_time (settling (stamp 66) r (usage 10 5)) one)
        ≡ 15 ∷ 15 ∷ 15 ∷ [] =
      refl in
    -- A group holds for all its slots, and its slots are claimed or given back.
    let group = perform_all env any_time (grouping pair ∷ []) new_gateway in
    let both : counts group ≡ 200 ∷ 200 ∷ 200 ∷ [] = refl in
    let fine : loads group ≡ true = refl in
    let freed =
      perform env any_time (freeing (stamp 67) (codes "g-1") ((slot 65).slot_id ∷ [])) group in
    let less : counts freed ≡ 100 ∷ 100 ∷ 100 ∷ [] = refl in
    let valid : loads freed ≡ true = refl in
    -- A slot that was given back is claimed all the same: nothing is held for it, and once the other
    -- slot has been given back too, the state is not read again.
    let taken =
      perform_all env any_time
        (claiming (stamp 68) (codes "g-1") (slot 65).slot_id (input 30 20)
          ∷ freeing (stamp 69) (codes "g-1") ((slot 66).slot_id ∷ [])
          ∷ [])
        freed in
    let unpaid : counts taken ≡ 0 ∷ 0 ∷ 0 ∷ [] = refl in
    let lost : loads taken ≡ false = refl in
    -- Where a slot's reservation cannot be released, the slot before it is given back twice: once in the
    -- call that fails, and once in the next.
    let mixed =
      perform_all env any_time
        (reserving (stamp 70) (input 30 20)
          ∷ grouping pair
          ∷ claiming (stamp 71) (codes "g-1") (slot 66).slot_id (other_input 30 20)
          ∷ [])
        new_gateway in
    let all_held : counts mixed ≡ 250 ∷ 250 ∷ 250 ∷ [] = refl in
    let free = freeing (stamp 72) (codes "g-1") ((slot 65).slot_id ∷ (slot 66).slot_id ∷ []) in
    let failed = perform full_disk any_time free mixed in
    let half : counts failed ≡ 50 ∷ 50 ∷ 50 ∷ [] = refl in
    let retried = perform env any_time free failed in
    let twice : counts retried ≡ 0 ∷ 0 ∷ 0 ∷ [] = refl in
    let gone : loads retried ≡ false = refl in tt

abbrev calls : List Call
calls = reserving (stamp 65) (input 30 20) ∷ grouping pair ∷ restarting ∷ []

new_gateway-Sound_example : Sound env.limits (perform_all env any_time calls new_gateway)
new_gateway-Sound_example = new_gateway-Sound env any_time calls

new_gateway-Ledger_example :
    let w = perform_all env any_time calls new_gateway in
    Ledger env.limits (used_of w.state.used) × Ledger env.limits (used_of w.disk.used)
new_gateway-Ledger_example = new_gateway-Ledger env any_time calls

abbrev made : Reservation
unfolding normalize_request
made = new_reservation (stamp 65) (normalize_request (input 30 20))

reserve-release_example :
    let w' = (release env (stamp 66) made (reserve env (stamp 65) (input 30 20) new_gateway).1).1 in
    ((k : Text) → used_of w'.state.used k ≡ used_of new_gateway.state.used k)
    × (lookup (stamp 65).id w'.state.reservations ≡ none)
unfolding existing_reservation admit normalize_request
reserve-release_example =
    reserve-release env (stamp 65) (stamp 66) (input 30 20) new_gateway refl refl

reserve-settle_example :
    let w' =
      (settle env
        (stamp 66)
        made
        (usage 10 5)
        (reserve env (stamp 65) (input 30 20) new_gateway).1).1 in
    ((k : Text)
      → used_of w'.state.used k ≡ (
          if includes k (route_usage_keys (normalize_request (input 30 20)).route)
          then used_of new_gateway.state.used k + 15
          else used_of new_gateway.state.used k))
    × ((id : Text)
        → lookup id w'.state.reservations
          ≡ (if text_eq (stamp 65).id id then none else lookup id new_gateway.state.reservations))
    × (w'.state.groups ≡ new_gateway.state.groups)
    × (w'.state.terminal
        ≡ prune_terminal env (
            insert
              (stamp 65).id
              (record {
                event = was_settled;
                settlement = settlement_of (usage 10 5);
                completed_at = (stamp 66).now;
              })
              new_gateway.state.terminal))
unfolding existing_reservation admit normalize_request safe_count
reserve-settle_example =
    reserve-settle env (stamp 65) (stamp 66) (input 30 20) (usage 10 5) new_gateway refl refl
      (leb→le 10 30 refl) (leb→le 5 20 refl)

reserve-reserve_example :
    reserve env (stamp 66) (input 30 20) (reserve full_disk (stamp 65) (input 30 20) new_gateway).1
    ≡ (ok made, (reserve full_disk (stamp 65) (input 30 20) new_gateway).1)
unfolding existing_reservation admit normalize_request bounded_handoff bounded text_eq bounded_route
    safe_count
reserve-reserve_example =
    reserve-reserve full_disk env (stamp 65) (stamp 66) (input 30 20) (input 30 20) (codes "h-1")
      new_gateway refl refl refl refl

refusals-Intact_example :
    Intact new_gateway (reserve env (stamp 65) (input 300000 20) new_gateway)
    × Intact new_gateway (reserve_group env pair new_gateway)
    × Intact new_gateway (
        claim_group_slot env
          (stamp 65)
          (codes "g-1")
          (slot 65).slot_id
          (input 300000 20)
          new_gateway)
    × Intact new_gateway (settle env (stamp 65) made (usage 10 5) new_gateway)
    × Intact new_gateway (release env (stamp 65) made new_gateway)
refusals-Intact_example =
    refusals-Intact env (stamp 65) (input 300000 20) pair (codes "g-1") (slot 65).slot_id made
      (usage 10 5) new_gateway

abbrev old_group : ℕ → Text × Group
old_group n = (
  codes "g-" ++ n ∷ [],
  record { group_id = codes "g-" ++ n ∷ []; slots = []; maximum_tokens = 0 },
)

abbrev old_groups : ℕ → Dict Group
old_groups zero = []
old_groups (suc n) = old_group (n + 1000) ∷ old_groups n

abbrev full_state : State
full_state = record { used = []; reservations = []; terminal = []; groups = old_groups 512 }

abbrev full_gateway : World
full_gateway = record { state = full_state; disk = full_state; log = [] }

reserve_group-full_example :
    reserve_group env pair
      (perform_all env any_time (acknowledging (codes "tgr-1") ∷ []) full_gateway)
    ≡ (
      err (refused reservation_limit),
      perform_all env any_time (acknowledging (codes "tgr-1") ∷ []) full_gateway,
    )
unfolding normalize_group is_persisted bounded valid_slot_request unique includes text_eq
    perform_all perform acknowledge_terminal
reserve_group-full_example =
    let full = leb→le 512 (length (old_groups 512)) refl in
    reserve_group-full env any_time (acknowledging (codes "tgr-1") ∷ []) pair full_gateway
      (full, full) refl refl

-- A group whose first slot is claimed for the handoff `h-2`.
abbrev half_claimed : World
unfolding perform_all perform
half_claimed =
    perform_all env any_time
      (grouping pair ∷ claiming (stamp 71) (codes "g-1") (slot 65).slot_id (other_input 30 20) ∷ [])
      new_gateway

abbrev open_slot : Slot
open_slot = record { request = slot 66; state = reserved; reservation = none }

abbrev taken_slot : Slot
unfolding normalize_request
taken_slot = record {
  request = slot 65;
  state = claimed;
  reservation = some (
      slot_reservation (stamp 71) (codes "g-1")
        (record { request = slot 65; state = reserved; reservation = none })
        (normalize_request (other_input 30 20)));
}

abbrev half_group : Group
unfolding taken_slot
half_group = record {
  group_id = codes "g-1";
  slots = taken_slot ∷ open_slot ∷ [];
  maximum_tokens = 200;
}

claim_group_slot-load_example :
    let after =
      claim_group_slot env
        (stamp 73)
        (codes "g-1")
        (slot 66).slot_id
        (other_input 30 20)
        half_claimed in
    (after.0
      ≡ ok (
          slot_reservation
            (stamp 73)
            (codes "g-1")
            open_slot
            (normalize_request (other_input 30 20))))
    × (load any_time after.1 ≡ none)
unfolding half_claimed perform_all perform reserve_group normalize_group is_persisted bounded
    valid_slot_request unique includes text_eq open_group admit_group hold_slots hold_keys
    claim_group_slot claim_slot normalize_request bounded_route bounded_handoff safe_count
    is_canonical_request take_slot admit_claim persist half_group taken_slot
claim_group_slot-load_example =
    claim_group_slot-load env any_time (stamp 73) (codes "g-1") (slot 66).slot_id (codes "h-2")
      half_group open_slot (other_input 30 20) half_claimed refl refl refl refl refl refl refl refl
      refl refl
