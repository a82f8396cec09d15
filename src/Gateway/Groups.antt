-- ===== src/Gateway/Groups.antt =====
-- The groups of slots, src/data/delivery-system/tokenGateway.ts: reserveGroup, claimGroupSlot and
-- releaseGroupSlots.
use autopilot_beta.Prelude.{
  ℕ, ◌+◌, Bool, true, false, not, ◌&&◌, ◌||◌, Option, none, some, List, [], ◌∷◌, map, Text, text_eq,
  opt_text_eq, includes, unique, length, find, every, any, leb, ltb, ◌==◌, if◌then◌else◌, Result,
  ok, err, ◌>>=◌, ◌>>◌, guard,
}
use autopilot_beta.Dict.{Dict, lookup, insert}
use autopilot_beta.Owner.Approval.{max_safe_integer}
use autopilot_beta.Routing.Budget.{Amount, not_finite, negative, number}
use autopilot_beta.Gateway.Types.{
  GatewayError, refused, group_mismatch, group_slot_missing, group_slot_mismatch, group_missing,
  reservation_limit, input_cap_exceeded, output_cap_exceeded, budget_exhausted, Limits, Input,
  Request, Reservation, SlotState, reserved, claimed, settled, released, SlotRequest, Slot, Group,
  GroupSpec, State, max_active_reservations, max_usage_keys, max_field_length, bounded,
  normalize_request, provider_key, model_key, session_key, route_usage_keys,
}
use autopilot_beta.Gateway.Store.{
  Env, Stamp, World, Outcome, used_of, update_usage, lower_usage, route_eq, persist, finish,
  with_state,
}
use autopilot_beta.Gateway.Reserve.{active_group_slots, ordinary_reservations}
use autopilot_beta.Gateway.Settle.{release}

-- `isPersistedString`
unfoldable pub is_persisted : Text → Bool
unfolding bounded
is_persisted t =
    ltb 0 (length t) && leb (length t) max_field_length && opt_text_eq (bounded (some t)) (some t)

abbrev pub null_or_persisted : Option Text → Bool
null_or_persisted none = true
null_or_persisted (some t) = is_persisted t

unfoldable pub valid_slot_request : SlotRequest → Bool
unfolding is_persisted
valid_slot_request s =
    is_persisted s.slot_id
    && is_persisted s.route.provider
    && null_or_persisted s.route.model
    && null_or_persisted s.route.session_id
    && leb s.hold_tokens max_safe_integer
    && ltb 0 s.hold_tokens

abbrev pub slot_ids : List SlotRequest → List Text
slot_ids = map (λ (s : SlotRequest). s.slot_id)

-- `normalizeGroup`, which changes nothing
unfoldable pub normalize_group : GroupSpec → Result GatewayError (Unit {0})
unfolding is_persisted valid_slot_request unique
normalize_group spec =
    guard
      (is_persisted spec.group_id
        && every valid_slot_request spec.slots
        && unique (slot_ids spec.slots))
      group_mismatch

abbrev pub slot_request_eq : SlotRequest → SlotRequest → Bool
slot_request_eq a b =
    text_eq a.slot_id b.slot_id && route_eq a.route b.route && (a.hold_tokens == b.hold_tokens)

abbrev pub same_slots : List Slot → List SlotRequest → Bool
same_slots [] [] = true
same_slots (a ∷ as') (b ∷ bs) = slot_request_eq a.request b && same_slots as' bs
same_slots _ _ = false

unfoldable pub same_group_request : Group → GroupSpec → Bool
same_group_request g spec = text_eq g.group_id spec.group_id && same_slots g.slots spec.slots

-- The keys of a route with their caps.
abbrev pub capped_keys : Limits → SlotRequest → List (Text × ℕ)
capped_keys limits s =
    (provider_key s.route, limits.provider_budget)
    ∷ (model_key s.route, limits.model_budget)
    ∷ (session_key s.route, limits.session_budget)
    ∷ []

-- The inner loop over the keys of a slot.
unfoldable pub hold_keys : ℕ → List (Text × ℕ) → Dict ℕ → Result GatewayError (Dict ℕ)
hold_keys n [] used = ok used
hold_keys n ((k, cap) ∷ ks) used =
    let next = used_of used k + n in
    guard (leb next max_safe_integer && leb next cap) (refused budget_exhausted)
    >> hold_keys n ks (insert k next used)

-- The loop over the slots, with the tokens that they hold so far.
unfoldable pub hold_slots :
    Limits → List SlotRequest → ℕ → Dict ℕ → Result GatewayError (ℕ × Dict ℕ)
unfolding hold_keys
hold_slots limits [] total used = ok (total, used)
hold_slots limits (s ∷ ss) total used =
    guard (leb (total + s.hold_tokens) max_safe_integer) group_mismatch
    >> (hold_keys s.hold_tokens (capped_keys limits s) used
        >>= (λ next. hold_slots limits ss (total + s.hold_tokens) next))

abbrev pub new_slot : SlotRequest → Slot
new_slot s = record { request = s; state = reserved; reservation = none }

abbrev pub has_group_room : State → GroupSpec → Bool
has_group_room s spec =
    ltb (length s.groups) max_active_reservations
    && ltb 0 (length spec.slots)
    && leb (active_group_slots s.groups + ordinary_reservations s.reservations + length spec.slots)
        max_active_reservations

-- The tests on a new group, with the tokens it holds and the usage that results.
unfoldable pub admit_group : Limits → State → GroupSpec → Result GatewayError (ℕ × Dict ℕ)
unfolding hold_slots
admit_group limits s spec =
    guard (has_group_room s spec) (refused reservation_limit)
    >> (hold_slots limits spec.slots 0 s.used >>= (λ held.
        guard (leb (length held.1) max_usage_keys) (refused reservation_limit) >> ok held))

abbrev pub new_group : GroupSpec → ℕ → Group
new_group spec total = record {
  group_id = spec.group_id;
  slots = map new_slot spec.slots;
  maximum_tokens = total;
}

abbrev pub with_group : Group → Dict ℕ → State → State
with_group g used s = record s { used = used; groups = insert g.group_id g s.groups }

unfoldable pub open_group : Env → GroupSpec → World → Outcome Group
unfolding admit_group persist
open_group env spec w = elim (admit_group env.limits w.state spec) [
  | err e ↦ (err e, w)
  | ok held ↦
      let g = new_group spec held.0 in
      finish (λ w'. w') g (persist env (with_group g held.1 w.state) w)
]

unfoldable pub reserve_group : Env → GroupSpec → World → Outcome Group
unfolding normalize_group same_group_request open_group
reserve_group env spec w = elim (normalize_group spec) [
  | err e ↦ (err e, w)
  | ok u ↦ elim (lookup spec.group_id w.state.groups) [
    | some g ↦ (if same_group_request g spec then ok g else err group_mismatch, w)
    | none ↦ open_group env spec w
  ]
]

-- `Number.isInteger(value) && value >= 0`, as `isCanonicalRequest` compares it with its floor
abbrev pub is_whole : Amount → Bool
is_whole not_finite = false
is_whole (negative n) = n == 0
is_whole (number n fraction) = fraction == 0

unfoldable pub is_canonical_request : Input → Request → Bool
is_canonical_request input r =
    route_eq input.route r.route
    && is_whole input.input_tokens
    && is_whole input.output_tokens
    && opt_text_eq input.handoff_id r.handoff_id

abbrev pub has_slot_id : Text → Slot → Bool
has_slot_id id s = text_eq s.request.slot_id id

-- `slots[index] = slot`, at the first slot with the id
abbrev pub put_slot : Text → Slot → List Slot → List Slot
put_slot id slot [] = []
put_slot id slot (s ∷ ss) = if has_slot_id id s then slot ∷ ss else s ∷ put_slot id slot ss

abbrev pub fits_slot : Input → Request → Slot → Bool
fits_slot input r s =
    is_canonical_request input r
    && route_eq s.request.route r.route
    && leb (r.input_tokens + r.output_tokens) s.request.hold_tokens

abbrev pub same_reservation_input : Reservation → Request → Bool
same_reservation_input a r =
    route_eq a.request.route r.route
    && (a.request.input_tokens == r.input_tokens)
    && (a.request.output_tokens == r.output_tokens)
    && opt_text_eq a.request.handoff_id r.handoff_id

abbrev pub slot_reservation : Stamp → Text → Slot → Request → Reservation
slot_reservation stamp group_id s r = record {
  request = r;
  reservation_id = stamp.id;
  reserved_at = stamp.now;
  total_tokens = r.input_tokens + r.output_tokens;
  group_id = some group_id;
  slot_id = some s.request.slot_id;
  held_tokens = some s.request.hold_tokens;
}

abbrev pub with_claim : Text → Group → Slot → Reservation → State → State
with_claim group_id g s made state = record state {
  reservations = insert made.reservation_id made state.reservations;
  groups =
      insert group_id
        (record g {
          slots =
              put_slot s.request.slot_id (record s { state = claimed; reservation = some made })
                g.slots;
        })
        state.groups;
}

-- The tests on a claim of a slot that has no reservation.
unfoldable pub admit_claim : Limits → Request → Result GatewayError (Unit {0})
admit_claim limits r =
    guard (leb r.input_tokens limits.input_cap) (refused input_cap_exceeded)
    >> guard (leb r.output_tokens limits.output_cap) (refused output_cap_exceeded)

unfoldable pub take_slot : Env → Stamp → Text → Group → Slot → Request → World → Outcome Reservation
unfolding admit_claim persist
take_slot env stamp group_id g s r w = elim (admit_claim env.limits r) [
  | err e ↦ (err e, w)
  | ok u ↦
      let made = slot_reservation stamp group_id s r in
      finish (λ w'. w') made (persist env (with_claim group_id g s made w.state) w)
]

unfoldable pub claim_slot : Env → Stamp → Text → Group → Slot → Input → World → Outcome Reservation
unfolding normalize_request take_slot is_canonical_request
claim_slot env stamp group_id g s input w =
    let r = normalize_request input in
    if fits_slot input r s
    then elim s.reservation [
      | some found ↦
          (if same_reservation_input found r then ok found else err group_slot_mismatch, w)
      | none ↦ take_slot env stamp group_id g s r w
    ]
    else (err group_slot_mismatch, w)

-- The group and its slot, if there are such.
abbrev pub find_slot : Text → Option Group → Option (Group × Slot)
find_slot slot_id none = none
find_slot slot_id (some g) = elim (find (has_slot_id slot_id) g.slots) [
  | none ↦ none
  | some s ↦ some (g, s)
]

unfoldable pub claim_group_slot : Env → Stamp → Text → Text → Input → World → Outcome Reservation
unfolding claim_slot
claim_group_slot env stamp group_id slot_id input w =
    elim (find_slot slot_id (lookup group_id w.state.groups)) [
      | none ↦ (err group_slot_missing, w)
      | some (g, s) ↦ claim_slot env stamp group_id g s input w
    ]

abbrev pub is_over : SlotState → Bool
is_over reserved = false
is_over claimed = false
is_over settled = true
is_over released = true

-- What gives one slot's tokens back: the release of its reservation, or of its hold.
abbrev pub lower_hold : Slot → World → World
lower_hold s w = record w {
  state = record w.state {
    used = lower_usage s.request.hold_tokens (route_usage_keys s.request.route) w.state.used;
  };
}

unfoldable pub free_slot : Env → Stamp → Slot → World → Outcome (Unit {0})
unfolding release update_usage
free_slot env stamp s w = elim s.state [
  | claimed ↦ elim s.reservation [ some r ↦ release env stamp r w | none ↦ (ok tt, lower_hold s w) ]
  | other ↦ (ok tt, lower_hold s w)
]

abbrev pub cons_slot : Slot → Outcome (List Slot) → Outcome (List Slot)
cons_slot s (ok ss, w) = (ok (s ∷ ss), w)
cons_slot s (err e, w) = (err e, w)

abbrev pub then_slots : (World → Outcome (List Slot)) → Outcome (Unit {0}) → Outcome (List Slot)
then_slots k (ok u, w) = k w
then_slots k (err e, w) = (err e, w)

-- `group.slots.map(…)`, which releases the reservations that it meets.
unfoldable pub free_slots : Env → Stamp → List Text → List Slot → World → Outcome (List Slot)
unfolding free_slot includes
free_slots env stamp ids [] w = (ok [], w)
free_slots env stamp ids (s ∷ ss) w =
    let rest = free_slots env stamp ids ss in
    if not (includes s.request.slot_id ids) || is_over s.state
    then cons_slot s (rest w)
    else cons_slot (with_state released s) (then_slots rest (free_slot env stamp s w))

unfoldable pub store_slots : Env → Text → Group → Outcome (List Slot) → Outcome Group
unfolding persist
store_slots env group_id g (err e, w) = (err e, w)
store_slots env group_id g (ok ss, w) =
    let g' : Group = record g { slots = ss } in
    finish (λ w'. w') g'
      (persist env (record w.state { groups = insert group_id g' w.state.groups }) w)

abbrev pub has_slots : List Text → Group → Bool
has_slots ids g = every (λ id. any (has_slot_id id) g.slots) ids

unfoldable pub release_group_slots : Env → Stamp → Text → List Text → World → Outcome Group
unfolding free_slots store_slots unique
release_group_slots env stamp group_id ids w = elim (lookup group_id w.state.groups) [
  | none ↦ (err group_missing, w)
  | some g ↦
      if unique ids && has_slots ids g
      then store_slots env group_id g (free_slots env stamp ids g.slots w)
      else (err group_slot_missing, w)
]
