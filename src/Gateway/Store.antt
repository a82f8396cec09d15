-- ===== src/Gateway/Store.antt =====
-- The private methods of the class TokenGateway, src/data/delivery-system/tokenGateway.ts: the usage,
-- the state file, the telemetry and the records of what has ended.
use autopilot_beta.Prelude.{
  ℕ, ◌+◌, ◌-◌, Bool, ◌&&◌, Option, none, some, List, [], ◌∷◌, ◌++◌, map, Text, text_eq, opt_text_eq,
  take, drop, length, ltb, ◌==◌, or_default, if◌then◌else◌, Result, ok, err,
}
use autopilot_beta.Dict.{Dict, lookup, insert, erase, keys}
use autopilot_beta.Gateway.Types.{
  GatewayError, state_limit, write_failed, Limits, Route, Request, Reservation, SlotState, Slot,
  Group, Terminal, State, Event, Telemetry, max_telemetry_lines, max_terminal_reservations,
  max_state_bytes, bounded, bounded_route,
}

-- What the gateway is given and calls outside this file: its limits, the size of the state's JSON text,
-- the failure of the atomic write of a state, whether the telemetry can be written, and the order of
-- `localeCompare` on ended reservations (by time, then by id).
pub record Env : Type 0 where
  pub limits : Limits
  pub json_bytes : State → ℕ
  pub write_failure : State → Option Text
  pub log_fails : List Telemetry → Bool
  pub older : Text × Terminal → Text × Terminal → Bool

-- The random id and the time of a call.
pub record Stamp : Type 0 where
  pub id : Text
  pub now : Text

-- The state in memory, the state that the file holds, and the lines of the telemetry file.
pub record World : Type 0 where
  pub state : State
  pub disk : State
  pub log : List Telemetry

-- A method's result, or what it throws, with what it leaves.
abbrev pub Outcome : Type 0 → Type 0
Outcome A = Result GatewayError A × World

-- `this.used(key)`
abbrev pub used_of : Dict ℕ → Text → ℕ
used_of used k = or_default (lookup k used) 0

-- The usage of a key becomes `n`, and a usage of zero is deleted.
unfoldable pub set_usage : Dict ℕ → Text → ℕ → Dict ℕ
set_usage used k n = if n == 0 then erase k used else insert k n used

-- `addUsage` and `addRouteUsage`: the usage of each key becomes what `f` makes of it.
unfoldable pub update_usage : (ℕ → ℕ) → List Text → Dict ℕ → Dict ℕ
unfolding set_usage
update_usage f [] used = used
update_usage f (k ∷ ks) used = update_usage f ks (set_usage used k (f (used_of used k)))

-- With a positive amount, and with a negative one, where `-` stops at 0 as `Math.max(0, …)` does.
abbrev pub raise_usage : ℕ → List Text → Dict ℕ → Dict ℕ
raise_usage n = update_usage (λ u. u + n)

abbrev pub lower_usage : ℕ → List Text → Dict ℕ → Dict ℕ
lower_usage n = update_usage (λ u. u - n)

abbrev pub route_eq : Route → Route → Bool
route_eq a b =
    text_eq a.provider b.provider
    && opt_text_eq a.model b.model
    && opt_text_eq a.session_id b.session_id

-- The last `n` of a list.
abbrev pub last_of {ℓ} : {A : Type ℓ} → ℕ → List A → List A
last_of n xs = drop (length xs - n) xs

unfoldable pub telemetry_of : Event → Text → Option Text → Request → ℕ → ℕ → Telemetry
unfolding bounded bounded_route
telemetry_of event now id request input output = record {
  event = event;
  recorded_at = now;
  reservation_id = bounded id;
  handoff_id = bounded request.handoff_id;
  route = bounded_route request.route;
  input_tokens = input;
  output_tokens = output;
  total_tokens = input + output;
}

-- `record`: where the telemetry cannot be written, nothing happens.
unfoldable pub record_event : Env → Telemetry → World → World
record_event env line w =
    if env.log_fails w.log
    then w
    else record w { log = last_of max_telemetry_lines (w.log ++ line ∷ []) }

-- `persist`, after the state in memory has become `s`.
unfoldable pub persist : Env → State → World → Outcome (Unit {0})
persist env s w =
    if ltb max_state_bytes (env.json_bytes s)
    then (err state_limit, record w { state = s })
    else elim (env.write_failure s) [
      | some m ↦ (err (write_failed m), record w { state = s })
      | none ↦ (ok tt, record w { state = s; disk = s })
    ]

-- A method's end behind `persist`: what it returns, and what it records.
abbrev pub finish : {A : Type 0} → (World → World) → A → Outcome (Unit {0}) → Outcome A
finish after a (ok u, w) = (ok a, after w)
finish after a (err e, w) = (err e, w)

unfoldable pub insert_terminal :
    Env → Text × Terminal → List (Text × Terminal) → List (Text × Terminal)
insert_terminal env e [] = e ∷ []
insert_terminal env e (x ∷ xs) = if env.older x e then x ∷ insert_terminal env e xs else e ∷ x ∷ xs

unfoldable pub sort_terminal : Env → List (Text × Terminal) → List (Text × Terminal)
unfolding insert_terminal
sort_terminal env [] = []
sort_terminal env (e ∷ es) = insert_terminal env e (sort_terminal env es)

abbrev pub erase_all : List Text → Dict Terminal → Dict Terminal
erase_all [] d = d
erase_all (k ∷ ks) d = erase_all ks (erase k d)

-- The oldest go where there are more than 1024.
unfoldable pub prune_terminal : Env → Dict Terminal → Dict Terminal
unfolding sort_terminal
prune_terminal env d =
    erase_all (keys (take (length d - max_terminal_reservations) (sort_terminal env d))) d

abbrev pub with_state : SlotState → Slot → Slot
with_state s slot = record slot { state = s }

abbrev pub set_slot_state : Text → SlotState → Group → Group
set_slot_state id s g = record g {
  slots = map (λ slot. if text_eq slot.request.slot_id id then with_state s slot else slot) g.slots;
}

abbrev pub update_group : Text → Text → SlotState → Dict Group → Dict Group
update_group group_id slot_id s groups = elim (lookup group_id groups) [
  | none ↦ groups
  | some g ↦ insert group_id (set_slot_state slot_id s g) groups
]

-- `updateGroupSlot`
unfoldable pub update_group_slot : Reservation → SlotState → Dict Group → Dict Group
update_group_slot r s groups = elim r.group_id [
  | none ↦ groups
  | some group_id ↦ elim r.slot_id [
    | none ↦ groups
    | some slot_id ↦ update_group group_id slot_id s groups
  ]
]

-- `active.heldTokens ?? active.totalTokens`
abbrev pub held_of : Reservation → ℕ
held_of r = or_default r.held_tokens r.total_tokens
