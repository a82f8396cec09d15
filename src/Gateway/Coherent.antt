-- ===== src/Gateway/Coherent.antt =====
-- The usage that a state file must count, and the whole test of `isGatewayState`,
-- src/data/delivery-system/tokenGateway.ts.
use autopilot_beta.Prelude.{
  ℕ, ◌+◌, Bool, true, false, not, ◌&&◌, ◌||◌, Option, none, some, List, [], ◌∷◌, ◌++◌, map, Text,
  codes, text_eq, includes, unique, length, drop, find, filter, every, any, leb, ltb, ◌==◌,
  if◌then◌else◌,
}
use autopilot_beta.Dict.{Dict, lookup, insert, keys, values}
use autopilot_beta.Supervision.Route.{starts_with}
use autopilot_beta.Gateway.Types.{
  Route, Reservation, SlotState, reserved, claimed, settled, released, Slot, Group, Terminal, State,
  max_active_reservations, max_terminal_reservations, max_usage_keys, route_usage_keys,
}
use autopilot_beta.Gateway.Store.{World, used_of}
use autopilot_beta.Gateway.Reserve.{
  active_group_slots, ordinary_reservations, is_ordinary, held_slot,
}
use autopilot_beta.Gateway.Groups.{is_persisted, has_slot_id}
use autopilot_beta.Gateway.Valid.{
  is_safe, is_reservation, valid_reservation, valid_group, valid_terminal,
}

pub data KeyKind : Type 0 where
  provider_kind model_kind session_kind : KeyKind

-- The loop over the separators of a model key: what stands before and behind one of the colons.
unfoldable pub splits : Text → Text → Bool
unfolding is_persisted
splits before [] = false
splits before (c ∷ t) =
    ((c == 58) && is_persisted before && is_persisted t) || splits (before ++ c ∷ []) t

-- `key.slice(prefix.length)` where the key starts with the prefix
unfoldable pub behind : Text → Text → Option Text
unfolding starts_with
behind prefix key = if starts_with prefix key then some (drop (length prefix) key) else none

unfoldable pub usage_key_kind : Text → Option KeyKind
unfolding splits is_persisted behind
usage_key_kind key = elim (behind (codes "provider:") key) [
  | some name ↦ if is_persisted name then some provider_kind else none
  | none ↦ elim (behind (codes "session:") key) [
    | some name ↦ if is_persisted name then some session_kind else none
    | none ↦ elim (behind (codes "model:") key) [
      | some route ↦ if splits [] route then some model_kind else none
      | none ↦ none
    ]
  ]
]

-- The totals of the three kinds of key.
pub record Totals : Type 0 where
  pub provider : ℕ
  pub model : ℕ
  pub session : ℕ

abbrev pub nothing_counted : Totals
nothing_counted = record { provider = 0; model = 0; session = 0 }

abbrev pub safely : ℕ → Totals → Option Totals
safely n t = if is_safe n then some t else none

-- `safeIncrement`
unfoldable pub safe_increment : KeyKind → ℕ → Totals → Option Totals
safe_increment provider_kind n t = safely (t.provider + n) (record t { provider = t.provider + n })
safe_increment model_kind n t = safely (t.model + n) (record t { model = t.model + n })
safe_increment session_kind n t = safely (t.session + n) (record t { session = t.session + n })

abbrev pub then_maybe : {A B : Type 0} → Option A → (A → Option B) → Option B
then_maybe none f = none
then_maybe (some a) f = f a

-- The first loop: every key is a usage key, and every amount is positive.
unfoldable pub count_usage : Dict ℕ → Totals → Option Totals
unfolding usage_key_kind safe_increment
count_usage [] t = some t
count_usage ((k, n) ∷ d) t =
    if is_safe n && ltb 0 n
    then then_maybe (usage_key_kind k)
        (λ kind. then_maybe (safe_increment kind n t) (λ next. count_usage d next))
    else none

abbrev pub same_totals : Option Totals → Bool
same_totals none = false
same_totals (some t) = (t.provider == t.model) && (t.provider == t.session)

-- What a route needs at its keys.
unfoldable pub need : ℕ → List Text → Dict ℕ → Option (Dict ℕ)
need n [] required = some required
need n (k ∷ ks) required =
    let rest = need n ks (insert k (used_of required k + n) required) in
    if is_safe (used_of required k + n) then rest else none

unfoldable pub need_all : List (ℕ × Route) → Dict ℕ → Option (Dict ℕ)
unfolding need
need_all [] required = some required
need_all ((n, r) ∷ rs) required =
    then_maybe (need n (route_usage_keys r) required) (λ next. need_all rs next)

abbrev pub all_slots : List Group → List Slot
all_slots [] = []
all_slots (g ∷ gs) = g.slots ++ all_slots gs

-- What is held: by the ordinary reservations of more than no tokens, and by the slots in use.
abbrev pub held_routes : List Reservation → List Group → List (ℕ × Route)
held_routes rs gs =
    map (λ (r : Reservation). (r.total_tokens, r.request.route))
      (filter (λ r. is_ordinary r && not (r.total_tokens == 0)) rs)
    ++ map (λ (s : Slot). (s.request.hold_tokens, s.request.route))
        (filter held_slot (all_slots gs))

abbrev pub covers : Dict ℕ → Text × ℕ → Bool
covers used e = elim (lookup e.0 used) [ none ↦ false | some n ↦ is_safe n && leb e.1 n ]

abbrev pub covers_all : Dict ℕ → Option (Dict ℕ) → Bool
covers_all used none = false
covers_all used (some required) = every (covers used) required

-- `usageIsCoherent`
unfoldable pub coherent_usage : Dict ℕ → List Reservation → List Group → Bool
unfolding count_usage need_all
coherent_usage used rs gs =
    same_totals (count_usage used nothing_counted)
    && covers_all used (need_all (held_routes rs gs) [])

abbrev pub handoffs : List Reservation → List Text
handoffs [] = []
handoffs (r ∷ rs) = elim r.request.handoff_id [ none ↦ handoffs rs | some h ↦ h ∷ handoffs rs ]

abbrev pub by_id : Text → List Reservation → Option Reservation
by_id id = find (λ (r : Reservation). text_eq r.reservation_id id)

-- A claimed slot's reservation is in flight.
abbrev pub claim_stands : List Reservation → Slot → Bool
claim_stands rs s = elim s.state [
  | claimed ↦ elim s.reservation [
    | none ↦ false
    | some r ↦ is_reservation (by_id r.reservation_id rs) (some r)
  ]
  | other ↦ true
]

abbrev pub slot_at : Dict Group → Text → Option Text → Option Slot
slot_at groups group_id none = none
slot_at groups group_id (some slot_id) = elim (lookup group_id groups) [
  | none ↦ none
  | some g ↦ find (has_slot_id slot_id) g.slots
]

abbrev pub is_claimed : SlotState → Bool
is_claimed claimed = true
is_claimed reserved = false
is_claimed settled = false
is_claimed released = false

-- A reservation of a group stands in its slot.
abbrev pub stands_in_slot : Dict Group → Reservation → Bool
stands_in_slot groups r = elim r.group_id [
  | none ↦ true
  | some group_id ↦ elim (slot_at groups group_id r.slot_id) [
    | none ↦ false
    | some s ↦ is_claimed s.state && is_reservation s.reservation (some r)
  ]
]

abbrev pub within_counts : State → Bool
within_counts s =
    leb (length s.used) max_usage_keys
    && leb (length s.reservations) max_active_reservations
    && leb (length s.terminal) max_terminal_reservations
    && leb (length s.groups) max_active_reservations
    && leb (active_group_slots s.groups + ordinary_reservations s.reservations)
        max_active_reservations

abbrev pub linked : State → Bool
linked s =
    unique (handoffs (values s.reservations))
    && not (any (λ (e : Text × Reservation). includes e.0 (keys s.terminal)) s.reservations)
    && every (claim_stands (values s.reservations)) (all_slots (values s.groups))
    && every (stands_in_slot s.groups) (values s.reservations)

module _ (canonical : Text → Bool) where
  abbrev pub valid_entries : State → Bool
  valid_entries s =
      every
        (λ (e : Text × Group).
          is_persisted e.0 && valid_group canonical e.1 && text_eq e.1.group_id e.0)
        s.groups
      && every (λ (e : Text × Reservation). valid_reservation canonical e.0 e.1) s.reservations
      && every (λ (e : Text × Terminal). is_persisted e.0 && valid_terminal canonical e.1)
          s.terminal

  -- `isGatewayState`
  unfoldable pub is_gateway_state : State → Bool
  unfolding coherent_usage
  is_gateway_state s =
      within_counts s
      && valid_entries s
      && linked s
      && coherent_usage s.used (values s.reservations) (values s.groups)

  -- `readGatewayState`: what the file says, if it is a state.
  unfoldable pub load : World → Option World
  unfolding is_gateway_state
  load w = if is_gateway_state w.disk then some (record w { state = w.disk }) else none
