-- ===== src/Gateway/Ended.antt =====
-- The end of a reservation, src/data/delivery-system/tokenGateway.ts, keeps the gateway within its
-- budgets.
use autopilot_beta.Prelude.{
  ℕ, ◌+◌, ◌-◌, ◌≤◌, ◌≡◌, sym, subst, inl, inr, true, some, List, [], ◌∷◌, map, Text, text_eq,
  if◌then◌else◌, arith, Bool-cases, Option-cases, All, leb, leb→le, &&_split3, ok, then-ok,
  guard-ok,
}
use autopilot_beta.Dict.{Dict, lookup, Each, Each-insert, Each-erase, Each-lookup}
use autopilot_beta.Gateway.Types.{
  route_mismatch, input_cap_exceeded, output_cap_exceeded, settlement_exceeds_reservation,
  budget_exhausted, Limits, Reservation, SlotState, settled, released, Slot, Group, State,
  Settlement, TerminalEvent, was_settled, was_released, provider_key, model_key, session_key,
  route_usage_keys,
}
use autopilot_beta.Gateway.Store.{
  Env, Stamp, used_of, raise_usage, lower_usage, with_state, route_eq, set_slot_state, update_group,
  update_group_slot, held_of,
}
use autopilot_beta.Gateway.Settle.{
  without_reservation, settles_within, admit_settlement, nothing_used,
}
use autopilot_beta.Gateway.Within.{
  Budgets, HasRoom, SlotFits, GroupFits, ReservationFits, Within, raise-Budgets, lower-Budgets,
  Updates-route,
}

with_state-Fits :
    (limits : Limits) (id : Text) (state : SlotState) (slot : Slot)
    → SlotFits limits slot
    → SlotFits limits (if text_eq slot.request.slot_id id then with_state state slot else slot)
with_state-Fits limits id state slot h = elim (Bool-cases (text_eq slot.request.slot_id id)) [
  | inl e ↦ rw e h
  | inr e ↦ rw e h
]

set_slot_state-Fits :
    (limits : Limits) (id : Text) (state : SlotState) (slots : List Slot)
    → All (SlotFits limits) slots
    → All (SlotFits limits) (
        map
          (λ (slot : Slot). if text_eq slot.request.slot_id id then with_state state slot else slot)
          slots)
set_slot_state-Fits limits id state [] h = tt
set_slot_state-Fits limits id state (s ∷ ss) h =
    (with_state-Fits limits id state s h.0, set_slot_state-Fits limits id state ss h.1)

update_group-Fits :
    (limits : Limits) (group_id slot_id : Text) (state : SlotState) (groups : Dict Group)
    → Each (GroupFits limits) groups
    → Each (GroupFits limits) (update_group group_id slot_id state groups)
update_group-Fits limits group_id slot_id state groups h =
    elim (Option-cases (lookup group_id groups)) [
      | inl missing ↦ rw (update_group, missing) h
      | inr (g, found) ↦
          rw (update_group, found)
            (Each-insert (GroupFits limits) group_id (set_slot_state slot_id state g) groups h (
              set_slot_state-Fits limits slot_id state g.slots
                (Each-lookup (GroupFits limits) group_id groups g h found)))
    ]

update_group_slot-Fits :
    (limits : Limits) (r : Reservation) (state : SlotState) (groups : Dict Group)
    → Each (GroupFits limits) groups
    → Each (GroupFits limits) (update_group_slot r state groups)
unfolding update_group_slot
update_group_slot-Fits limits r state groups h = elim (Option-cases r.group_id) [
  | inl ordinary ↦ rw ordinary h
  | inr (group_id, e) ↦ elim (Option-cases r.slot_id) [
    | inl ordinary ↦ rw (e, ordinary) h
    | inr (slot_id, f) ↦ rw (e, f) (update_group-Fits limits group_id slot_id state groups h)
  ]
]

-- What the usage of the three keys becomes fits the budgets.
abbrev pub Swaps : Limits → Dict ℕ → Reservation → ℕ → Type 0
Swaps limits used r n =
    ((used_of used (provider_key r.request.route) - held_of r) + n ≤ limits.provider_budget)
    × ((used_of used (model_key r.request.route) - held_of r) + n ≤ limits.model_budget)
    × ((used_of used (session_key r.request.route) - held_of r) + n ≤ limits.session_budget)

-- There is room once the held tokens are given back.
pub Swaps-HasRoom :
    (limits : Limits) (used : Dict ℕ) (r : Reservation) (n : ℕ)
    → Swaps limits used r n
    → HasRoom limits r.request.route n
        (lower_usage (held_of r) (route_usage_keys r.request.route) used)
Swaps-HasRoom limits used r n (p, m, s) =
    let (a, b, c) = Updates-route (λ u. u - held_of r) r.request.route used in
    (
      subst (λ (u : ℕ). u + n ≤ limits.provider_budget) (sym a) p,
      subst (λ (u : ℕ). u + n ≤ limits.model_budget) (sym b) m,
      subst (λ (u : ℕ). u + n ≤ limits.session_budget) (sym c) s,
    )

swapped-Budgets :
    (limits : Limits) (used : Dict ℕ) (r : Reservation) (n : ℕ)
    → Budgets limits used
    → Swaps limits used r n
    → Budgets limits (
        raise_usage n
          (route_usage_keys r.request.route)
          (lower_usage (held_of r) (route_usage_keys r.request.route) used))
swapped-Budgets limits used r n low swaps =
    let q = r.request.route in
    let (p, m, s) = Swaps-HasRoom limits used r n swaps in
    raise-Budgets limits n q (lower_usage (held_of r) (route_usage_keys q) used)
      (lower-Budgets limits (held_of r) q used low) p m s

without_reservation-Within :
    (env : Env) (stamp : Stamp) (id : Text) (active : Reservation) (slot : SlotState)
    (event : TerminalEvent) (st : Settlement) (s : State)
    → Swaps env.limits s.used active (st.input_tokens + st.output_tokens)
    → Within env.limits s
    → Within env.limits (without_reservation env stamp id active slot event st s)
unfolding without_reservation
without_reservation-Within env stamp id active slot event st s swaps (low, held, groups) = (
  swapped-Budgets env.limits s.used active (st.input_tokens + st.output_tokens) low swaps,
  Each-erase (ReservationFits env.limits) id s.reservations held,
  update_group_slot-Fits env.limits active slot s.groups groups,
)

swap_le :
    (u held n total cap : ℕ) → u + n ≤ cap + held → n ≤ total → total ≤ cap → (u - held) + n ≤ cap
swap_le u held n total cap a b c = omega arith

settles_within-Swaps :
    (limits : Limits) (used : Dict ℕ) (active : Reservation) (n : ℕ)
    → settles_within limits used active n ≡ true
    → n ≤ active.total_tokens
    → ReservationFits limits active
    → Swaps limits used active n
settles_within-Swaps limits used active n h small (fp, fm, fs) =
    let held = held_of active in
    let total = active.total_tokens in
    let p = used_of used (provider_key active.request.route) in
    let m = used_of used (model_key active.request.route) in
    let s = used_of used (session_key active.request.route) in
    let (a, b, c) =
      &&_split3 (leb (p + n) (limits.provider_budget + held))
        (leb (m + n) (limits.model_budget + held)) (leb (s + n) (limits.session_budget + held)) h in
    (
      swap_le p held n total limits.provider_budget
          (leb→le (p + n) (limits.provider_budget + held) a) small fp,
      swap_le m held n total limits.model_budget (leb→le (m + n) (limits.model_budget + held) b)
          small fm,
      swap_le s held n total limits.session_budget (leb→le (s + n) (limits.session_budget + held) c)
          small fs,
    )

pub admit_settlement-within :
    (limits : Limits) (used : Dict ℕ) (active given : Reservation) (s : Settlement)
    → admit_settlement limits used active given s ≡ ok tt
    → (s.input_tokens + s.output_tokens ≤ active.total_tokens)
      × (settles_within limits used active (s.input_tokens + s.output_tokens) ≡ true)
unfolding admit_settlement
admit_settlement-within limits used active given s h =
    let n = s.input_tokens + s.output_tokens in
    let (_, a) = then-ok (route_eq active.request.route given.request.route) route_mismatch h in
    let (_, b) = then-ok (leb s.input_tokens limits.input_cap) input_cap_exceeded a in
    let (_, c) = then-ok (leb s.output_tokens limits.output_cap) output_cap_exceeded b in
    let (small, d) = then-ok (leb n active.total_tokens) settlement_exceeds_reservation c in
    (
      leb→le n active.total_tokens small,
      guard-ok (settles_within limits used active n) budget_exhausted d,
    )

nothing_le : (u held cap : ℕ) → u ≤ cap → (u - held) + 0 ≤ cap
nothing_le u held cap h = omega arith

-- What a settlement and a release leave room for.
pub settled-Swaps :
    (limits : Limits) (id : Text) (active given : Reservation) (st : Settlement) (s : State)
    → lookup id s.reservations ≡ some active
    → admit_settlement limits s.used active given st ≡ ok tt
    → Within limits s
    → Swaps limits s.used active (st.input_tokens + st.output_tokens)
settled-Swaps limits id active given st s found h within =
    let (small, room) = admit_settlement-within limits s.used active given st h in
    settles_within-Swaps limits s.used active (st.input_tokens + st.output_tokens) room small
      (Each-lookup (ReservationFits limits) id s.reservations active within.1 found)

pub released-Swaps :
    (limits : Limits) (active : Reservation) (s : State)
    → Within limits s
    → Swaps limits s.used active 0
released-Swaps limits active s within =
    let q = active.request.route in
    let (p, m, z) = within.0 q in
    (
      nothing_le (used_of s.used (provider_key q)) (held_of active) limits.provider_budget p,
      nothing_le (used_of s.used (model_key q)) (held_of active) limits.model_budget m,
      nothing_le (used_of s.used (session_key q)) (held_of active) limits.session_budget z,
    )

pub concluded-Within :
    (env : Env) (stamp : Stamp) (id : Text) (active given : Reservation) (st : Settlement)
    (s : State)
    → lookup id s.reservations ≡ some active
    → admit_settlement env.limits s.used active given st ≡ ok tt
    → Within env.limits s
    → Within env.limits (without_reservation env stamp id active settled was_settled st s)
concluded-Within env stamp id active given st s found h within =
    without_reservation-Within env stamp id active settled was_settled st s
      (settled-Swaps env.limits id active given st s found h within) within

pub given_back-Within :
    (env : Env) (stamp : Stamp) (id : Text) (active : Reservation) (s : State)
    → Within env.limits s
    → Within env.limits
        (without_reservation env stamp id active released was_released nothing_used s)
given_back-Within env stamp id active s within =
    without_reservation-Within env stamp id active released was_released nothing_used s
      (released-Swaps env.limits active s within) within
