-- ===== src/Gateway/Full.antt =====
-- The groups of src/data/delivery-system/tokenGateway.ts are never removed.
use autopilot_beta.Prelude.{
  ℕ, ◌≤◌, ◌≡◌, refl, inl, inr, Bool, false, none, some, List, [], ◌∷◌, Text, arith, length, ltb,
  Option-cases, ok, err,
}
use autopilot_beta.Dict.{Dict, lookup, insert}
use autopilot_beta.Gateway.Types.{
  refused, reservation_limit, Reservation, SlotState, claimed, settled, released, Slot, Group,
  GroupSpec, State, normalize_request, max_active_reservations,
}
use autopilot_beta.Gateway.Store.{Env, World, set_slot_state, update_group, update_group_slot}
use autopilot_beta.Gateway.Reserve.{with_reservation}
use autopilot_beta.Gateway.Settle.{without_reservation}
use autopilot_beta.Gateway.Groups.{
  admit_group, new_group, normalize_group, open_group, reserve_group, put_slot, slot_reservation,
}
use autopilot_beta.Gateway.Within.{Both}
use autopilot_beta.Gateway.Stable.{Stable}
use autopilot_beta.Gateway.Calls.{Call, perform_all, perform_all-Both}

-- At least `n` groups.
abbrev pub Groups : ℕ → State → Type 0
Groups n s = n ≤ length s.groups

insert-length : {V : Type 0} (k : Text) (v : V) (d : Dict V) → length d ≤ length (insert k v d)
insert-length k v [] = omega arith
insert-length k v (e ∷ d) = ground (arith, insert-length k v d)

inserted :
    {V : Type 0} (n : ℕ) (k : Text) (v : V) (d : Dict V) → n ≤ length d → n ≤ length (insert k v d)
inserted n k v d h = omega (arith, insert-length k v d)

update_group_slot-length :
    (n : ℕ) (r : Reservation) (state : SlotState) (groups : Dict Group)
    → n ≤ length groups
    → n ≤ length (update_group_slot r state groups)
unfolding update_group_slot
update_group_slot-length n r state groups h = elim (Option-cases r.group_id) [
  | inl ordinary ↦ rw (update_group_slot, ordinary) h
  | inr (group_id, e) ↦ elim (Option-cases r.slot_id) [
    | inl ordinary ↦ rw (update_group_slot, e, ordinary) h
    | inr (slot_id, f) ↦ elim (Option-cases (lookup group_id groups)) [
      | inl missing ↦ rw (update_group_slot, e, f, update_group, missing) h
      | inr (g, found) ↦
          rw (update_group_slot, e, f, update_group, found)
            (inserted n group_id (set_slot_state slot_id state g) groups h)
    ]
  ]
]

pub Groups-Stable : (env : Env) (n : ℕ) → Stable env (Groups n)
unfolding with_reservation without_reservation
Groups-Stable env n = record {
  placing = λ stamp r s admitted h. h;
  concluding = λ stamp id active given st s found admitted h.
      update_group_slot-length n active settled s.groups h;
  giving_back = λ stamp id active s found h. update_group_slot-length n active released s.groups h;
  acknowledging = λ id s h. h;
  opening = λ spec held s valid fresh admitted h.
      inserted n spec.group_id (new_group spec held.0) s.groups h;
  claiming = λ stamp group_id slot_id g slot input s found at fits free caps h.
      let made = slot_reservation stamp group_id slot (normalize_request input) in
      let taken : Slot = record slot { state = claimed; reservation = some made } in
      inserted n group_id (record g { slots = put_slot slot.request.slot_id taken g.slots })
        s.groups h;
  lowering = λ slot s h. h;
  storing = λ group_id g ss before s found same sound h.
      inserted n group_id (record g { slots = ss }) s.groups h;
}

-- A group that is not there is refused.
full_group :
    (env : Env) (spec : GroupSpec) (w : World)
    → normalize_group spec ≡ ok tt
    → lookup spec.group_id w.state.groups ≡ none
    → max_active_reservations ≤ length w.state.groups
    → reserve_group env spec w ≡ (err (refused reservation_limit), w)
unfolding reserve_group open_group admit_group
full_group env spec w valid fresh full =
    let closed : ltb (length w.state.groups) max_active_reservations ≡ false = ground arith in
    rw (reserve_group, valid, fresh, open_group, admit_group, closed) refl

-- Where 512 groups have been opened, in memory and on disk, the gateway opens no group again: after any
-- sequence of calls (releases of all slots and restarts among them), a valid group whose id is not there
-- is refused for the reservation limit.
pub reserve_group-full :
    (env : Env) (canonical : Text → Bool) (cs : List Call) (spec : GroupSpec) (w : World)
    → Both (Groups max_active_reservations) w
    → normalize_group spec ≡ ok tt
    → lookup spec.group_id (perform_all env canonical cs w).state.groups ≡ none
    → reserve_group env spec (perform_all env canonical cs w)
      ≡ (err (refused reservation_limit), perform_all env canonical cs w)
reserve_group-full env canonical cs spec w full valid fresh =
    let kept =
      perform_all-Both env canonical (Groups max_active_reservations)
        (Groups-Stable env max_active_reservations) cs w full in
    full_group env spec (perform_all env canonical cs w) valid fresh kept.0
