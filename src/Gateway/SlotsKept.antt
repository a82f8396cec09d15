-- ===== src/Gateway/SlotsKept.antt =====
-- The changes of the state of src/data/delivery-system/tokenGateway.ts keep it within the budgets.
use autopilot_beta.Prelude.{
  ℕ, ◌+◌, ◌≤◌, ◌≡◌, sym, subst, inl, inr, true, some, List, [], ◌∷◌, Text, arith, Bool-cases, All,
  find, find-All, leb, leb→le, &&_split3,
}
use autopilot_beta.Dict.{lookup, Each-insert, Each-lookup}
use autopilot_beta.Gateway.Types.{
  Limits, Input, claimed, SlotRequest, Slot, Group, State, normalize_request,
}
use autopilot_beta.Gateway.Store.{Env, Stamp, route_eq}
use autopilot_beta.Gateway.Groups.{
  new_group, is_canonical_request, has_slot_id, put_slot, fits_slot, slot_reservation, with_claim,
}
use autopilot_beta.Gateway.Within.{
  Fits, SlotFits, GroupFits, ReservationFits, Within, lower-Budgets,
}
use autopilot_beta.Gateway.Stable.{Stable, requests}
use autopilot_beta.Gateway.Reserve.{new_reservation}
use autopilot_beta.Gateway.Kept.{admit-within, within_budgets-le, with_reservation-Within}
use autopilot_beta.Gateway.Ended.{concluded-Within, given_back-Within}
use autopilot_beta.Gateway.GroupsKept.{admit_group-hold, hold_slots-Budgets}

put_slot-Fits :
    (limits : Limits) (id : Text) (slot : Slot) (slots : List Slot)
    → SlotFits limits slot
    → All (SlotFits limits) slots
    → All (SlotFits limits) (put_slot id slot slots)
put_slot-Fits limits id slot [] h hs = tt
put_slot-Fits limits id slot (s ∷ ss) h hs = elim (Bool-cases (has_slot_id id s)) [
  | inl e ↦ rw (put_slot, e) (h, hs.1)
  | inr e ↦ rw (put_slot, e) (hs.0, put_slot-Fits limits id slot ss h hs.1)
]

smaller_le : (n m c : ℕ) → n ≤ m → m ≤ c → n ≤ c
smaller_le n m c h k = omega arith

smaller-Fits : (limits : Limits) (n m : ℕ) → n ≤ m → Fits limits m → Fits limits n
smaller-Fits limits n m h (p, l, s) = (
  smaller_le n m limits.provider_budget h p,
  smaller_le n m limits.model_budget h l,
  smaller_le n m limits.session_budget h s,
)

claimed-Within :
    (limits : Limits) (stamp : Stamp) (group_id slot_id : Text) (g : Group) (slot : Slot)
    (input : Input) (s : State)
    → lookup group_id s.groups ≡ some g
    → find (has_slot_id slot_id) g.slots ≡ some slot
    → fits_slot input (normalize_request input) slot ≡ true
    → Within limits s
    → Within limits (
        with_claim group_id g slot
          (slot_reservation stamp group_id slot (normalize_request input))
          s)
claimed-Within limits stamp group_id slot_id g slot input s found at fits (low, held, groups) =
    let r = normalize_request input in
    let total = r.input_tokens + r.output_tokens in
    let made = slot_reservation stamp group_id slot r in
    let taken : Slot = record slot { state = claimed; reservation = some made } in
    let all_fit = Each-lookup (GroupFits limits) group_id s.groups g groups found in
    let (room, _) = find-All (SlotFits limits) (has_slot_id slot_id) g.slots all_fit at in
    let (_, _, small) =
      &&_split3 (is_canonical_request input r) (route_eq slot.request.route r.route)
        (leb total slot.request.hold_tokens) fits in
    (
      low,
      Each-insert (ReservationFits limits) made.reservation_id made s.reservations held (
          smaller-Fits limits total slot.request.hold_tokens
            (leb→le total slot.request.hold_tokens small) room),
      Each-insert (GroupFits limits) group_id
          (record g { slots = put_slot slot.request.slot_id taken g.slots }) s.groups groups
          (put_slot-Fits limits slot.request.slot_id taken g.slots room all_fit),
    )

same_head : {A : Type 0} {x y : A} {xs ys : List A} → x ∷ xs ≡ y ∷ ys → (x ≡ y) × (xs ≡ ys)
same_head h = (cc, cc)

-- The holds of the slots are those of their requests.
requests-Fits :
    (limits : Limits) (ss ts : List Slot)
    → requests ss ≡ requests ts
    → All (SlotFits limits) ts
    → All (SlotFits limits) ss
requests-Fits limits [] ts e h = tt
requests-Fits limits (s ∷ ss) [] e h = cc
requests-Fits limits (s ∷ ss) (t ∷ ts) e h = (
  subst (λ (q : SlotRequest). Fits limits q.hold_tokens) (sym (same_head e).0) h.0,
  requests-Fits limits ss ts (same_head e).1 h.1,
)

pub Within-Stable : (env : Env) → Stable env (Within env.limits)
Within-Stable env = record {
  placing = λ stamp r s h within.
      with_reservation-Within env.limits (new_reservation stamp r) s
        (within_budgets-le env.limits s.used r (admit-within env.limits s r h)) within;
  concluding = λ stamp id active given st s. concluded-Within env stamp id active given st s;
  giving_back = λ stamp id active s found. given_back-Within env stamp id active s;
  acknowledging = λ id s within. within;
  opening = λ spec held s valid fresh h within.
      let (low, fit) =
        hold_slots-Budgets env.limits spec.slots 0 s.used held
          (admit_group-hold env.limits s spec held h) within.0 in
      (
        low,
        within.1,
        Each-insert (GroupFits env.limits) spec.group_id (new_group spec held.0) s.groups within.2
            fit,
      );
  claiming = λ stamp group_id slot_id g slot input s found at fits free caps.
      claimed-Within env.limits stamp group_id slot_id g slot input s found at fits;
  lowering = λ slot s within. (
    lower-Budgets env.limits slot.request.hold_tokens slot.request.route s.used within.0,
    within.1,
    within.2,
  );
  storing = λ group_id g ss before s found same sound within.
      let fit = Each-lookup (GroupFits env.limits) group_id before.groups g sound.2 found in
      (
        within.0,
        within.1,
        Each-insert (GroupFits env.limits) group_id (record g { slots = ss }) s.groups within.2
            (requests-Fits env.limits ss g.slots same fit),
      );
}
