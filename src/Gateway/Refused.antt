-- ===== src/Gateway/Refused.antt =====
-- The errors of src/data/delivery-system/tokenGateway.ts.
use autopilot_beta.Prelude.{
  ◌≡◌, refl, inl, inr, ◌⊎◌, Bool, true, false, Text, Bool-cases, Option-cases, Result-cases, find,
  Result, ok, err, ltb,
}
use autopilot_beta.Dict.{lookup}
use autopilot_beta.Gateway.Types.{
  GatewayError, refused, group_mismatch, group_slot_missing, group_slot_mismatch, group_missing,
  state_limit, write_failed, Input, Reservation, Slot, Group, GroupSpec, State, Usage, settled,
  released, was_settled, was_released, normalize_request,
}
use autopilot_beta.Gateway.Store.{
  Env, Stamp, World, Outcome, record_event, persist, finish, route_eq,
}
use autopilot_beta.Gateway.Reserve.{
  admit, new_reservation, with_reservation, refuse, place, existing_reservation, reserve_request,
  reserve,
}
use autopilot_beta.Gateway.Settle.{
  without_reservation, admit_settlement, settlement_of, conclude, settle, nothing_used, give_back,
  release,
}
use autopilot_beta.Gateway.Groups.{
  admit_group, new_group, with_group, normalize_group, open_group, reserve_group, has_slot_id,
  fits_slot, slot_reservation, with_claim, admit_claim, take_slot, claim_slot, find_slot,
  claim_group_slot,
}
use autopilot_beta.Gateway.Saved.{record_event-Keeps}

-- An error that is not the failure to save the state.
abbrev pub is_refusal : GatewayError → Bool
is_refusal (refused r) = true
is_refusal group_mismatch = true
is_refusal group_slot_missing = true
is_refusal group_slot_mismatch = true
is_refusal group_missing = true
is_refusal state_limit = false
is_refusal (write_failed m) = false

abbrev pub refuses : {A : Type 0} → Result GatewayError A → Bool
refuses (ok a) = false
refuses (err e) = is_refusal e

-- Nothing was refused, or nothing has changed but for the telemetry.
abbrev pub Intact : {A : Type 0} → World → Outcome A → Type 0
Intact w o = (refuses o.0 ≡ false) ⊎ ((o.1.state ≡ w.state) × (o.1.disk ≡ w.disk))

saved-accepted :
    {A : Type 0} (env : Env) (s : State) (w : World) (after : World → World) (a : A)
    → refuses (finish after a (persist env s w)).0 ≡ false
unfolding persist
saved-accepted env s w after a = elim (Bool-cases (ltb 2097152 (env.json_bytes s))) [
  | inl e ↦ rw e refl
  | inr e ↦ elim (Option-cases (env.write_failure s)) [
    | inl fine ↦ rw (e, fine) refl
    | inr (m, failed) ↦ rw (e, failed) refl
  ]
]

reserve-Intact :
    (env : Env) (stamp : Stamp) (input : Input) (w : World) → Intact w (reserve env stamp input w)
unfolding reserve reserve_request refuse place
reserve-Intact env stamp input w =
    let r = normalize_request input in
    elim (Option-cases (existing_reservation w.state r)) [
      | inr (found, e) ↦ rw (reserve, reserve_request, e) (inr (refl, refl))
      | inl fresh ↦ elim (Result-cases (admit env.limits w.state r)) [
        | inr (reason, e) ↦
            rw (reserve, reserve_request, fresh, e) (inr (record_event-Keeps env _ w))
        | inl (u, e) ↦
            let made = new_reservation stamp r in
            rw (reserve, reserve_request, fresh, e)
              (inl (saved-accepted env (with_reservation made w.state) w (record_event env _) made))
      ]
    ]

settle-Intact :
    (env : Env) (stamp : Stamp) (given : Reservation) (usage : Usage) (w : World)
    → Intact w (settle env stamp given usage w)
unfolding settle conclude
settle-Intact env stamp given usage w =
    let id = given.reservation_id in
    let st = settlement_of usage in
    elim (Option-cases (lookup id w.state.reservations)) [
      | inl gone ↦ rw (settle, gone) (inr (refl, refl))
      | inr (active, found) ↦
          elim (Result-cases (admit_settlement env.limits w.state.used active given st)) [
            | inr (reason, e) ↦ rw (settle, found, e) (inr (refl, refl))
            | inl (u, e) ↦
                rw (settle, found, e)
                  (inl (
                    saved-accepted env
                      (without_reservation env stamp id active settled was_settled st w.state) w
                      (record_event env _) st))
          ]
    ]

release-Intact :
    (env : Env) (stamp : Stamp) (given : Reservation) (w : World)
    → Intact w (release env stamp given w)
unfolding release give_back
release-Intact env stamp given w =
    let id = given.reservation_id in
    elim (Option-cases (lookup id w.state.reservations)) [
      | inl gone ↦ rw (release, gone) (inr (refl, refl))
      | inr (active, found) ↦
          elim (Bool-cases (route_eq active.request.route given.request.route)) [
            | inr other ↦ rw (release, found, other) (inr (refl, refl))
            | inl same ↦
                rw (release, found, same)
                  (inl (
                    saved-accepted env
                      (without_reservation env stamp id active released was_released nothing_used
                        w.state)
                      w (record_event env _) tt))
          ]
    ]

reserve_group-Intact :
    (env : Env) (spec : GroupSpec) (w : World) → Intact w (reserve_group env spec w)
unfolding reserve_group open_group
reserve_group-Intact env spec w = elim (Result-cases (normalize_group spec)) [
  | inr (reason, e) ↦ rw (reserve_group, e) (inr (refl, refl))
  | inl (u, e) ↦ elim (Option-cases (lookup spec.group_id w.state.groups)) [
    | inr (g, found) ↦ rw (reserve_group, e, found) (inr (refl, refl))
    | inl fresh ↦ elim (Result-cases (admit_group env.limits w.state spec)) [
      | inr (reason, f) ↦ rw (reserve_group, e, fresh, open_group, f) (inr (refl, refl))
      | inl (held, f) ↦
          let g = new_group spec held.0 in
          rw (reserve_group, e, fresh, open_group, f)
            (inl (saved-accepted env (with_group g held.1 w.state) w (λ w'. w') g))
    ]
  ]
]

claim_slot-Intact :
    (env : Env) (stamp : Stamp) (group_id : Text) (g : Group) (s : Slot) (input : Input) (w : World)
    → Intact w (claim_slot env stamp group_id g s input w)
unfolding claim_slot take_slot
claim_slot-Intact env stamp group_id g s input w =
    let r = normalize_request input in
    elim (Bool-cases (fits_slot input r s)) [
      | inr other ↦ rw (claim_slot, other) (inr (refl, refl))
      | inl same ↦ elim (Option-cases s.reservation) [
        | inr (before, e) ↦ rw (claim_slot, same, e) (inr (refl, refl))
        | inl free ↦ elim (Result-cases (admit_claim env.limits r)) [
          | inr (reason, e) ↦ rw (claim_slot, same, free, take_slot, e) (inr (refl, refl))
          | inl (u, e) ↦
              let made = slot_reservation stamp group_id s r in
              rw (claim_slot, same, free, take_slot, e)
                (inl (saved-accepted env (with_claim group_id g s made w.state) w (λ w'. w') made))
        ]
      ]
    ]

claim_group_slot-Intact :
    (env : Env) (stamp : Stamp) (group_id slot_id : Text) (input : Input) (w : World)
    → Intact w (claim_group_slot env stamp group_id slot_id input w)
unfolding claim_group_slot
claim_group_slot-Intact env stamp group_id slot_id input w =
    elim (Option-cases (lookup group_id w.state.groups)) [
      | inl missing ↦ rw (claim_group_slot, missing) (inr (refl, refl))
      | inr (g, found) ↦ elim (Option-cases (find (has_slot_id slot_id) g.slots)) [
        | inl absent ↦ rw (claim_group_slot, found, find_slot, absent) (inr (refl, refl))
        | inr (s, e) ↦
            rw (claim_group_slot, found, find_slot, e)
              (claim_slot-Intact env stamp group_id g s input w)
      ]
    ]

-- A reservation, a group reservation, a claim, a settlement and a release that are refused, for any
-- reason but the failure to save the state, leave the state in memory and the file as they were.
pub refusals-Intact :
    (env : Env) (stamp : Stamp) (input : Input) (spec : GroupSpec) (group_id slot_id : Text)
    (given : Reservation) (usage : Usage) (w : World)
    → Intact w (reserve env stamp input w)
      × Intact w (reserve_group env spec w)
      × Intact w (claim_group_slot env stamp group_id slot_id input w)
      × Intact w (settle env stamp given usage w)
      × Intact w (release env stamp given w)
refusals-Intact env stamp input spec group_id slot_id given usage w = (
  reserve-Intact env stamp input w,
  reserve_group-Intact env spec w,
  claim_group_slot-Intact env stamp group_id slot_id input w,
  settle-Intact env stamp given usage w,
  release-Intact env stamp given w,
)
