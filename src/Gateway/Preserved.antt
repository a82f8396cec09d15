-- ===== src/Gateway/Preserved.antt =====
-- The methods of src/data/delivery-system/tokenGateway.ts keep, in memory and on disk, what every change
-- of the state keeps, whatever they return or throw.
use autopilot_beta.Prelude.{
  ◌≡◌, refl, inl, inr, some, Text, Bool-cases, Option-cases, Result-cases, find,
}
use autopilot_beta.Dict.{lookup, erase}
use autopilot_beta.Gateway.Types.{
  Input, Reservation, settled, released, Slot, Group, GroupSpec, State, Usage, was_settled,
  was_released, normalize_request,
}
use autopilot_beta.Gateway.Store.{Env, Stamp, World, record_event, route_eq}
use autopilot_beta.Gateway.Reserve.{
  admit, new_reservation, with_reservation, refuse, place, existing_reservation, reserve_request,
  reserve,
}
use autopilot_beta.Gateway.Settle.{
  without_reservation, admit_settlement, settlement_of, conclude, settle, nothing_used, give_back,
  release, acknowledge_terminal,
}
use autopilot_beta.Gateway.Groups.{
  admit_group, new_group, with_group, normalize_group, open_group, reserve_group, has_slot_id,
  fits_slot, slot_reservation, with_claim, admit_claim, take_slot, claim_slot, find_slot,
  claim_group_slot,
}
use autopilot_beta.Gateway.Within.{Both}
use autopilot_beta.Gateway.Saved.{record_event-Keeps, Keeps-Both, persist-Both, saved-Both}
use autopilot_beta.Gateway.Stable.{Stable}

module _ (env : Env) (P : State → Type 0) (stable : Stable env P) where
  pub reserve-Both :
      (stamp : Stamp) (input : Input) (w : World) → Both P w → Both P (reserve env stamp input w).1
  unfolding reserve reserve_request refuse place
  reserve-Both stamp input w h =
      let r = normalize_request input in
      elim (Option-cases (existing_reservation w.state r)) [
        | inr (found, e) ↦ rw (reserve, reserve_request, e) h
        | inl fresh ↦ elim (Result-cases (admit env.limits w.state r)) [
          | inr (reason, e) ↦
              rw (reserve, reserve_request, fresh, e)
                (Keeps-Both P (record_event env _) w (record_event-Keeps env _) h)
          | inl (u, e) ↦
              let made = new_reservation stamp r in
              rw (reserve, reserve_request, fresh, e)
                (saved-Both P env (with_reservation made w.state) w (record_event env _) made
                  (record_event-Keeps env _) (stable.placing stamp r w.state e h.0) h)
        ]
      ]

  pub settle-Both :
      (stamp : Stamp) (given : Reservation) (usage : Usage) (w : World)
      → Both P w
      → Both P (settle env stamp given usage w).1
  unfolding settle conclude
  settle-Both stamp given usage w h =
      let id = given.reservation_id in
      let st = settlement_of usage in
      elim (Option-cases (lookup id w.state.reservations)) [
        | inl gone ↦ rw (settle, gone) h
        | inr (active, found) ↦
            elim (Result-cases (admit_settlement env.limits w.state.used active given st)) [
              | inr (reason, e) ↦ rw (settle, found, e) h
              | inl (u, e) ↦
                  rw (settle, found, e)
                    (saved-Both P env
                      (without_reservation env stamp id active settled was_settled st w.state) w
                      (record_event env _) st (record_event-Keeps env _)
                      (stable.concluding stamp id active given st w.state found e h.0) h)
            ]
      ]

  pub release-Both :
      (stamp : Stamp) (given : Reservation) (w : World)
      → Both P w
      → Both P (release env stamp given w).1
  unfolding release give_back
  release-Both stamp given w h =
      let id = given.reservation_id in
      elim (Option-cases (lookup id w.state.reservations)) [
        | inl gone ↦ rw (release, gone) h
        | inr (active, found) ↦
            elim (Bool-cases (route_eq active.request.route given.request.route)) [
              | inr other ↦ rw (release, found, other) h
              | inl same ↦
                  rw (release, found, same)
                    (saved-Both P env
                      (without_reservation env stamp id active released was_released nothing_used
                        w.state)
                      w (record_event env _) tt (record_event-Keeps env _)
                      (stable.giving_back stamp id active w.state found h.0) h)
            ]
      ]

  pub acknowledge_terminal-Both :
      (id : Text) (w : World) → Both P w → Both P (acknowledge_terminal env id w).1
  unfolding acknowledge_terminal
  acknowledge_terminal-Both id w h = elim (Option-cases (lookup id w.state.terminal)) [
    | inl gone ↦ rw (acknowledge_terminal, gone) h
    | inr (t, found) ↦
        rw (acknowledge_terminal, found)
          (persist-Both P env (record w.state { terminal = erase id w.state.terminal }) w
            (stable.acknowledging id w.state h.0) h)
  ]

  pub reserve_group-Both :
      (spec : GroupSpec) (w : World) → Both P w → Both P (reserve_group env spec w).1
  unfolding reserve_group open_group
  reserve_group-Both spec w h = elim (Result-cases (normalize_group spec)) [
    | inr (reason, e) ↦ rw (reserve_group, e) h
    | inl (u, e) ↦ elim (Option-cases (lookup spec.group_id w.state.groups)) [
      | inr (g, found) ↦ rw (reserve_group, e, found) h
      | inl fresh ↦ elim (Result-cases (admit_group env.limits w.state spec)) [
        | inr (reason, f) ↦ rw (reserve_group, e, fresh, open_group, f) h
        | inl (held, f) ↦
            let g = new_group spec held.0 in
            rw (reserve_group, e, fresh, open_group, f)
              (saved-Both P env (with_group g held.1 w.state) w (λ w'. w') g (λ w'. (refl, refl))
                (stable.opening spec held w.state e fresh f h.0) h)
      ]
    ]
  ]

  claim_slot-Both :
      (stamp : Stamp) (group_id slot_id : Text) (g : Group) (s : Slot) (input : Input) (w : World)
      → lookup group_id w.state.groups ≡ some g
      → find (has_slot_id slot_id) g.slots ≡ some s
      → Both P w
      → Both P (claim_slot env stamp group_id g s input w).1
  unfolding claim_slot take_slot
  claim_slot-Both stamp group_id slot_id g s input w found at h =
      let r = normalize_request input in
      elim (Bool-cases (fits_slot input r s)) [
        | inr other ↦ rw (claim_slot, other) h
        | inl same ↦ elim (Option-cases s.reservation) [
          | inr (before, e) ↦ rw (claim_slot, same, e) h
          | inl free ↦ elim (Result-cases (admit_claim env.limits r)) [
            | inr (reason, e) ↦ rw (claim_slot, same, free, take_slot, e) h
            | inl (u, e) ↦
                let made = slot_reservation stamp group_id s r in
                rw (claim_slot, same, free, take_slot, e)
                  (saved-Both P env (with_claim group_id g s made w.state) w (λ w'. w') made
                    (λ w'. (refl, refl))
                    (stable.claiming stamp group_id slot_id g s input w.state found at same free e
                      h.0)
                    h)
          ]
        ]
      ]

  pub claim_group_slot-Both :
      (stamp : Stamp) (group_id slot_id : Text) (input : Input) (w : World)
      → Both P w
      → Both P (claim_group_slot env stamp group_id slot_id input w).1
  unfolding claim_group_slot
  claim_group_slot-Both stamp group_id slot_id input w h =
      elim (Option-cases (lookup group_id w.state.groups)) [
        | inl missing ↦ rw (claim_group_slot, missing) h
        | inr (g, found) ↦ elim (Option-cases (find (has_slot_id slot_id) g.slots)) [
          | inl absent ↦ rw (claim_group_slot, found, find_slot, absent) h
          | inr (s, e) ↦
              rw (claim_group_slot, found, find_slot, e)
                (claim_slot-Both stamp group_id slot_id g s input w found e h)
        ]
      ]
