-- ===== src/Gateway/Freed.antt =====
-- The release of the slots of a group, src/data/delivery-system/tokenGateway.ts, keeps what every change
-- of the state keeps, and changes no slot but for its state.
use autopilot_beta.Prelude.{
  ◌≡◌, refl, ap, inl, inr, not, ◌&&◌, ◌||◌, some, List, [], ◌∷◌, Text, includes, unique, Bool-cases,
  Option-cases, ok, err,
}
use autopilot_beta.Dict.{lookup, insert}
use autopilot_beta.Gateway.Types.{
  SlotState, reserved, claimed, settled, released, SlotRequest, Slot, Group, State,
}
use autopilot_beta.Gateway.Store.{Env, Stamp, World, Outcome, with_state}
use autopilot_beta.Gateway.Groups.{
  is_over, lower_hold, free_slot, cons_slot, then_slots, free_slots, store_slots, has_slots,
  release_group_slots,
}
use autopilot_beta.Gateway.Within.{Both}
use autopilot_beta.Gateway.Saved.{saved-Both}
use autopilot_beta.Gateway.Stable.{Stable, requests}
use autopilot_beta.Gateway.Preserved.{release-Both}

-- What the loop leaves, and the slots that it returns, if it does.
abbrev Freed : (State → Type 0) → List SlotRequest → Outcome (List Slot) → Type 0
Freed P rs (ok ss, w) = (requests ss ≡ rs) × Both P w
Freed P rs (err e, w) = Both P w

cons_slot-Freed :
    (P : State → Type 0) (rs : List SlotRequest) (s : Slot) (o : Outcome (List Slot))
    → Freed P rs o
    → Freed P (s.request ∷ rs) (cons_slot s o)
cons_slot-Freed P rs s (ok ss, w) (same, h) =
    (ap (λ (qs : List SlotRequest). s.request ∷ qs) same, h)
cons_slot-Freed P rs s (err e, w) h = h

then_slots-Freed :
    (P : State → Type 0) (rs : List SlotRequest) (k : World → Outcome (List Slot))
    (o : Outcome (Unit {0}))
    → ((w : World) → Both P w → Freed P rs (k w))
    → Both P o.1
    → Freed P rs (then_slots k o)
then_slots-Freed P rs k (ok u, w) f h = f w h
then_slots-Freed P rs k (err e, w) f h = h

module _ (env : Env) (P : State → Type 0) (stable : Stable env P) where
  lower_hold-Both : (s : Slot) (w : World) → Both P w → Both P (lower_hold s w)
  lower_hold-Both s w h = (stable.lowering s w.state h.0, h.1)

  -- The states of a slot one by one.
  free_state-Both :
      (stamp : Stamp) (s : Slot) (w : World) (state : SlotState)
      → s.state ≡ state
      → Both P w
      → Both P (free_slot env stamp s w).1
  unfolding free_slot
  free_state-Both stamp s w claimed e h = elim (Option-cases s.reservation) [
    | inl never ↦ rw (free_slot, e, never) (lower_hold-Both s w h)
    | inr (r, f) ↦ rw (free_slot, e, f) (release-Both env P stable stamp r w h)
  ]
  free_state-Both stamp s w reserved e h = rw (free_slot, e) (lower_hold-Both s w h)
  free_state-Both stamp s w settled e h = rw (free_slot, e) (lower_hold-Both s w h)
  free_state-Both stamp s w released e h = rw (free_slot, e) (lower_hold-Both s w h)

  free_slots-Freed :
      (stamp : Stamp) (ids : List Text) (ss : List Slot) (w : World)
      → Both P w
      → Freed P (requests ss) (free_slots env stamp ids ss w)
  unfolding free_slots
  free_slots-Freed stamp ids [] w h = (refl, h)
  free_slots-Freed stamp ids (s ∷ ss) w h =
      let rest = free_slots env stamp ids ss in
      elim (Bool-cases (not (includes s.request.slot_id ids) || is_over s.state)) [
        | inl stays ↦
            rw (free_slots, stays)
              (cons_slot-Freed P (requests ss) s (rest w) (free_slots-Freed stamp ids ss w h))
        | inr goes ↦
            rw (free_slots, goes)
              (cons_slot-Freed P (requests ss) (with_state released s)
                (then_slots rest (free_slot env stamp s w))
                (then_slots-Freed P (requests ss) rest (free_slot env stamp s w)
                  (λ w' h'. free_slots-Freed stamp ids ss w' h')
                  (free_state-Both stamp s w s.state refl h)))
      ]

  store_slots-Both :
      (group_id : Text) (g : Group) (before : State) (o : Outcome (List Slot))
      → lookup group_id before.groups ≡ some g
      → P before
      → Freed P (requests g.slots) o
      → Both P (store_slots env group_id g o).1
  unfolding store_slots
  store_slots-Both group_id g before (err e, w) found p h = h
  store_slots-Both group_id g before (ok ss, w) found p (same, h) =
      let g' : Group = record g { slots = ss } in
      saved-Both P env (record w.state { groups = insert group_id g' w.state.groups }) w (λ w'. w')
        g' (λ w'. (refl, refl)) (stable.storing group_id g ss before w.state found same p h.0) h

  pub release_group_slots-Both :
      (stamp : Stamp) (group_id : Text) (ids : List Text) (w : World)
      → Both P w
      → Both P (release_group_slots env stamp group_id ids w).1
  unfolding release_group_slots
  release_group_slots-Both stamp group_id ids w h =
      elim (Option-cases (lookup group_id w.state.groups)) [
        | inl missing ↦ rw (release_group_slots, missing) h
        | inr (g, found) ↦ elim (Bool-cases (unique ids && has_slots ids g)) [
          | inr wrong ↦ rw (release_group_slots, found, wrong) h
          | inl there ↦
              rw (release_group_slots, found, there)
                (store_slots-Both group_id g w.state (free_slots env stamp ids g.slots w) found h.0
                  (free_slots-Freed stamp ids g.slots w h))
        ]
      ]
