-- ===== src/Gateway/Charged.antt =====
-- A reservation and its end, src/data/delivery-system/tokenGateway.ts.
use autopilot_beta.Prelude.{
  ◌+◌, ◌≤◌, ◌≡◌, refl, ap, ◌∙◌, inl, inr, true, none, some, Text, text_eq, text_eq_refl, includes,
  if◌then◌else◌, arith, Bool-cases, leb, le→leb, leb→le, ok, then-ok, length,
}
use autopilot_beta.Dict.{lookup, insert, lookup-insert, lookup-erase}
use autopilot_beta.Gateway.Types.{
  reservation_limit, input_cap_exceeded, output_cap_exceeded, Limits, Input, Request, Reservation,
  settled, released, State, Usage, Settlement, was_settled, was_released, normalize_request,
  max_usage_keys, provider_key, model_key, session_key, route_usage_keys,
}
use autopilot_beta.Gateway.Store.{
  Env, Stamp, World, used_of, raise_usage, route_eq, record_event, prune_terminal,
  update_group_slot,
}
use autopilot_beta.Gateway.Reserve.{
  has_room, new_usage_keys, admit, new_reservation, with_reservation, existing_reservation, reserve,
}
use autopilot_beta.Gateway.Settle.{
  without_reservation, admit_settlement, settlement_of, conclude, settle, nothing_used, give_back,
  release,
}
use autopilot_beta.Gateway.Within.{Updates-route}
use autopilot_beta.Gateway.Saved.{record_event-Keeps, saved-state}
use autopilot_beta.Gateway.Kept.{admit-within, within_budgets-le}
use autopilot_beta.Gateway.Charges.{reserve-state, route_eq_refl, swapped}

release-state :
    (env : Env) (stamp : Stamp) (given active : Reservation) (w : World)
    → lookup given.reservation_id w.state.reservations ≡ some active
    → route_eq active.request.route given.request.route ≡ true
    → (release env stamp given w).1.state
      ≡ without_reservation env stamp given.reservation_id active released was_released nothing_used
          w.state
unfolding release give_back
release-state env stamp given active w found same =
    let id = given.reservation_id in
    let s = without_reservation env stamp id active released was_released nothing_used w.state in
    rw (release, found, same)
      (saved-state env s w (record_event env _) tt (record_event-Keeps env _))

settle-state :
    (env : Env) (stamp : Stamp) (given active : Reservation) (usage : Usage) (w : World)
    → lookup given.reservation_id w.state.reservations ≡ some active
    → admit_settlement env.limits w.state.used active given (settlement_of usage) ≡ ok tt
    → (settle env stamp given usage w).1.state
      ≡ without_reservation env stamp given.reservation_id active settled was_settled
          (settlement_of usage)
          w.state
unfolding settle conclude
settle-state env stamp given active usage w found fits =
    let id = given.reservation_id in
    let s =
      without_reservation env stamp id active settled was_settled (settlement_of usage) w.state in
    rw (settle, found, fits)
      (saved-state env s w (record_event env _) (settlement_of usage) (record_event-Keeps env _))

pub made-found :
    (made : Reservation) (s : State)
    → lookup made.reservation_id (with_reservation made s).reservations ≡ some made
unfolding with_reservation
made-found made s =
    lookup-insert made.reservation_id made.reservation_id made s.reservations
    ∙ rw (text_eq_refl made.reservation_id) refl

admit-caps :
    (limits : Limits) (s : State) (r : Request)
    → admit limits s r ≡ ok tt
    → (r.input_tokens ≤ limits.input_cap) × (r.output_tokens ≤ limits.output_cap)
unfolding admit
admit-caps limits s r h =
    let room =
      leb (length s.used + new_usage_keys s.used (route_usage_keys r.route)) max_usage_keys in
    let (_, a) = then-ok (has_room s) reservation_limit h in
    let (_, b) = then-ok room reservation_limit a in
    let (i, c) = then-ok (leb r.input_tokens limits.input_cap) input_cap_exceeded b in
    let (o, d) = then-ok (leb r.output_tokens limits.output_cap) output_cap_exceeded c in
    (leb→le r.input_tokens limits.input_cap i, leb→le r.output_tokens limits.output_cap o)

-- A settlement of no more than what was just reserved passes every test.
settles_made :
    (limits : Limits) (stamp : Stamp) (r : Request) (st : Settlement) (s : State)
    → admit limits s r ≡ ok tt
    → st.input_tokens ≤ r.input_tokens
    → st.output_tokens ≤ r.output_tokens
    → let made = new_reservation stamp r in
      admit_settlement limits (with_reservation made s).used made made st ≡ ok tt
unfolding admit_settlement with_reservation
settles_made limits stamp r st s h small_in small_out =
    let total = r.input_tokens + r.output_tokens in
    let n = st.input_tokens + st.output_tokens in
    let (i, o) = admit-caps limits s r h in
    let (p, m, z) = within_budgets-le limits s.used r (admit-within limits s r h) in
    let (a, b, c) = Updates-route (λ u. u + total) r.route s.used in
    let used' = raise_usage total (route_usage_keys r.route) s.used in
    let p' : leb (used_of used' (provider_key r.route) + n) (limits.provider_budget + total)
        ≡ true =
      le→leb (used_of used' (provider_key r.route) + n) (limits.provider_budget + total)
        (omega (arith, a, p)) in
    let m' : leb (used_of used' (model_key r.route) + n) (limits.model_budget + total) ≡ true =
      le→leb (used_of used' (model_key r.route) + n) (limits.model_budget + total)
        (omega (arith, b, m)) in
    let z' : leb (used_of used' (session_key r.route) + n) (limits.session_budget + total) ≡ true =
      le→leb (used_of used' (session_key r.route) + n) (limits.session_budget + total)
        (omega (arith, c, z)) in
    rw
      (
        route_eq_refl r.route,
        le→leb st.input_tokens limits.input_cap (omega arith),
        le→leb st.output_tokens limits.output_cap (omega arith),
        le→leb n total (omega arith),
        p',
        m',
        z',
      )
      refl

-- A request that names no reservation in flight and passes the tests, reserved and then released: the
-- usage of every key is what it was, and the reservation is gone, whether or not the state could be
-- saved.
pub reserve-release :
    (env : Env) (stamp later : Stamp) (input : Input) (w : World)
    → existing_reservation w.state (normalize_request input) ≡ none
    → admit env.limits w.state (normalize_request input) ≡ ok tt
    → let made = new_reservation stamp (normalize_request input) in
      let w' = (release env later made (reserve env stamp input w).1).1 in
      ((k : Text) → used_of w'.state.used k ≡ used_of w.state.used k)
      × (lookup stamp.id w'.state.reservations ≡ none)
unfolding with_reservation without_reservation
reserve-release env stamp later input w fresh fits =
    let r = normalize_request input in
    let made = new_reservation stamp r in
    let w1 = (reserve env stamp input w).1 in
    let after = reserve-state env stamp input w fresh fits in
    let found : lookup stamp.id w1.state.reservations ≡ some made =
      ap (λ (s : State). lookup stamp.id s.reservations) after ∙ made-found made w.state in
    let end : (release env later made w1).1.state
        ≡ without_reservation env later stamp.id made released was_released nothing_used
            (with_reservation made w.state) =
      release-state env later made made w1 found (route_eq_refl r.route)
      ∙ ap (without_reservation env later stamp.id made released was_released nothing_used) after in
    (
      λ k.
          ap (λ (s : State). used_of s.used k) end
          ∙ swapped r.route (r.input_tokens + r.output_tokens) 0 w.state.used k
          ∙ elim (Bool-cases (includes k (route_usage_keys r.route))) [
            | inl e ↦ rw e (omega arith)
            | inr e ↦ rw e refl
          ],
      ap (λ (s : State). lookup stamp.id s.reservations) end
          ∙ lookup-erase stamp.id stamp.id (with_reservation made w.state).reservations
          ∙ rw (text_eq_refl stamp.id) refl,
    )

-- A request that names no reservation in flight and passes the tests, reserved and then settled for no
-- more input and output than it asked for: each of its three keys is charged what was used and no other
-- key changes, the reservation is gone and every other one is as it was, the groups are as they were,
-- and the settlement stands among the terminal records as they are pruned.
pub reserve-settle :
    (env : Env) (stamp later : Stamp) (input : Input) (usage : Usage) (w : World)
    → existing_reservation w.state (normalize_request input) ≡ none
    → admit env.limits w.state (normalize_request input) ≡ ok tt
    → (settlement_of usage).input_tokens ≤ (normalize_request input).input_tokens
    → (settlement_of usage).output_tokens ≤ (normalize_request input).output_tokens
    → let made = new_reservation stamp (normalize_request input) in
      let used = (settlement_of usage).input_tokens + (settlement_of usage).output_tokens in
      let w' = (settle env later made usage (reserve env stamp input w).1).1 in
      ((k : Text)
        → used_of w'.state.used k ≡ (
            if includes k (route_usage_keys (normalize_request input).route)
            then used_of w.state.used k + used
            else used_of w.state.used k))
      × ((id : Text)
          → lookup id w'.state.reservations
            ≡ (if text_eq stamp.id id then none else lookup id w.state.reservations))
      × (w'.state.groups ≡ w.state.groups)
      × (w'.state.terminal
          ≡ prune_terminal env (
              insert stamp.id
                (record {
                  event = was_settled;
                  settlement = settlement_of usage;
                  completed_at = later.now;
                })
                w.state.terminal))
unfolding with_reservation without_reservation update_group_slot
reserve-settle env stamp later input usage w fresh fits small_in small_out =
    let r = normalize_request input in
    let st = settlement_of usage in
    let made = new_reservation stamp r in
    let w1 = (reserve env stamp input w).1 in
    let after = reserve-state env stamp input w fresh fits in
    let found : lookup stamp.id w1.state.reservations ≡ some made =
      ap (λ (s : State). lookup stamp.id s.reservations) after ∙ made-found made w.state in
    let passes : admit_settlement env.limits w1.state.used made made st ≡ ok tt =
      ap (λ (s : State). admit_settlement env.limits s.used made made st) after
      ∙ settles_made env.limits stamp r st w.state fits small_in small_out in
    let end : (settle env later made usage w1).1.state
        ≡ without_reservation env later stamp.id made settled was_settled st
            (with_reservation made w.state) =
      settle-state env later made made usage w1 found passes
      ∙ ap (without_reservation env later stamp.id made settled was_settled st) after in
    (
      λ k.
          ap (λ (s : State). used_of s.used k) end
          ∙ swapped r.route (r.input_tokens + r.output_tokens) (st.input_tokens + st.output_tokens)
              w.state.used k,
      λ id.
          ap (λ (s : State). lookup id s.reservations) end
          ∙ lookup-erase id stamp.id (with_reservation made w.state).reservations
          ∙ elim (Bool-cases (text_eq stamp.id id)) [
            | inl own ↦ rw own refl
            | inr other ↦
                rw other (lookup-insert id stamp.id made w.state.reservations ∙ rw other refl)
          ],
      ap (λ (s : State). s.groups) end,
      ap (λ (s : State). s.terminal) end,
    )
