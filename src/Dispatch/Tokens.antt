-- ===== src/Dispatch/Tokens.antt =====
-- What a dispatch costs, src/governed-core/dispatch.ts with its token gateway.
use autopilot_beta.Prelude.{
  ◌+◌, ◌≤◌, ◌<◌, ◌≡◌, refl, ap, ◌∙◌, inl, inr, Option, none, some, Text, text_eq_refl, includes,
  if◌then◌else◌, ok, err, Result-cases, arith,
}
use autopilot_beta.Dict.{lookup}
use autopilot_beta.Gateway.Types.{
  Usage, Reservation, State, normalize_request, safe_count, estimate_token_count, route_usage_keys,
}
use autopilot_beta.Gateway.Store.{Env, Stamp, World, used_of}
use autopilot_beta.Gateway.Reserve.{with_reservation}
use autopilot_beta.Gateway.Settle.{settlement_of, admit_settlement, settle, release}
use autopilot_beta.Gateway.Charges.{reserve-state}
use autopilot_beta.Gateway.Charged.{reserve-release, reserve-settle, made-found}
use autopilot_beta.Gateway.Ended.{admit_settlement-within}
use autopilot_beta.Dispatch.Handoff.{Handoff, WorkerResult, Host, Options, Scene}
use autopilot_beta.Dispatch.Gates.{to_worker_input}
use autopilot_beta.Dispatch.Run.{
  packet_token_budget, DispatchOutcome, dispatch_handoff, with_gateway, reservation_input, usage_of,
}
use autopilot_beta.Dispatch.Behind.{
  request_of, made_by, IsReady, reserved_gateway, dispatched, running, run_reserved-settled,
  run_reserved-released,
}

dispatched-settled :
    (host : Host) (options : Options) (h : Handoff) (tier : Option Text) (s : Scene)
    (r : WorkerResult)
    → IsReady host options h tier s
    → host.run_worker (to_worker_input h) ≡ ok r
    → (dispatch_handoff host options h s).1.gateway
      ≡ (settle host.env host.ending
          (made_by host h)
          (usage_of (to_worker_input h) r)
          (reserved_gateway host h s)).1
dispatched-settled host options h tier s r ready came =
    let (hash, resolved, checks, own, given, fresh, fits, small, writes, quiet) = ready in
    let w1 = reserved_gateway host h s in
    ap (λ (o : DispatchOutcome). o.1.gateway) (dispatched host options h tier s ready)
    ∙ run_reserved-settled host h tier (made_by host h) (with_gateway w1 s) r came
    ∙ ap
        (λ (w : World).
          (settle host.env host.ending (made_by host h) (usage_of (to_worker_input h) r) w).1)
        (running host h (with_gateway w1 s) quiet)

-- A handoff that passes the gates, to a dispatch that reserves at the gateway that it is given, which
-- grants the tokens, can save its state and is called by nobody else meanwhile, and whose worker comes
-- back with an output of at most 8000 estimated tokens: each key of its route is charged the estimated
-- tokens of the prompt and the output, no other key changes, and the reservation is gone.
pub dispatch_handoff-settled :
    (host : Host) (options : Options) (h : Handoff) (tier : Option Text) (s : Scene)
    (r : WorkerResult)
    → IsReady host options h tier s
    → host.run_worker (to_worker_input h) ≡ ok r
    → estimate_token_count r.raw_output ≤ packet_token_budget
    → let used =
        estimate_token_count (to_worker_input h).prompt + estimate_token_count r.raw_output in
      let w = (dispatch_handoff host options h s).1.gateway in
      ((k : Text)
        → used_of w.state.used k ≡ (
            if includes k (route_usage_keys (request_of h).route)
            then used_of s.gateway.state.used k + used
            else used_of s.gateway.state.used k))
      × (lookup host.reserving.id w.state.reservations ≡ none)
unfolding usage_of reservation_input normalize_request safe_count
dispatch_handoff-settled host options h tier s r ready came short =
    let (hash, resolved, checks, own, given, fresh, fits, small, writes, quiet) = ready in
    let input = to_worker_input h in
    let w1 = reserved_gateway host h s in
    let end : (dispatch_handoff host options h s).1.gateway
        ≡ (settle host.env host.ending (made_by host h) (usage_of input r) w1).1 =
      dispatched-settled host options h tier s r ready came in
    let (charged, left, groups, terminal) =
      reserve-settle host.env host.reserving host.ending (reservation_input input)
        (usage_of input r) s.gateway fresh fits (omega arith) short in
    (
      λ k. ap (λ (w : World). used_of w.state.used k) end ∙ charged k,
      ap (λ (w : World). lookup host.reserving.id w.state.reservations) end
          ∙ left host.reserving.id
          ∙ rw (text_eq_refl host.reserving.id) refl,
    )

-- A handoff that passes the gates, to a dispatch that reserves at the gateway that it is given, which
-- grants the tokens, can save its state and is called by nobody else meanwhile, and whose worker throws:
-- every usage is what it was, and the reservation is gone.
pub dispatch_handoff-released :
    (host : Host) (options : Options) (h : Handoff) (tier : Option Text) (s : Scene) (e : Text)
    → IsReady host options h tier s
    → host.run_worker (to_worker_input h) ≡ err e
    → let w = (dispatch_handoff host options h s).1.gateway in
      ((k : Text) → used_of w.state.used k ≡ used_of s.gateway.state.used k)
      × (lookup host.reserving.id w.state.reservations ≡ none)
dispatch_handoff-released host options h tier s e ready failed =
    let (hash, resolved, checks, own, given, fresh, fits, small, writes, quiet) = ready in
    let w1 = reserved_gateway host h s in
    let end : (dispatch_handoff host options h s).1.gateway
        ≡ (release host.env host.ending (made_by host h) w1).1 =
      ap (λ (o : DispatchOutcome). o.1.gateway) (dispatched host options h tier s ready)
      ∙ run_reserved-released host h tier (made_by host h) (with_gateway w1 s) e failed
      ∙ ap (λ (w : World). (release host.env host.ending (made_by host h) w).1)
          (running host h (with_gateway w1 s) quiet) in
    let (restored, gone) =
      reserve-release host.env host.reserving host.ending (reservation_input (to_worker_input h))
        s.gateway fresh fits in
    (
      λ k. ap (λ (w : World). used_of w.state.used k) end ∙ restored k,
      ap (λ (w : World). lookup host.reserving.id w.state.reservations) end ∙ gone,
    )

-- A settlement of more than was reserved changes nothing.
over-settle :
    (env : Env) (later : Stamp) (made : Reservation) (usage : Usage) (w : World)
    → lookup made.reservation_id w.state.reservations ≡ some made
    → made.total_tokens < (settlement_of usage).input_tokens + (settlement_of usage).output_tokens
    → (settle env later made usage w).1 ≡ w
unfolding settle
over-settle env later made usage w found over =
    let st = settlement_of usage in
    elim (Result-cases (admit_settlement env.limits w.state.used made made st)) [
      | inr (reason, e) ↦ rw (settle, found, e) refl
      | inl (u, e) ↦
          let (small, _) = admit_settlement-within env.limits w.state.used made made st e in
          absurd (omega (arith, small, over))
    ]

-- A handoff that passes the gates, to a dispatch that reserves at the gateway that it is given, which
-- grants the tokens, can save its state and is called by nobody else meanwhile, and whose worker comes
-- back with an output of more than 8000 estimated tokens: the reservation stays in flight, and the state
-- of the gateway is the one behind the reservation.
pub dispatch_handoff-stranded :
    (host : Host) (options : Options) (h : Handoff) (tier : Option Text) (s : Scene)
    (r : WorkerResult)
    → IsReady host options h tier s
    → host.run_worker (to_worker_input h) ≡ ok r
    → packet_token_budget < estimate_token_count r.raw_output
    → let w = (dispatch_handoff host options h s).1.gateway in
      (w.state ≡ with_reservation (made_by host h) s.gateway.state)
      × (lookup host.reserving.id w.state.reservations ≡ some (made_by host h))
unfolding usage_of reservation_input normalize_request safe_count
dispatch_handoff-stranded host options h tier s r ready came long =
    let (hash, resolved, checks, own, given, fresh, fits, small, writes, quiet) = ready in
    let input = to_worker_input h in
    let made = made_by host h in
    let w1 = reserved_gateway host h s in
    let held : w1.state ≡ with_reservation made s.gateway.state =
      reserve-state host.env host.reserving (reservation_input input) s.gateway fresh fits in
    let found : lookup host.reserving.id w1.state.reservations ≡ some made =
      ap (λ (st : State). lookup host.reserving.id st.reservations) held
      ∙ made-found made s.gateway.state in
    let end : (dispatch_handoff host options h s).1.gateway ≡ w1 =
      dispatched-settled host options h tier s r ready came
      ∙ over-settle host.env host.ending made (usage_of input r) w1 found (omega (arith, long)) in
    (
      ap (λ (w : World). w.state) end ∙ held,
      ap (λ (w : World). lookup host.reserving.id w.state.reservations) end ∙ found,
    )
