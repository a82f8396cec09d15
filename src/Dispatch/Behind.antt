-- ===== src/Dispatch/Behind.antt =====
-- The gateway behind each step of a dispatch, src/governed-core/dispatch.ts.
use autopilot_beta.Prelude.{
  ◌≡◌, refl, ap, ◌∙◌, inl, inr, Bool, true, false, ◌&&◌, Option, none, some, Text, text_eq, ltb,
  if◌then◌else◌, is_some, not, Result, ok, err, Bool-cases,
}
use autopilot_beta.Gateway.Types.{
  GatewayError, refused, group_mismatch, group_slot_missing, group_slot_mismatch, group_missing,
  state_limit, write_failed, Request, Reservation, Settlement, normalize_request, max_state_bytes,
}
use autopilot_beta.Gateway.Store.{World, Outcome, record_event}
use autopilot_beta.Gateway.Reserve.{
  admit, new_reservation, with_reservation, place, existing_reservation, reserve,
}
use autopilot_beta.Gateway.Settle.{settle, release}
use autopilot_beta.Gateway.Charges.{reserve-fresh}
use autopilot_beta.Gateway.Saved.{saved-ok}
use autopilot_beta.Dispatch.Handoff.{
  Handoff, WorkerResult, done, Host, Options, Scene, Status, completed_status, failed_status,
  started_status, Decision,
}
use autopilot_beta.Dispatch.Gates.{live_hash, resolve_tier, pass_checks, to_worker_input}
use autopilot_beta.Dispatch.Run.{
  DispatchOutcome, refusal_code, dispatch_handoff, record_status, decision_of, append_decision,
  worker_succeeded, complete, with_worker, with_gateway, reservation_input, usage_of, after_settle,
  after_release, run_reserved, after_reserve, run_worker_of, gateway_of,
}

-- The request that a dispatch reserves tokens for, and its reservation.
abbrev pub request_of : Handoff → Request
request_of h = normalize_request (reservation_input (to_worker_input h))

abbrev pub made_by : Host → Handoff → Reservation
made_by host h = new_reservation host.reserving (request_of h)

record_status-gateway :
    (host : Host) (h : Handoff) (status : Status) (model : Option Text) (s : Scene)
    → (record_status host h status model s).gateway ≡ s.gateway
unfolding record_status
record_status-gateway host h status model s =
    elim (Bool-cases (h.has_efficiency && not host.telemetry_fails)) [
      | inl e ↦ rw e refl
      | inr e ↦ rw e refl
    ]

append_decision-gateway :
    (host : Host) (d : Decision) (s : Scene) → (append_decision host d s).gateway ≡ s.gateway
unfolding append_decision
append_decision-gateway host d s = elim (Bool-cases host.telemetry_fails) [
  | inl e ↦ rw e refl
  | inr e ↦ rw e refl
]

complete-gateway :
    (host : Host) (h : Handoff) (tier : Option Text) (r : WorkerResult) (s : Scene)
    → (complete host h tier r s).1.gateway ≡ s.gateway
unfolding complete
complete-gateway host h tier r s =
    let status = if worker_succeeded r then completed_status else failed_status in
    append_decision-gateway host (decision_of host h tier none)
      (record_status host h status r.model s)
    ∙ record_status-gateway host h status r.model s

if-gateway :
    (b : Bool) (x y : DispatchOutcome) (w : World)
    → x.1.gateway ≡ w
    → y.1.gateway ≡ w
    → (if b then x else y).1.gateway ≡ w
if-gateway true x y w h k = h
if-gateway false x y w h k = k

-- However a settlement ends, the gateway is what it leaves.
after_settle-gateway :
    (host : Host) (h : Handoff) (tier : Option Text) (r : WorkerResult) (s : Scene)
    (o : Outcome Settlement)
    → (after_settle host h tier r s o).1.gateway ≡ o.1
unfolding after_settle
after_settle-gateway host h tier r s (ok st, w) = complete-gateway host h tier r (with_gateway w s)
after_settle-gateway host h tier r s (err (refused reason), w) =
    if-gateway (is_some r.error_reason) (complete host h tier r (with_gateway w s))
      (
        ok (done (record r { error_reason = some (refusal_code reason) }) tier),
        record_status host h failed_status r.model (with_gateway w s),
      )
      w (complete-gateway host h tier r (with_gateway w s))
      (record_status-gateway host h failed_status r.model (with_gateway w s))
after_settle-gateway host h tier r s (err group_mismatch, w) =
    complete-gateway host h tier r (with_gateway w s)
after_settle-gateway host h tier r s (err group_slot_missing, w) =
    complete-gateway host h tier r (with_gateway w s)
after_settle-gateway host h tier r s (err group_slot_mismatch, w) =
    complete-gateway host h tier r (with_gateway w s)
after_settle-gateway host h tier r s (err group_missing, w) =
    complete-gateway host h tier r (with_gateway w s)
after_settle-gateway host h tier r s (err state_limit, w) =
    complete-gateway host h tier r (with_gateway w s)
after_settle-gateway host h tier r s (err (write_failed m), w) =
    complete-gateway host h tier r (with_gateway w s)

after_release-gateway :
    (e : Text) (s : Scene) (o : Outcome (Unit {0})) → (after_release e s o).1.gateway ≡ o.1
after_release-gateway e s (ok u, w) = refl
after_release-gateway e s (err g, w) = refl

-- A handoff that passes the gates, to a dispatch that reserves the tokens at the gateway that it is
-- given, which grants them and can save its state; and nothing else calls the gateway meanwhile.
abbrev pub IsReady : Host → Options → Handoff → Option Text → Scene → Type 0
IsReady host options h tier s =
    (text_eq (live_hash host h) h.packet_hash ≡ true)
    × (resolve_tier host h ≡ ok tier)
    × (pass_checks h ≡ ok tt)
    × (options.caller_reserves ≡ false)
    × (options.has_gateway ≡ true)
    × (existing_reservation s.gateway.state (request_of h) ≡ none)
    × (admit host.env.limits s.gateway.state (request_of h) ≡ ok tt)
    × (ltb max_state_bytes (host.env.json_bytes (with_reservation (made_by host h) s.gateway.state))
        ≡ false)
    × (host.env.write_failure (with_reservation (made_by host h) s.gateway.state) ≡ none)
    × ((w : World) → host.meanwhile w ≡ w)

placed :
    (host : Host) (h : Handoff) (s : Scene)
    → ltb max_state_bytes (host.env.json_bytes (with_reservation (made_by host h) s.gateway.state))
      ≡ false
    → host.env.write_failure (with_reservation (made_by host h) s.gateway.state) ≡ none
    → (place host.env host.reserving (request_of h) s.gateway).0 ≡ ok (made_by host h)
unfolding place
placed host h s small writes =
    saved-ok host.env (with_reservation (made_by host h) s.gateway.state) s.gateway
      (record_event host.env _) (made_by host h) small writes

-- The gateway behind the reservation.
abbrev pub reserved_gateway : Host → Handoff → Scene → World
reserved_gateway host h s =
    (reserve host.env host.reserving (reservation_input (to_worker_input h)) s.gateway).1

pub dispatched :
    (host : Host) (options : Options) (h : Handoff) (tier : Option Text) (s : Scene)
    → IsReady host options h tier s
    → dispatch_handoff host options h s
      ≡ run_reserved host h tier (made_by host h) (with_gateway (reserved_gateway host h s) s)
unfolding dispatch_handoff run_worker_of gateway_of after_reserve
dispatched host options h tier s
      (hash, resolved, checks, own, given, fresh, fits, small, writes, quiet) =
    let input = reservation_input (to_worker_input h) in
    let made = made_by host h in
    let o = reserve host.env host.reserving input s.gateway in
    let granted : o.0 ≡ ok made =
      ap (λ (p : Outcome Reservation). p.0)
        (reserve-fresh host.env host.reserving input s.gateway fresh fits)
      ∙ placed host h s small writes in
    let whole : o ≡ (ok made, o.1) =
      ap (λ (r : Result GatewayError Reservation). (r, o.1)) granted in
    let run : dispatch_handoff host options h s ≡ after_reserve host h tier s o =
      rw (dispatch_handoff, hash, resolved, checks, run_worker_of, own, gateway_of, given) refl in
    run ∙ ap (after_reserve host h tier s) whole

-- The gateway while the worker runs.
abbrev pub running_gateway : Host → Handoff → Scene → World
running_gateway host h s =
    host.meanwhile (record_status host h started_status (to_worker_input h).model s).gateway

pub running :
    (host : Host) (h : Handoff) (s : Scene)
    → ((w : World) → host.meanwhile w ≡ w)
    → running_gateway host h s ≡ s.gateway
running host h s quiet =
    quiet (record_status host h started_status (to_worker_input h).model s).gateway
    ∙ record_status-gateway host h started_status (to_worker_input h).model s

pub run_reserved-settled :
    (host : Host) (h : Handoff) (tier : Option Text) (made : Reservation) (s : Scene)
    (r : WorkerResult)
    → host.run_worker (to_worker_input h) ≡ ok r
    → (run_reserved host h tier made s).1.gateway
      ≡ (settle host.env host.ending made
          (usage_of (to_worker_input h) r)
          (running_gateway host h s)).1
unfolding run_reserved
run_reserved-settled host h tier made s r came =
    let input = to_worker_input h in
    let started = with_worker input (record_status host h started_status input.model s) in
    rw (run_reserved, came)
      (after_settle-gateway host h tier r started
        (settle host.env host.ending made (usage_of input r) (running_gateway host h s)))

pub run_reserved-released :
    (host : Host) (h : Handoff) (tier : Option Text) (made : Reservation) (s : Scene) (e : Text)
    → host.run_worker (to_worker_input h) ≡ err e
    → (run_reserved host h tier made s).1.gateway
      ≡ (release host.env host.ending made (running_gateway host h s)).1
unfolding run_reserved
run_reserved-released host h tier made s e failed =
    let input = to_worker_input h in
    let started = with_worker input (record_status host h started_status input.model s) in
    rw (run_reserved, failed)
      (after_release-gateway e (record_status host h failed_status input.model started)
        (release host.env host.ending made (running_gateway host h s)))
