-- ===== src/Dispatch/Governed.antt =====
-- No worker is started past the gates of src/governed-core/dispatch.ts.
use autopilot_beta.Prelude.{
  ◌≡◌, refl, ◌∙◌, inl, inr, ◌⊎◌, Bool, true, false, not, ◌&&◌, Option, none, some, Text, text_eq,
  Bool-cases, Option-cases, Result-cases, ok, err,
}
use autopilot_beta.Gateway.Types.{
  refused, state_limit, write_failed, group_mismatch, group_slot_missing, group_slot_mismatch,
  group_missing, Reservation,
}
use autopilot_beta.Gateway.Store.{Outcome, World}
use autopilot_beta.Gateway.Reserve.{reserve}
use autopilot_beta.Dispatch.Handoff.{
  DispatchRefusal, packet_provenance_mismatch, token_budget_exhausted, Handoff, Host, Options,
  Scene, Status, refused_status, Decision,
}
use autopilot_beta.Dispatch.Gates.{live_hash, resolve_tier, pass_checks, to_worker_input}
use autopilot_beta.Dispatch.Run.{
  record_status, decision_of, append_decision, refuse_dispatch, reservation_input, after_reserve,
  gateway_of, run_worker_of, dispatch_handoff,
}
use autopilot_beta.Dispatch.Required.{IsGoverned, pass_checks-IsGoverned}

record_status-workers :
    (host : Host) (h : Handoff) (status : Status) (model : Option Text) (s : Scene)
    → (record_status host h status model s).workers ≡ s.workers
unfolding record_status
record_status-workers host h status model s =
    elim (Bool-cases (h.has_efficiency && not host.telemetry_fails)) [
      | inl e ↦ rw e refl
      | inr e ↦ rw e refl
    ]

append_decision-workers :
    (host : Host) (d : Decision) (s : Scene) → (append_decision host d s).workers ≡ s.workers
unfolding append_decision
append_decision-workers host d s = elim (Bool-cases host.telemetry_fails) [
  | inl e ↦ rw e refl
  | inr e ↦ rw e refl
]

refuse_dispatch-workers :
    (host : Host) (h : Handoff) (reason : DispatchRefusal) (tier : Option Text) (verified : Bool)
    (s : Scene)
    → (refuse_dispatch host h reason tier verified s).1.workers ≡ s.workers
unfolding refuse_dispatch
refuse_dispatch-workers host h reason tier verified s =
    let told = record_status host h refused_status h.model s in
    append_decision-workers host (decision_of host h tier (some reason)) told
    ∙ record_status-workers host h refused_status h.model s

-- Who has reserved the tokens of a worker that is started: the caller, or this dispatch.
abbrev pub IsReserved : Host → Options → Handoff → Scene → Type 0
IsReserved host options h s =
    (options.caller_reserves ≡ true)
    ⊎ ((w : World) × (made : Reservation) × (gateway_of host options s ≡ some w)
        × ((reserve host.env host.reserving (reservation_input (to_worker_input h)) w).0 ≡ ok made))

after_reserve-refused :
    (host : Host) (h : Handoff) (tier : Option Text) (s : Scene) (o : Outcome Reservation)
    → ((after_reserve host h tier s o).1.workers ≡ s.workers)
      ⊎ ((made : Reservation) × (o.0 ≡ ok made))
unfolding after_reserve
after_reserve-refused host h tier s (ok made, w) = inr (made, refl)
after_reserve-refused host h tier s (err (refused reason), w) =
    inl (refuse_dispatch-workers host h token_budget_exhausted tier true (record s { gateway = w }))
after_reserve-refused host h tier s (err group_mismatch, w) = inl refl
after_reserve-refused host h tier s (err group_slot_missing, w) = inl refl
after_reserve-refused host h tier s (err group_slot_mismatch, w) = inl refl
after_reserve-refused host h tier s (err group_missing, w) = inl refl
after_reserve-refused host h tier s (err state_limit, w) = inl refl
after_reserve-refused host h tier s (err (write_failed m), w) = inl refl

run_worker_of-IsReserved :
    (host : Host) (options : Options) (h : Handoff) (tier : Option Text) (s : Scene)
    → ((run_worker_of host options h tier s).1.workers ≡ s.workers) ⊎ IsReserved host options h s
unfolding run_worker_of
run_worker_of-IsReserved host options h tier s = elim (Bool-cases options.caller_reserves) [
  | inl caller ↦ inr (inl caller)
  | inr own ↦ elim (Option-cases (gateway_of host options s)) [
    | inl invalid ↦ rw (run_worker_of, own, invalid) (inl refl)
    | inr (w, e) ↦
        let o = reserve host.env host.reserving (reservation_input (to_worker_input h)) w in
        elim (after_reserve-refused host h tier s o) [
          | inl same ↦ rw (run_worker_of, own, e) (inl same)
          | inr (made, f) ↦ inr (inr (w, made, e, f))
        ]
  ]
]

-- A dispatch starts no worker, or all of this holds: the handoff's hash is that of the live packet, a
-- handoff with a routing context is assigned a provider that is neither empty nor "none", it has
-- required checks, a handoff that names a mode has a lane that the mode allows, it is expensive only in a mode that allows
-- expensive lanes, an expensive lane that builds has the upstream draft (a packet, its hash and the
-- preparation), and the tokens are reserved, by the caller or by a gateway that has granted them.
pub dispatch_handoff-IsGoverned :
    (host : Host) (options : Options) (h : Handoff) (s : Scene)
    → ((dispatch_handoff host options h s).1.workers ≡ s.workers)
      ⊎ (IsGoverned host h × IsReserved host options h s)
unfolding dispatch_handoff
dispatch_handoff-IsGoverned host options h s =
    elim (Bool-cases (text_eq (live_hash host h) h.packet_hash)) [
      | inr stale ↦
          rw (dispatch_handoff, stale)
            (inl (refuse_dispatch-workers host h packet_provenance_mismatch none false s))
      | inl same ↦ elim (Result-cases (resolve_tier host h)) [
        | inr (reason, e) ↦
            rw (dispatch_handoff, same, e) (inl (refuse_dispatch-workers host h reason none true s))
        | inl (tier, e) ↦ elim (Result-cases (pass_checks h)) [
          | inr (reason, f) ↦
              rw (dispatch_handoff, same, e, f)
                (inl (refuse_dispatch-workers host h reason tier true s))
          | inl (u, f) ↦ elim (run_worker_of-IsReserved host options h tier s) [
            | inl unchanged ↦ rw (dispatch_handoff, same, e, f) (inl unchanged)
            | inr granted ↦ inr (pass_checks-IsGoverned host h tier same e f, granted)
          ]
        ]
      ]
    ]
