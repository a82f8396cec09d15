-- ===== src/Dispatch/Gates.antt =====
-- What a handoff must pass before a worker is started, src/governed-core/dispatch.ts.
use autopilot_beta.Prelude.{
  List, [], ◌∷◌, ◌==◌, Bool, true, false, not, ◌&&◌, ◌||◌, Option, none, some, Text, codes, text_eq,
  is_blank, length, ltb, if◌then◌else◌, Result, ok, ◌>>◌, guard,
}
use autopilot_beta.Dispatch.Modes.{
  Mode, idea, spec, build, review, RoutingLane, has_lane, expensive_lanes, is_prep_satisfied,
  is_lane_allowed, Vendor, agy_cli, codex_cli, claude_cli, openrouter_api, agy_fast_default,
  resolve_routing_lane,
}
use autopilot_beta.Dispatch.Handoff.{
  DispatchRefusal, routing_no_viable_provider, missing_required_checks, lane_not_allowed_in_mode,
  missing_upstream_draft, Handoff, WorkerInput, Packet, Host,
}

-- `left < right` of two strings
abbrev pub text_less : Text → Text → Bool
text_less [] [] = false
text_less [] (d ∷ t) = true
text_less (c ∷ s) [] = false
text_less (c ∷ s) (d ∷ t) = ltb c d || (c == d && text_less s t)

abbrev pub insert_text : Text → List Text → List Text
insert_text a [] = a ∷ []
insert_text a (b ∷ bs) = if text_less b a then b ∷ insert_text a bs else a ∷ b ∷ bs

-- `sorted`
unfoldable pub sorted : List Text → List Text
sorted [] = []
sorted (a ∷ as') = insert_text a (sorted as')

-- `computePacketHash`
unfoldable pub compute_packet_hash : Host → Packet → Option Mode → Text
unfolding sorted
compute_packet_hash host p mode = host.sha256 (
    host.json
      (record {
        relevant_nodes = sorted p.relevant_nodes;
        rules = sorted p.rules;
        required_checks = sorted p.required_checks;
        stop_conditions = sorted p.stop_conditions;
        must_not_assume = sorted p.must_not_assume;
      })
      mode)

abbrev pub live_hash : Host → Handoff → Text
live_hash host h = compute_packet_hash host (host.live_packet h) h.routing_mode

-- `resolveHandoffLane`
abbrev pub resolve_handoff_lane : Handoff → Option RoutingLane
resolve_handoff_lane h = resolve_routing_lane h.vendor h.openrouter_mode h.model

-- `hasViableAssignedProvider`
abbrev pub is_viable : Text → Bool
is_viable p = ltb 0 (length p) && not (text_eq p (codes "none"))

-- `resolveTierId`, with an error for `undefined`
unfoldable pub resolve_tier : Host → Handoff → Result DispatchRefusal (Option Text)
resolve_tier host h =
    if h.has_routing
    then guard (is_viable (host.assigned h).0) routing_no_viable_provider >> ok (host.assigned h).1
    else ok none

-- `hasNonEmptyString`
unfoldable pub has_non_empty : Option Text → Bool
unfolding is_blank
has_non_empty none = false
has_non_empty (some t) = not (is_blank t)

-- The lane of a handoff that names a mode must be allowed in it.
abbrev pub lane_allowed : Option RoutingLane → Mode → Bool
lane_allowed none m = false
lane_allowed (some l) m = is_lane_allowed m l

unfoldable pub passes_lane : Handoff → Bool
passes_lane h = elim h.routing_mode [
  | none ↦ true
  | some m ↦ lane_allowed (resolve_handoff_lane h) m
]

abbrev pub is_build : Mode → Bool
is_build build = true
is_build idea = false
is_build spec = false
is_build review = false

abbrev pub is_expensive : Option RoutingLane → Bool
is_expensive none = false
is_expensive (some l) = has_lane expensive_lanes l

-- Whether an expensive lane builds.
unfoldable pub needs_draft : Handoff → Bool
needs_draft h = elim h.routing_mode [
  | none ↦ false
  | some m ↦ is_build m && is_expensive (resolve_handoff_lane h)
]

unfoldable pub has_draft : Handoff → Bool
unfolding has_non_empty is_prep_satisfied
has_draft h =
    has_non_empty h.task_packet_ref
    && has_non_empty h.task_package_hash
    && is_prep_satisfied h.prep_provenance

-- The gates behind the routing decision, in their order.
unfoldable pub pass_checks : Handoff → Result DispatchRefusal (Unit {0})
unfolding passes_lane needs_draft has_draft
pass_checks h = do
  guard (ltb 0 (length h.required_checks)) missing_required_checks
  guard (passes_lane h) lane_not_allowed_in_mode
  guard (not (needs_draft h) || has_draft h) missing_upstream_draft

-- `toCliWorkerInput`: an `agy` handoff without a model gets the default one.
abbrev pub worker_model : Vendor → Option Text → Option Text
worker_model agy_cli none = some agy_fast_default
worker_model agy_cli (some m) = some m
worker_model codex_cli m = m
worker_model claude_cli m = m
worker_model openrouter_api m = m

unfoldable pub to_worker_input : Handoff → WorkerInput
to_worker_input h = record {
  handoff_id = h.handoff_id;
  session_id = h.session_id;
  vendor = h.vendor;
  prompt = h.prompt;
  model = worker_model h.vendor h.model;
}
