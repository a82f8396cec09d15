-- ===== src/Supervision/Repair.antt =====
-- What the lanes of a task bring with them, src/data/delivery-system/protectiveSupervision.ts.
use autopilot_beta.Prelude.{
  ◌≡◌, refl, Bool, true, false, not, ◌||◌, List, Text, codes, any, includes, text_eq, dedup_from,
  arith,
}
use autopilot_beta.Supervision.Policy.{
  Lane, currentness_sentinel, handoff_compiler, progress_ledger, blocker_review,
  failure_repair_supervision,
}
use autopilot_beta.Supervision.Route.{
  normalize, has_any, lane_eq, unique_lanes, currentness_terms, handoff_terms, progress_terms,
  blocker_terms, repair_terms, lanes_of, select_lanes, select_protective_supervision_route,
}

abbrev pub has_lane : Lane → List Lane → Bool
has_lane lane = any (lane_eq lane)

lanes_of-lanes :
    (c h p b r : Bool)
    → (has_lane currentness_sentinel (lanes_of c h p b r) ≡ c)
      × (has_lane handoff_compiler (lanes_of c h p b r) ≡ h)
      × (has_lane progress_ledger (lanes_of c h p b r) ≡ p || not (c || h || p || b || r))
      × (has_lane blocker_review (lanes_of c h p b r) ≡ b)
      × (has_lane failure_repair_supervision (lanes_of c h p b r) ≡ r)
unfolding lanes_of unique_lanes
lanes_of-lanes c h p b r = ground arith

-- A task goes to exactly the lanes whose terms it has, and to the progress ledger also where it has no
-- term of any lane.
pub select_lanes_lem :
    (task : Text)
    → (has_lane currentness_sentinel (select_lanes task) ≡ has_any task currentness_terms)
      × (has_lane handoff_compiler (select_lanes task) ≡ has_any task handoff_terms)
      × (has_lane progress_ledger (select_lanes task)
          ≡ has_any task progress_terms
            || not (
                has_any task currentness_terms
                || has_any task handoff_terms
                || has_any task progress_terms
                || has_any task blocker_terms
                || has_any task repair_terms))
      × (has_lane blocker_review (select_lanes task) ≡ has_any task blocker_terms)
      × (has_lane failure_repair_supervision (select_lanes task) ≡ has_any task repair_terms)
unfolding select_lanes
select_lanes_lem task = lanes_of-lanes _ _ _ _ _

abbrev pub stop_first : Text
stop_first = codes "affected_process_stopped_or_drained_before_fix"

abbrev pub no_fix_while_running : Text
no_fix_while_running = codes "fix_applied_to_running_process_without_stop_or_drain"

repair_checks :
    (task : Text) (b : Bool)
    → has_lane failure_repair_supervision (select_lanes (normalize task)) ≡ b
    → (includes stop_first (select_protective_supervision_route task).required_checks ≡ b)
      × (includes no_fix_while_running (select_protective_supervision_route task).stop_conditions
          ≡ b)
unfolding select_protective_supervision_route includes dedup_from text_eq
repair_checks task true h = rw h (refl, refl)
repair_checks task false h = rw h (refl, refl)

-- The check that a process is stopped or drained before it is fixed, and the condition that stops a fix
-- to a running process, come with a route exactly if the task, in lower case and with spaces for
-- hyphens and underscores, has a term of failure repair.
pub select_protective_supervision_route-repair :
    (task : Text)
    → (includes stop_first (select_protective_supervision_route task).required_checks
        ≡ has_any (normalize task) repair_terms)
      × (includes no_fix_while_running (select_protective_supervision_route task).stop_conditions
          ≡ has_any (normalize task) repair_terms)
select_protective_supervision_route-repair task =
    let (_, _, _, _, repair) = select_lanes_lem (normalize task) in
    repair_checks task (has_any (normalize task) repair_terms) repair
