-- ===== src/Supervision/Scenarios.antt =====
-- Routes of a few tasks.
use autopilot_beta.Prelude.{◌≡◌, refl, not, ◌||◌, [], ◌∷◌, Text, codes, includes}
use autopilot_beta.Supervision.Policy.{
  currentness_sentinel, handoff_compiler, progress_ledger, blocker_review,
  failure_repair_supervision,
}
use autopilot_beta.Supervision.Route.{
  normalize, has_any, currentness_terms, handoff_terms, progress_terms, blocker_terms, repair_terms,
  select_lanes, select_protective_supervision_route,
}
use autopilot_beta.Supervision.Repair.{
  has_lane, select_lanes_lem, stop_first, no_fix_while_running,
  select_protective_supervision_route-repair,
}

abbrev task : Text
task = codes "Restart the Next-Agent"

two_lanes : select_lanes (normalize task) ≡ handoff_compiler ∷ failure_repair_supervision ∷ []
unfolding select_lanes normalize
two_lanes = refl

nothing_said : select_lanes (codes "hello") ≡ progress_ledger ∷ []
unfolding select_lanes
nothing_said = refl

select_lanes_lem_example :
    (has_lane currentness_sentinel (select_lanes task) ≡ has_any task currentness_terms)
    × (has_lane handoff_compiler (select_lanes task) ≡ has_any task handoff_terms)
    × (has_lane progress_ledger (select_lanes task)
        ≡ has_any task progress_terms
          || not (
              has_any task currentness_terms
              || has_any task handoff_terms
              || has_any task progress_terms
              || has_any task blocker_terms
              || has_any task repair_terms))
    × (has_lane blocker_review (select_lanes task) ≡ has_any task blocker_terms)
    × (has_lane failure_repair_supervision (select_lanes task) ≡ has_any task repair_terms)
select_lanes_lem_example = select_lanes_lem task

select_protective_supervision_route-repair_example :
    (includes stop_first (select_protective_supervision_route task).required_checks
      ≡ has_any (normalize task) repair_terms)
    × (includes no_fix_while_running (select_protective_supervision_route task).stop_conditions
        ≡ has_any (normalize task) repair_terms)
select_protective_supervision_route-repair_example = select_protective_supervision_route-repair task
