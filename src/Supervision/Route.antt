-- ===== src/Supervision/Route.antt =====
-- The choice of lanes for a task, src/data/delivery-system/protectiveSupervision.ts. Upper and lower case
-- are those of ASCII.
use autopilot_beta.Prelude.{
  ℕ, ◌+◌, Bool, true, false, ◌&&◌, ◌||◌, List, [], ◌∷◌, ◌++◌, map, Text, codes, any, leb, ◌==◌,
  dedup_from, if◌then◌else◌,
}
use autopilot_beta.Supervision.Policy.{
  Lane, currentness_sentinel, handoff_compiler, progress_ledger, blocker_review,
  failure_repair_supervision, ProgressState, failure_repair_supervision_checks,
  failure_repair_supervision_stop_conditions, protective_supervision_policy,
}

abbrev pub lower_unit : ℕ → ℕ
lower_unit c = if leb 65 c && leb c 90 then c + 32 else c

abbrev pub spaced_unit : ℕ → ℕ
spaced_unit c = if c == 95 || c == 45 then 32 else c

-- `value.toLowerCase().replace(/[_-]/g, " ")`
unfoldable pub normalize : Text → Text
normalize = map (λ c. spaced_unit (lower_unit c))

unfoldable pub starts_with : Text → Text → Bool
starts_with [] t = true
starts_with (c ∷ term) [] = false
starts_with (c ∷ term) (d ∷ t) = c == d && starts_with term t

-- `t.includes(term)`
unfoldable pub contains : Text → Text → Bool
unfolding starts_with
contains term [] = starts_with term []
contains term (c ∷ t) = starts_with term (c ∷ t) || contains term t

unfoldable pub has_any : Text → List Text → Bool
unfolding contains normalize
has_any task terms = any (λ term. contains (normalize term) task) terms

abbrev pub lane_eq : Lane → Lane → Bool
lane_eq currentness_sentinel currentness_sentinel = true
lane_eq handoff_compiler handoff_compiler = true
lane_eq progress_ledger progress_ledger = true
lane_eq blocker_review blocker_review = true
lane_eq failure_repair_supervision failure_repair_supervision = true
lane_eq _ _ = false

-- `[...new Set(lanes)]`
unfoldable pub unique_lanes : List Lane → List Lane → List Lane
unique_lanes seen [] = []
unique_lanes seen (l ∷ ls) =
    let rest = unique_lanes seen ls in
    let rest' = unique_lanes (l ∷ seen) ls in if any (lane_eq l) seen then rest else l ∷ rest'

abbrev pub currentness_terms : List Text
currentness_terms =
    codes "current"
    ∷ codes "latest"
    ∷ codes "updates"
    ∷ codes "official docs"
    ∷ codes "context7"
    ∷ codes "currentness"
    ∷ []

abbrev pub handoff_terms : List Text
handoff_terms =
    codes "agent output"
    ∷ codes "handoff"
    ∷ codes "next agent"
    ∷ codes "packet"
    ∷ codes "next input"
    ∷ codes "worker output"
    ∷ []

abbrev pub progress_terms : List Text
progress_terms =
    codes "progress"
    ∷ codes "done"
    ∷ codes "missing"
    ∷ codes "waiting"
    ∷ codes "depends"
    ∷ codes "dependency"
    ∷ codes "next steps"
    ∷ []

abbrev pub blocker_terms : List Text
blocker_terms =
    codes "blocker"
    ∷ codes "blocked"
    ∷ codes "waiting owner"
    ∷ codes "stop condition"
    ∷ codes "risk"
    ∷ []

abbrev pub repair_terms : List Text
repair_terms =
    codes "failed"
    ∷ codes "failure"
    ∷ codes "broken"
    ∷ codes "not working"
    ∷ codes "investigate"
    ∷ codes "diagnostic"
    ∷ codes "process"
    ∷ codes "running"
    ∷ codes "restart"
    ∷ codes "session"
    ∷ codes "resume"
    ∷ []

-- `if (test) lanes.push(lane)`
abbrev pub push_if : Bool → Lane → List Lane
push_if true lane = lane ∷ []
push_if false lane = []

abbrev pub or_progress : List Lane → List Lane
or_progress [] = progress_ledger ∷ []
or_progress (l ∷ ls) = l ∷ ls

-- The lanes, given which groups of terms the task has.
unfoldable pub lanes_of : Bool → Bool → Bool → Bool → Bool → List Lane
unfolding unique_lanes
lanes_of current handoff progress blocker repair = unique_lanes [] (
    or_progress (
      push_if current currentness_sentinel
      ++ (push_if handoff handoff_compiler
          ++ (push_if progress progress_ledger
              ++ (push_if blocker blocker_review ++ push_if repair failure_repair_supervision)))))

unfoldable pub select_lanes : Text → List Lane
unfolding has_any lanes_of
select_lanes task =
    lanes_of (has_any task currentness_terms) (has_any task handoff_terms)
      (has_any task progress_terms) (has_any task blocker_terms) (has_any task repair_terms)

-- ProtectiveSupervisionRouteResult
pub record RouteResult : Type 0 where
  pub activate_agent : Text
  pub lanes : List Lane
  pub progress_states : List ProgressState
  pub required_checks : List Text
  pub stop_conditions : List Text
  pub output_contract : List Text

abbrev pub has_repair : List Lane → Bool
has_repair = any (lane_eq failure_repair_supervision)

abbrev pub if_repair : List Lane → List Text → List Text
if_repair lanes extra = if has_repair lanes then extra else []

unfoldable pub select_protective_supervision_route : Text → RouteResult
unfolding select_lanes normalize dedup_from
select_protective_supervision_route task =
    let lanes = select_lanes (normalize task) in
    record {
      activate_agent = protective_supervision_policy.agent_id;
      lanes = lanes;
      progress_states = protective_supervision_policy.progress_states;
      required_checks = dedup_from [] (
          protective_supervision_policy.required_checks
          ++ if_repair lanes failure_repair_supervision_checks);
      stop_conditions = dedup_from [] (
          protective_supervision_policy.stop_conditions
          ++ if_repair lanes failure_repair_supervision_stop_conditions);
      output_contract = protective_supervision_policy.required_outputs;
    }
