-- ===== src/Dispatch/Modes.antt =====
-- The routing modes and lanes, src/data/delivery-system/routingModes.ts.
use autopilot_beta.Prelude.{
  ℕ, Bool, true, false, not, ◌&&◌, Option, none, some, List, [], ◌∷◌, map, Text, codes, text_eq,
  is_blank, length, ltb, or_default, every, any, leb, ◌==◌, if◌then◌else◌,
}
use autopilot_beta.Supervision.Route.{contains, lower_unit}

pub data Mode : Type 0 where
  idea spec build review : Mode

pub data RoutingLane : Type 0 where
  agy_fast agy_deep agy_gpt_oss_120b agy_claude_sonnet_4_6 : RoutingLane
  openrouter_nemotron_planning openrouter_qwen3_code_draft qwen_local_lane : RoutingLane
  deterministic_tools claude_supervisor codex_lane : RoutingLane

-- The lanes as numbers, to compare them.
abbrev pub lane_index : RoutingLane → ℕ
lane_index agy_fast = 0
lane_index agy_deep = 1
lane_index agy_gpt_oss_120b = 2
lane_index agy_claude_sonnet_4_6 = 3
lane_index openrouter_nemotron_planning = 4
lane_index openrouter_qwen3_code_draft = 5
lane_index qwen_local_lane = 6
lane_index deterministic_tools = 7
lane_index claude_supervisor = 8
lane_index codex_lane = 9

abbrev pub has_lane : List RoutingLane → RoutingLane → Bool
has_lane ls l = any (λ k. lane_index k == lane_index l) ls

-- EXPENSIVE_LANES
abbrev pub expensive_lanes : List RoutingLane
expensive_lanes = claude_supervisor ∷ codex_lane ∷ []

pub data CostTier : Type 0 where
  free mid expensive : CostTier

-- LANE_COST_TIERS
unfoldable pub lane_cost_tier : RoutingLane → CostTier
lane_cost_tier deterministic_tools = free
lane_cost_tier qwen_local_lane = free
lane_cost_tier openrouter_qwen3_code_draft = free
lane_cost_tier openrouter_nemotron_planning = free
lane_cost_tier agy_fast = mid
lane_cost_tier agy_deep = mid
lane_cost_tier agy_gpt_oss_120b = mid
lane_cost_tier agy_claude_sonnet_4_6 = mid
lane_cost_tier claude_supervisor = expensive
lane_cost_tier codex_lane = expensive

-- AGY_VERIFIED_MODELS
abbrev pub agy_fast_default : Text
agy_fast_default = codes "gemini-3.5-flash-medium"

abbrev pub gpt_oss_model : Text
gpt_oss_model = codes "gpt-oss-120b"

abbrev pub claude_sonnet_model : Text
claude_sonnet_model = codes "claude-4.6-sonnet"

pub data PrepProvenance : Type 0 where
  cheap_attempts : List Text → PrepProvenance
  cheap_not_applicable : Text → Bool → PrepProvenance

-- `isBuildPrepProvenanceSatisfied`
unfoldable pub is_prep_satisfied : Option PrepProvenance → Bool
unfolding is_blank
is_prep_satisfied none = false
is_prep_satisfied (some (cheap_attempts refs)) =
    ltb 0 (length refs) && every (λ ref. not (is_blank ref)) refs
is_prep_satisfied (some (cheap_not_applicable reason owner)) = not (is_blank reason) && owner

-- `getRoutingMode(id)`, of which the lanes and the budget of rounds
abbrev pub allowed_lanes : Mode → List RoutingLane
allowed_lanes idea =
    agy_fast ∷ agy_deep ∷ agy_gpt_oss_120b ∷ agy_claude_sonnet_4_6 ∷ openrouter_nemotron_planning
    ∷ []
allowed_lanes spec = openrouter_nemotron_planning ∷ agy_fast ∷ agy_deep ∷ deterministic_tools ∷ []
allowed_lanes build =
    openrouter_qwen3_code_draft ∷ qwen_local_lane ∷ deterministic_tools ∷ codex_lane ∷ []
allowed_lanes review =
    agy_fast ∷ agy_deep ∷ agy_gpt_oss_120b ∷ agy_claude_sonnet_4_6 ∷ claude_supervisor ∷ codex_lane
    ∷ []

abbrev pub expensive_lanes_allowed : Mode → Bool
expensive_lanes_allowed idea = false
expensive_lanes_allowed spec = true
expensive_lanes_allowed build = true
expensive_lanes_allowed review = true

abbrev pub step_budget : Mode → ℕ
step_budget idea = 2
step_budget spec = 3
step_budget build = 3
step_budget review = 2

unfoldable pub is_lane_allowed : Mode → RoutingLane → Bool
is_lane_allowed m l = has_lane (allowed_lanes m) l

-- Of a round that is an integer.
abbrev pub is_within_step_budget : Mode → ℕ → Bool
is_within_step_budget m round = leb 1 round && leb round (step_budget m)

pub data Vendor : Type 0 where
  codex_cli claude_cli agy_cli openrouter_api : Vendor

pub data OpenRouterMode : Type 0 where
  qwen3_code_draft nemotron_planning : OpenRouterMode

-- The `agy` lane of a model: `/pro/i.test(model)` for the deep one.
unfoldable pub agy_lane : Text → RoutingLane
unfolding contains
agy_lane model =
    if text_eq model gpt_oss_model
    then agy_gpt_oss_120b
    else if text_eq model claude_sonnet_model
    then agy_claude_sonnet_4_6
    else if contains (codes "pro") (map lower_unit model)
    then agy_deep
    else agy_fast

-- `resolveRoutingLane`, with nothing where it throws
unfoldable pub resolve_routing_lane :
    Vendor → Option OpenRouterMode → Option Text → Option RoutingLane
unfolding agy_lane
resolve_routing_lane codex_cli mode model = some codex_lane
resolve_routing_lane claude_cli mode model = some agy_claude_sonnet_4_6
resolve_routing_lane agy_cli mode model = some (agy_lane (or_default model []))
resolve_routing_lane openrouter_api (some nemotron_planning) model =
    some openrouter_nemotron_planning
resolve_routing_lane openrouter_api (some qwen3_code_draft) model = some openrouter_qwen3_code_draft
resolve_routing_lane openrouter_api none model = none
