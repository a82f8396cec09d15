-- ===== src/Routing/Scenarios.antt =====
-- Runs of the routing: three failures of one provider, and what takes its work over.
use autopilot_beta.Prelude.{
  ℕ, ◌+◌, ◌≡◌, refl, ◌⊎◌, ◌↔◌, true, false, none, some, List, [], ◌∷◌, map, length, Text, codes,
  text_eq, includes, ok,
}
use autopilot_beta.Time.{date_parse}
use autopilot_beta.Routing.Budget.{
  Provider, openai_gpt, gemini_cli, qwen_local, RateLimitState, not_finite, negative, number,
  safe_token_count, Tier, Budget, Telemetry,
}
use autopilot_beta.Routing.Tiers.{gemini_known_tiers, openai_known_tiers}
use autopilot_beta.Routing.Circuit.{
  FailureSignal, Signal, default_thresholds, CircuitState, StateOrder, compute_tier_circuit_state,
  is_tier_circuit_open, to_provider,
}
use autopilot_beta.Routing.Fallback.{
  Trigger, Step, Options, build_blocked_fallback_step, all_verified_tiers_exhausted_or_open,
  resolve_circuit_states, resolve_fallback,
}
use autopilot_beta.Routing.Totals.{aggregate_all, sum, aggregate_all-totals}
use autopilot_beta.Routing.Opens.{IsBlocked, compute_tier_circuit_state_lem}
use autopilot_beta.Routing.Resolved.{IsSafe, resolve_fallback-IsSafe}
use autopilot_beta.Routing.Pause.{StaysOnGemini, resolve_fallback-StaysOnGemini}

abbrev as_given : StateOrder
as_given s t = true

abbrev failure : ℕ → Signal
failure ms = record {
  provider = openai_gpt;
  tier_id = none;
  failure_signal = FailureSignal.timeout;
  recorded_at = some ms;
}

abbrev failures : List Signal
failures = failure 100 ∷ failure 300 ∷ failure 200 ∷ []

abbrev open_state : CircuitState
open_state = record {
  provider = openai_gpt;
  tier_id = none;
  is_open = true;
  failure_count = 3;
  cooldown_until = some (some 900300);
}

abbrev budget : Provider → Text → List Tier → Budget
budget p tier tiers = record {
  provider = p;
  active_tier_id = some tier;
  active_tier_rate_limit_state = RateLimitState.rate_limited;
  rate_limit_hit_at = none;
  last_attempted_at = none;
  available_tiers = tiers;
  exhausted_tier_ids = [];
  session_task_count = 0;
  session_input_tokens = number 10 0;
  session_output_tokens = not_finite;
  session_total_tokens = number 10 500000;
  session_call_count = number 1 0;
  last_successful_task_at = none;
}

abbrev gemini_budget : Budget
gemini_budget = budget gemini_cli (codes "gemini_auto") gemini_known_tiers

abbrev openai_budget : Budget
openai_budget = budget openai_gpt (codes "gpt_5_5") openai_known_tiers

abbrev options : Options
options = record {
  fallback_chain = none;
  budgets = none;
  recent_failure_signals = some failures;
  circuit_breaker_thresholds = none;
  now = some (some 400);
}

abbrev to_qwen : Step
to_qwen = record {
  trigger = Trigger.rate_limited;
  from_provider = openai_gpt;
  from_tier_id = none;
  target = to_provider qwen_local;
  to_tier_id = none;
  condition = codes "task fits local scope: bounded_coding, micro_worker, test_generation";
  requires_checkpoint = true;
  requires_owner_approval = false;
}

abbrev gemini_blocked : Step
gemini_blocked =
    build_blocked_fallback_step Trigger.rate_limited gemini_cli (some (codes "gemini_auto")) (
      codes
        "No valid fallback candidate remains after self-route, verified-tier, and circuit-breaker guards.")

three_failures_open :
    compute_tier_circuit_state as_given failures default_thresholds (some 400)
    ≡ ok (open_state ∷ [])
unfolding compute_tier_circuit_state text_eq
three_failures_open = refl

openai_to_qwen :
    resolve_fallback as_given Trigger.rate_limited openai_gpt openai_budget options
    ≡ ok (some to_qwen)
unfolding resolve_fallback text_eq
openai_to_qwen = refl

flash_unconfirmed :
    resolve_fallback as_given Trigger.rate_limited gemini_cli gemini_budget options
    ≡ ok (some gemini_blocked)
unfolding resolve_fallback text_eq includes
flash_unconfirmed = refl

compute_tier_circuit_state_lem_example :
    (at : ℕ) × (date_parse (some 400) ≡ some at)
    × ((is_tier_circuit_open (open_state ∷ []) openai_gpt (some (codes "gpt_mini")) ≡ true)
        ↔ IsBlocked default_thresholds at openai_gpt (some (codes "gpt_mini")) failures)
compute_tier_circuit_state_lem_example =
    compute_tier_circuit_state_lem as_given failures default_thresholds (some 400) (open_state ∷ [])
      openai_gpt (some (codes "gpt_mini")) three_failures_open

resolve_fallback-IsSafe_example :
    (states : List CircuitState) × (resolve_circuit_states as_given options ≡ ok states)
    × (((openai_gpt ≡ gemini_cli)
          × (all_verified_tiers_exhausted_or_open openai_budget states ≡ true))
        ⊎ ((q : Provider)
            → to_qwen.target ≡ to_provider q
            → IsSafe q to_qwen openai_budget (openai_budget ∷ []) states))
resolve_fallback-IsSafe_example =
    resolve_fallback-IsSafe as_given Trigger.rate_limited openai_gpt openai_budget options to_qwen
      openai_to_qwen

resolve_fallback-StaysOnGemini_example : StaysOnGemini gemini_blocked
resolve_fallback-StaysOnGemini_example =
    resolve_fallback-StaysOnGemini as_given Trigger.rate_limited gemini_budget options
      gemini_blocked refl flash_unconfirmed

abbrev calls : List Telemetry
calls =
    (record {
      input_tokens = number 5 0;
      output_tokens = number 2 900000;
      total_tokens = number 7 900000;
      recorded_at = some 10;
    })
    ∷ (record {
      input_tokens = negative 3;
      output_tokens = not_finite;
      total_tokens = number 1 0;
      recorded_at = some 20;
    })
    ∷ []

aggregate_all-totals_example :
    (safe_token_count (aggregate_all gemini_budget calls).session_input_tokens
      ≡ safe_token_count (number 10 0)
        + sum (map (λ (t : Telemetry). safe_token_count t.input_tokens) calls))
    × (safe_token_count (aggregate_all gemini_budget calls).session_output_tokens
        ≡ safe_token_count not_finite
          + sum (map (λ (t : Telemetry). safe_token_count t.output_tokens) calls))
    × (safe_token_count (aggregate_all gemini_budget calls).session_total_tokens
        ≡ safe_token_count (number 10 500000)
          + sum (map (λ (t : Telemetry). safe_token_count t.total_tokens) calls))
    × (safe_token_count (aggregate_all gemini_budget calls).session_call_count
        ≡ safe_token_count (number 1 0) + length calls)
aggregate_all-totals_example = aggregate_all-totals gemini_budget calls
