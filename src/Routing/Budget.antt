-- ===== src/Routing/Budget.antt =====
-- The budgets of the subscription providers, src/data/delivery-system/subscriptionBudget.ts.
use autopilot_beta.Prelude.{ℕ, ◌+◌, Bool, true, false, Option, some, List, Text}
use autopilot_beta.Time.{Timestamp}

-- ReasoningProviderId of modelPolicy.ts.
pub data Provider : Type 0 where
  deterministic_tools qwen_local openai_gpt anthropic_claude_subscription : Provider
  gemini_cli deepseek_api_or_self_hosted openrouter_free deepseek_web_chat_manual : Provider

abbrev pub provider_eq : Provider → Provider → Bool
provider_eq deterministic_tools deterministic_tools = true
provider_eq qwen_local qwen_local = true
provider_eq openai_gpt openai_gpt = true
provider_eq anthropic_claude_subscription anthropic_claude_subscription = true
provider_eq gemini_cli gemini_cli = true
provider_eq deepseek_api_or_self_hosted deepseek_api_or_self_hosted = true
provider_eq openrouter_free openrouter_free = true
provider_eq deepseek_web_chat_manual deepseek_web_chat_manual = true
provider_eq _ _ = false

pub data RateLimitState : Type 0 where
  available rate_limited exhausted unknown : RateLimitState

abbrev pub is_exhausted : RateLimitState → Bool
is_exhausted exhausted = true
is_exhausted _ = false

-- ProviderTierSpec, its notes left out. The cost weight is in tenths.
pub record Tier : Type 0 where
  pub provider : Provider
  pub tier_id : Text
  pub label : Text
  pub cli_access_path : Option Text
  pub verified_locally : Bool
  pub rate_limit_state : RateLimitState
  pub cost_weight_tenths : ℕ
  pub last_attempted_at : Option Timestamp

-- A number that stands for a count of tokens, as JavaScript has it: NaN or an infinity, a negative
-- number, or a whole part with a fraction (in millionths).
pub data Amount : Type 0 where
  not_finite : Amount
  negative : ℕ → Amount
  number : ℕ → ℕ → Amount

-- `Number.isFinite(value) && value > 0 ? Math.floor(value) : 0`
unfoldable pub safe_token_count : Amount → ℕ
safe_token_count not_finite = 0
safe_token_count (negative n) = 0
safe_token_count (number whole fraction) = whole

-- SubscriptionSessionBudget, its notes left out.
pub record Budget : Type 0 where
  pub provider : Provider
  pub active_tier_id : Option Text
  pub active_tier_rate_limit_state : RateLimitState
  pub rate_limit_hit_at : Option Timestamp
  pub last_attempted_at : Option Timestamp
  pub available_tiers : List Tier
  pub exhausted_tier_ids : List Text
  pub session_task_count : ℕ
  pub session_input_tokens : Amount
  pub session_output_tokens : Amount
  pub session_total_tokens : Amount
  pub session_call_count : Amount
  pub last_successful_task_at : Option Timestamp

pub record Telemetry : Type 0 where
  pub input_tokens : Amount
  pub output_tokens : Amount
  pub total_tokens : Amount
  pub recorded_at : Timestamp

-- `safeTokenCount(a) + safeTokenCount(b)`
unfoldable pub add_tokens : Amount → Amount → Amount
unfolding safe_token_count
add_tokens a b = number (safe_token_count a + safe_token_count b) 0

unfoldable pub aggregate_cli_call_telemetry_into_budget : Budget → Telemetry → Budget
unfolding add_tokens
aggregate_cli_call_telemetry_into_budget budget telemetry = record budget {
  session_input_tokens = add_tokens budget.session_input_tokens telemetry.input_tokens;
  session_output_tokens = add_tokens budget.session_output_tokens telemetry.output_tokens;
  session_total_tokens = add_tokens budget.session_total_tokens telemetry.total_tokens;
  session_call_count = number (safe_token_count budget.session_call_count + 1) 0;
  last_attempted_at = some telemetry.recorded_at;
}
