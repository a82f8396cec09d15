-- ===== src/Routing/Fallback.antt =====
-- Which step of the fallback chain is taken, src/data/delivery-system/fallbackChains.ts.
use autopilot_beta.Prelude.{
  Bool, true, false, not, ◌&&◌, ◌||◌, Option, none, some, List, [], ◌∷◌, Text, codes, opt_text_eq,
  is_empty, includes, find, every, filter, or_default, if◌then◌else◌, Result, ok, err, ◌>>=◌,
}
use autopilot_beta.Time.{Timestamp}
use autopilot_beta.Routing.Budget.{
  Provider, qwen_local, openai_gpt, anthropic_claude_subscription, gemini_cli, provider_eq, Tier,
  Budget,
}
use autopilot_beta.Routing.Circuit.{
  Signal, Thresholds, CircuitState, RoutingError, now_required, default_thresholds, StateOrder,
  compute_tier_circuit_state, is_tier_circuit_open, Target, to_provider, owner_decision, to_blocked,
  is_self_fallback_route, is_active_tier_explicitly_unverified, budget_of,
  is_fallback_tier_locally_confirmed, is_verified_tier_exhausted_or_open,
}

-- FallbackTrigger
pub data Trigger : Type 0 where
  rate_limited provider_unavailable output_quality_below_threshold : Trigger
  repeated_failure all_tiers_exhausted : Trigger

abbrev pub trigger_eq : Trigger → Trigger → Bool
trigger_eq rate_limited rate_limited = true
trigger_eq provider_unavailable provider_unavailable = true
trigger_eq output_quality_below_threshold output_quality_below_threshold = true
trigger_eq repeated_failure repeated_failure = true
trigger_eq all_tiers_exhausted all_tiers_exhausted = true
trigger_eq _ _ = false

-- FallbackChainStep
pub record Step : Type 0 where
  pub trigger : Trigger
  pub from_provider : Provider
  pub from_tier_id : Option Text
  pub target : Target
  pub to_tier_id : Option Text
  pub condition : Text
  pub requires_checkpoint : Bool
  pub requires_owner_approval : Bool

-- ResolveFallbackOptions
pub record Options : Type 0 where
  pub fallback_chain : Option (List Step)
  pub budgets : Option (List Budget)
  pub recent_failure_signals : Option (List Signal)
  pub circuit_breaker_thresholds : Option Thresholds
  pub now : Option Timestamp

abbrev pub subscription_fallback_chains : List Step
subscription_fallback_chains =
    (record {
      trigger = rate_limited;
      from_provider = gemini_cli;
      from_tier_id = some (codes "gemini_auto");
      target = to_provider gemini_cli;
      to_tier_id = some (codes "gemini_flash");
      condition =
          codes
            "gemini_auto rate limited; Gemini Flash may be tried only when the tier id is locally confirmed later";
      requires_checkpoint = false;
      requires_owner_approval = false;
    })
    ∷ (record {
      trigger = all_tiers_exhausted;
      from_provider = gemini_cli;
      from_tier_id = none;
      target = to_blocked;
      to_tier_id = none;
      condition = codes "All Gemini tiers exhausted; pause only, no provider substitution";
      requires_checkpoint = false;
      requires_owner_approval = false;
    })
    ∷ (record {
      trigger = rate_limited;
      from_provider = openai_gpt;
      from_tier_id = none;
      target = to_provider qwen_local;
      to_tier_id = none;
      condition = codes "task fits local scope: bounded_coding, micro_worker, test_generation";
      requires_checkpoint = true;
      requires_owner_approval = false;
    })
    ∷ (record {
      trigger = repeated_failure;
      from_provider = openai_gpt;
      from_tier_id = none;
      target = owner_decision;
      to_tier_id = none;
      condition =
          codes
            "task requires GPT-quality review or a supervisor route decision before further retries";
      requires_checkpoint = true;
      requires_owner_approval = true;
    })
    ∷ (record {
      trigger = provider_unavailable;
      from_provider = anthropic_claude_subscription;
      from_tier_id = none;
      target = owner_decision;
      to_tier_id = none;
      condition =
          codes
            "Claude unavailable; orchestration is waiting_owner until the owner resumes or changes scope";
      requires_checkpoint = true;
      requires_owner_approval = true;
    })
    ∷ []

-- `a ?? b` on optional texts.
abbrev pub or_else : Option Text → Option Text → Option Text
or_else none b = b
or_else (some a) b = some a

abbrev pub active_tier_of : Option Budget → Option Text
active_tier_of none = none
active_tier_of (some b) = b.active_tier_id

-- The tests on the budget of the provider that the step leads to.
unfoldable pub unverified : Option Budget → Bool
unfolding is_active_tier_explicitly_unverified
unverified none = false
unverified (some b) = is_active_tier_explicitly_unverified b

-- The empty tier id is never among the exhausted ones here, as it is false in JavaScript.
unfoldable pub is_exhausted_tier : Option Budget → Option Text → Bool
unfolding includes
is_exhausted_tier (some b) (some id) = not (is_empty id) && includes id b.exhausted_tier_ids
is_exhausted_tier _ _ = false

-- The tests on a target that is a provider.
unfoldable pub is_valid_target : Provider → Option Text → Option Budget → List CircuitState → Bool
unfolding unverified is_exhausted_tier is_tier_circuit_open
is_valid_target p to_tier budget states =
    let tier = or_else to_tier (active_tier_of budget) in
    not (unverified budget)
    && not (is_tier_circuit_open states p tier)
    && not (is_exhausted_tier budget tier)

unfoldable pub leads_well : Step → List Budget → List CircuitState → Bool
unfolding is_valid_target
leads_well step budgets states = elim step.target [
  | owner_decision ↦ true
  | to_blocked ↦ true
  | to_provider p ↦ is_valid_target p step.to_tier_id (budget_of p budgets) states
]

unfoldable pub is_valid_fallback_step : Step → Budget → List Budget → List CircuitState → Bool
unfolding is_self_fallback_route is_fallback_tier_locally_confirmed leads_well
is_valid_fallback_step step budget budgets states =
    not (
      is_self_fallback_route step.from_provider (or_else step.from_tier_id budget.active_tier_id)
        step.target step.to_tier_id)
    && is_fallback_tier_locally_confirmed step.target step.to_tier_id budgets
    && leads_well step budgets states

abbrev pub verified_tiers : Budget → List Tier
verified_tiers b = filter (λ t. t.verified_locally) b.available_tiers

abbrev pub is_nil {ℓ} : {A : Type ℓ} → List A → Bool
is_nil [] = true
is_nil (x ∷ xs) = false

unfoldable pub all_verified_tiers_exhausted_or_open : Budget → List CircuitState → Bool
unfolding is_verified_tier_exhausted_or_open
all_verified_tiers_exhausted_or_open b states =
    not (is_nil (verified_tiers b))
    && every (λ t. is_verified_tier_exhausted_or_open b t.tier_id states) (verified_tiers b)

unfoldable pub resolve_circuit_states :
    StateOrder → Options → Result RoutingError (List CircuitState)
unfolding compute_tier_circuit_state
resolve_circuit_states le options = elim (or_default options.recent_failure_signals []) [
  | [] ↦ ok []
  | s ∷ ss ↦ elim options.now [
    | none ↦ err now_required
    | some now ↦
        compute_tier_circuit_state le (s ∷ ss)
          (or_default options.circuit_breaker_thresholds default_thresholds) now
  ]
]

abbrev pub build_blocked_fallback_step : Trigger → Provider → Option Text → Text → Step
build_blocked_fallback_step trigger p tier condition = record {
  trigger = trigger;
  from_provider = p;
  from_tier_id = tier;
  target = to_blocked;
  to_tier_id = none;
  condition = condition;
  requires_checkpoint = true;
  requires_owner_approval = false;
}

-- `step.fromTierId && step.fromTierId !== activeTierId` is false: no tier, the empty one, or the same.
abbrev pub starts_at : Option Text → Option Text → Bool
starts_at none active = true
starts_at (some id) active = is_empty id || opt_text_eq (some id) active

unfoldable pub is_matching : Trigger → Provider → Budget → Step → Bool
is_matching trigger p budget step =
    trigger_eq step.trigger trigger
    && provider_eq step.from_provider p
    && starts_at step.from_tier_id budget.active_tier_id

abbrev pub is_gemini_exhausted_step : Step → Bool
is_gemini_exhausted_step s =
    provider_eq s.from_provider gemini_cli && trigger_eq s.trigger all_tiers_exhausted

-- The choice among the matching steps.
unfoldable pub choose_step :
    Trigger → Provider → Budget → List Budget → List CircuitState → List Step → Option Step
unfolding is_valid_fallback_step
choose_step trigger p budget budgets states matching =
    elim (find (λ s. is_valid_fallback_step s budget budgets states) matching) [
      | some s ↦ some s
      | none ↦
          if is_nil matching
          then none
          else some (
              build_blocked_fallback_step trigger p budget.active_tier_id (
                codes
                  "No valid fallback candidate remains after self-route, verified-tier, and circuit-breaker guards."))
    ]

-- `resolveFallback`, behind the states of the circuits.
unfoldable pub resolve_with :
    Trigger → Provider → Budget → Options → List CircuitState → Option Step
unfolding all_verified_tiers_exhausted_or_open is_matching choose_step
resolve_with trigger p budget options states =
    let chain = or_default options.fallback_chain subscription_fallback_chains in
    let budgets = or_default options.budgets (budget ∷ []) in
    if provider_eq p gemini_cli && all_verified_tiers_exhausted_or_open budget states
    then some (
        or_default (find is_gemini_exhausted_step chain) (
          build_blocked_fallback_step trigger p budget.active_tier_id
            (codes "All verified Gemini tiers are exhausted or circuit-open; pause only.")))
    else choose_step trigger p budget budgets states (filter (is_matching trigger p budget) chain)

unfoldable pub resolve_fallback :
    StateOrder → Trigger → Provider → Budget → Options → Result RoutingError (Option Step)
unfolding resolve_circuit_states resolve_with
resolve_fallback le trigger p budget options =
    resolve_circuit_states le options
    >>= (λ states. ok (resolve_with trigger p budget options states))
