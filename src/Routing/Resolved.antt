-- ===== src/Routing/Resolved.antt =====
-- What resolveFallback of src/data/delivery-system/fallbackChains.ts may lead to.
use autopilot_beta.Prelude.{
  ◌≡◌, refl, ◌⊎◌, inl, inr, ◌≢◌, ◌↔◌, Bool, true, false, not, ◌&&◌, Option, some, List, [], ◌∷◌,
  Text, includes, find, any, filter, All, or_default, is_empty, Bool-cases, Option-cases,
  Result-cases, ok, ◌>>=◌, ok-injective, some-injective, none≢some, err≢ok, find-All, &&_split,
  &&_split3, false≢true, arith, sym, ap, ◌∙◌,
}
use autopilot_beta.Routing.Budget.{Provider, gemini_cli, provider_eq, Budget}
use autopilot_beta.Routing.Circuit.{
  CircuitState, StateOrder, may_be_same, is_tier_circuit_open, Target, to_provider, to_blocked,
  is_self_fallback_route, budget_of, is_verified_tier, is_fallback_tier_locally_confirmed,
}
use autopilot_beta.Routing.Fallback.{
  Trigger, Step, Options, or_else, active_tier_of, is_exhausted_tier, unverified, is_valid_target,
  leads_well, is_valid_fallback_step, all_verified_tiers_exhausted_or_open, resolve_circuit_states,
  is_matching, choose_step, resolve_with, resolve_fallback, is_nil, subscription_fallback_chains,
}

pub provider_eq_iff : (p q : Provider) → (provider_eq p q ≡ true) ↔ (p ≡ q)
provider_eq_iff p q = ground arith

-- What a route to a provider must satisfy, with the states of the circuits.
pub record IsSafe (q : Provider) (step : Step) (budget : Budget) (budgets : List Budget)
    (states : List CircuitState) : Type 0 where
  -- It does not lead back to the provider and tier it comes from.
  pub elsewhere :
      step.from_provider ≡ q
      → may_be_same (or_else step.from_tier_id budget.active_tier_id) step.to_tier_id ≡ false
  -- A tier that it names is verified in the provider's budget.
  pub confirmed :
      (id : Text)
      → step.to_tier_id ≡ some id
      → (b : Budget) × (budget_of q budgets ≡ some b)
        × (any (is_verified_tier id) b.available_tiers ≡ true)
  -- No open circuit of the provider is of the tier, or of all tiers.
  pub closed :
      All
        (λ (s : CircuitState).
          s.is_open ≡ true
          → s.provider ≡ q
          → may_be_same s.tier_id (or_else step.to_tier_id (active_tier_of (budget_of q budgets)))
            ≡ false)
        states
  -- The tier is not used up.
  pub left :
      (b : Budget) (id : Text)
      → budget_of q budgets ≡ some b
      → or_else step.to_tier_id b.active_tier_id ≡ some id
      → id ≢ []
      → includes id b.exhausted_tier_ids ≡ false

not-true : {b : Bool} → not b ≡ true → b ≡ false
not-true h = ground arith

is_empty-≢ : (t : Text) → t ≢ [] → is_empty t ≡ false
is_empty-≢ [] h = absurd (h refl)
is_empty-≢ (c ∷ t) h = refl

none_blocks :
    (q : Provider) (tier : Option Text) (states : List CircuitState)
    → is_tier_circuit_open states q tier ≡ false
    → All
        (λ (s : CircuitState).
          s.is_open ≡ true → s.provider ≡ q → may_be_same s.tier_id tier ≡ false)
        states
unfolding is_tier_circuit_open
none_blocks q tier [] h = tt
none_blocks q tier (s ∷ states) h = (
  λ e e'. ground (arith, (provider_eq_iff s.provider q).1 e'),
  none_blocks q tier states (ground arith),
)

confirmed_tier :
    (q : Provider) (budgets : List Budget) (to_tier : Option Text)
    → is_fallback_tier_locally_confirmed (to_provider q) to_tier budgets ≡ true
    → (id : Text) → to_tier ≡ some id
    → (b : Budget) × (budget_of q budgets ≡ some b)
      × (any (is_verified_tier id) b.available_tiers ≡ true)
unfolding is_fallback_tier_locally_confirmed
confirmed_tier q budgets to_tier h id e = elim (Option-cases (budget_of q budgets)) [
  | inl none_e ↦ absurd (false≢true (rw (e, is_fallback_tier_locally_confirmed, none_e) at h))
  | inr (b, e') ↦ (b, e', rw (e, is_fallback_tier_locally_confirmed, e') at h)
]

exhausted_tier :
    (b : Budget) (id : Text) (budget : Option Budget) (tier : Option Text)
    → is_exhausted_tier budget tier ≡ false
    → budget ≡ some b
    → tier ≡ some id
    → id ≢ []
    → includes id b.exhausted_tier_ids ≡ false
unfolding is_exhausted_tier
exhausted_tier b id budget tier h e e' k = rw (e, e', is_empty-≢ id k) at h

-- The three tests of a step that leads to a provider.
valid_parts :
    (q : Provider) (step : Step) (budget : Budget) (budgets : List Budget)
    (states : List CircuitState)
    → is_valid_fallback_step step budget budgets states ≡ true
    → step.target ≡ to_provider q
    → (not (
          is_self_fallback_route step.from_provider
            (or_else step.from_tier_id budget.active_tier_id)
            (to_provider q)
            step.to_tier_id)
        ≡ true)
      × (is_fallback_tier_locally_confirmed (to_provider q) step.to_tier_id budgets ≡ true)
      × (is_valid_target q step.to_tier_id (budget_of q budgets) states ≡ true)
unfolding is_valid_fallback_step leads_well
valid_parts q step budget budgets states h e =
    let route : Target → Bool = λ t. not (
      is_self_fallback_route step.from_provider (or_else step.from_tier_id budget.active_tier_id) t
        step.to_tier_id) in
    let (a, c, l) =
      &&_split3 (route step.target)
        (is_fallback_tier_locally_confirmed step.target step.to_tier_id budgets)
        (leads_well step budgets states) h in
    (rw e at a, rw e at c, rw e at l)

is_valid_fallback_step-IsSafe :
    (q : Provider) (step : Step) (budget : Budget) (budgets : List Budget)
    (states : List CircuitState)
    → is_valid_fallback_step step budget budgets states ≡ true
    → step.target ≡ to_provider q
    → IsSafe q step budget budgets states
unfolding is_self_fallback_route is_valid_target
is_valid_fallback_step-IsSafe q step budget budgets states h e =
    let (a, c, l) = valid_parts q step budget budgets states h e in
    let tier = or_else step.to_tier_id (active_tier_of (budget_of q budgets)) in
    let (_, o, x) =
      &&_split3 (not (unverified (budget_of q budgets))) (not (is_tier_circuit_open states q tier))
        (not (is_exhausted_tier (budget_of q budgets) tier)) l in
    record {
      elsewhere = λ same. ground (arith, (provider_eq_iff step.from_provider q).1 same);
      confirmed = confirmed_tier q budgets step.to_tier_id c;
      closed = none_blocks q tier states (not-true o);
      left = λ b id eb et k. exhausted_tier b id _ _ (not-true x) eb (rw eb et) k;
    }

always {ℓ} : {A : Type ℓ} (xs : List A) → All (λ _. Unit {0}) xs
always [] = tt
always (x ∷ xs) = (tt, always xs)

to_blocked≢to_provider : (q : Provider) → to_blocked ≢ to_provider q
to_blocked≢to_provider q h = cc

module _ (trigger : Trigger) (p : Provider) (budget : Budget) (budgets : List Budget)
    (states : List CircuitState) where
  abbrev Chosen : Step → Type 0
  Chosen step = (q : Provider) → step.target ≡ to_provider q → IsSafe q step budget budgets states

  blocked-Chosen : (step : Step) → step.target ≡ to_blocked → Chosen step
  blocked-Chosen step h q e = absurd (to_blocked≢to_provider q (sym h ∙ e))

  choose_step-Chosen :
      (matching : List Step) (step : Step)
      → choose_step trigger p budget budgets states matching ≡ some step
      → Chosen step
  unfolding choose_step
  choose_step-Chosen matching step h =
      elim (Option-cases (find (λ s. is_valid_fallback_step s budget budgets states) matching)) [
        | inr (s, e) ↦
            let same : s ≡ step = some-injective (rw (choose_step, e) at h) in
            let (_, valid) = find-All (λ _. Unit {0}) _ matching (always matching) e in
            λ q. is_valid_fallback_step-IsSafe q step budget budgets states (rw same at valid)
        | inl e ↦ elim (Bool-cases (is_nil matching)) [
          | inl nil ↦ absurd (none≢some (rw (choose_step, e, nil) at h))
          | inr not_nil ↦ blocked-Chosen step (
              sym
                (ap (λ (s : Step). s.target) (some-injective (rw (choose_step, e, not_nil) at h))))
        ]
      ]

resolve_with-Chosen :
    (trigger : Trigger) (p : Provider) (budget : Budget) (options : Options)
    (states : List CircuitState) (step : Step)
    → resolve_with trigger p budget options states ≡ some step
    → ((p ≡ gemini_cli) × (all_verified_tiers_exhausted_or_open budget states ≡ true))
      ⊎ Chosen trigger p budget (or_default options.budgets (budget ∷ [])) states step
unfolding resolve_with
resolve_with-Chosen trigger p budget options states step h =
    elim (Bool-cases
      (provider_eq p gemini_cli && all_verified_tiers_exhausted_or_open budget states)) [
        | inl gone ↦
            let (same, all_out) = &&_split (provider_eq p gemini_cli) _ gone in
            inl ((provider_eq_iff p gemini_cli).0 same, all_out)
        | inr others ↦ inr (
            choose_step-Chosen trigger p budget _ states
              (filter (is_matching trigger p budget)
                (or_default options.fallback_chain subscription_fallback_chains))
              step (rw (resolve_with, others) at h))
      ]

-- Where resolveFallback returns a step, the circuits could be computed; and unless the work comes from
-- Gemini with all its verified tiers exhausted or open, a step to a provider is safe: it does not lead
-- back to the tier it comes from, a tier that it names is verified, no open circuit blocks the tier,
-- and the tier is not among the exhausted_tier_ids of that provider's budget. This holds for any chain,
-- the caller's included.
pub resolve_fallback-IsSafe :
    (le : StateOrder) (trigger : Trigger) (p : Provider) (budget : Budget) (options : Options)
    (step : Step)
    → resolve_fallback le trigger p budget options ≡ ok (some step)
    → (states : List CircuitState) × (resolve_circuit_states le options ≡ ok states)
      × (((p ≡ gemini_cli) × (all_verified_tiers_exhausted_or_open budget states ≡ true))
          ⊎ ((q : Provider)
              → step.target ≡ to_provider q
              → IsSafe q step budget (or_default options.budgets (budget ∷ [])) states))
unfolding resolve_fallback
resolve_fallback-IsSafe le trigger p budget options step h =
    elim (Result-cases (resolve_circuit_states le options)) [
      | inr (e, failed) ↦ absurd (err≢ok (rw (failed, ◌>>=◌) at h))
      | inl (states, computed) ↦ (
        states,
        computed,
        resolve_with-Chosen trigger p budget options states step
            (ok-injective (rw (computed, ◌>>=◌) at h)),
      )
    ]
