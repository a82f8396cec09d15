-- ===== src/Routing/Pause.antt =====
-- Gemini pauses: the chain of src/data/delivery-system/fallbackChains.ts replaces it by no other provider.
use autopilot_beta.Prelude.{
  ◌≡◌, refl, ◌⊎◌, inl, inr, true, none, some, List, [], ◌∷◌, codes, find, filter, All, or_default,
  Bool-cases, Option-cases, Result-cases, ok, ◌>>=◌, ok-injective, err≢ok, some-injective,
  none≢some, find-All, &&_split3, subst, ap, sym,
}
use autopilot_beta.Routing.Budget.{gemini_cli, provider_eq, Budget}
use autopilot_beta.Routing.Circuit.{CircuitState, StateOrder, to_provider, to_blocked}
use autopilot_beta.Routing.Fallback.{
  Trigger, Step, Options, is_valid_fallback_step, all_verified_tiers_exhausted_or_open,
  resolve_circuit_states, trigger_eq, starts_at, is_matching, is_gemini_exhausted_step, choose_step,
  resolve_with, resolve_fallback, is_nil, subscription_fallback_chains, build_blocked_fallback_step,
}

-- A step that blocks the work or leads to the flash tier of Gemini.
pub StaysOnGemini : Step → Type 0
StaysOnGemini s =
    (s.target ≡ to_blocked)
    ⊎ ((s.target ≡ to_provider gemini_cli) × (s.to_tier_id ≡ some (codes "gemini_flash")))

abbrev FromGemini : Step → Type 0
FromGemini s = provider_eq s.from_provider gemini_cli ≡ true → StaysOnGemini s

chain-FromGemini : All FromGemini subscription_fallback_chains
unfolding StaysOnGemini
chain-FromGemini = (λ _. inr (refl, refl), (λ _. inl refl, (λ h. cc, (λ h. cc, (λ h. cc, tt)))))

module _ (trigger : Trigger) (budget : Budget) where
  from_provider_matches :
      (s : Step)
      → is_matching trigger gemini_cli budget s ≡ true
      → provider_eq s.from_provider gemini_cli ≡ true
  unfolding is_matching
  from_provider_matches s h =
      let (_, same, _) =
        &&_split3 (trigger_eq s.trigger trigger) (provider_eq s.from_provider gemini_cli)
          (starts_at s.from_tier_id budget.active_tier_id) h in
      same

  matching-StaysOnGemini :
      (steps : List Step)
      → All FromGemini steps
      → All StaysOnGemini (filter (is_matching trigger gemini_cli budget) steps)
  matching-StaysOnGemini [] h = tt
  matching-StaysOnGemini (s ∷ steps) h =
      elim (Bool-cases (is_matching trigger gemini_cli budget s)) [
        | inl fits ↦ rw fits (h.0 (from_provider_matches s fits), matching-StaysOnGemini steps h.1)
        | inr other ↦ rw other (matching-StaysOnGemini steps h.1)
      ]

  exhausted-StaysOnGemini : StaysOnGemini (
      or_default (find is_gemini_exhausted_step subscription_fallback_chains) (
        build_blocked_fallback_step trigger gemini_cli budget.active_tier_id
          (codes "All verified Gemini tiers are exhausted or circuit-open; pause only.")))
  unfolding StaysOnGemini
  exhausted-StaysOnGemini = inl refl

  choose_step-StaysOnGemini :
      (budgets : List Budget) (states : List CircuitState) (matching : List Step) (step : Step)
      → All StaysOnGemini matching
      → choose_step trigger gemini_cli budget budgets states matching ≡ some step
      → StaysOnGemini step
  unfolding choose_step StaysOnGemini
  choose_step-StaysOnGemini budgets states matching step good h =
      elim (Option-cases (find (λ s. is_valid_fallback_step s budget budgets states) matching)) [
        | inr (s, e) ↦
            subst StaysOnGemini (some-injective (rw (choose_step, e) at h))
              (find-All StaysOnGemini _ matching good e).0
        | inl e ↦ elim (Bool-cases (is_nil matching)) [
          | inl nil ↦ absurd (none≢some (rw (choose_step, e, nil) at h))
          | inr not_nil ↦ inl (
              sym
                (ap (λ (s : Step). s.target) (some-injective (rw (choose_step, e, not_nil) at h))))
        ]
      ]

-- With the program's own chain, work that leaves a Gemini tier is blocked or goes to Gemini's flash
-- tier: whatever the trigger, the budgets and the failures are, no other provider takes it over.
pub resolve_fallback-StaysOnGemini :
    (le : StateOrder) (trigger : Trigger) (budget : Budget) (options : Options) (step : Step)
    → options.fallback_chain ≡ none
    → resolve_fallback le trigger gemini_cli budget options ≡ ok (some step)
    → StaysOnGemini step
unfolding resolve_fallback resolve_with
resolve_fallback-StaysOnGemini le trigger budget options step no_chain h =
    elim (Result-cases (resolve_circuit_states le options)) [
      | inr (e, failed) ↦ absurd (err≢ok (rw (failed, ◌>>=◌) at h))
      | inl (states, computed) ↦
          let h' = ok-injective (rw (computed, ◌>>=◌, resolve_with, no_chain) at h) in
          elim (Bool-cases (all_verified_tiers_exhausted_or_open budget states)) [
            | inl out ↦
                subst StaysOnGemini (some-injective (rw out at h'))
                  (exhausted-StaysOnGemini trigger budget)
            | inr others ↦
                choose_step-StaysOnGemini trigger budget (or_default options.budgets (budget ∷ []))
                  states
                  (filter (is_matching trigger gemini_cli budget) subscription_fallback_chains) step
                  (matching-StaysOnGemini trigger budget subscription_fallback_chains
                    chain-FromGemini)
                  (rw others at h')
          ]
    ]
