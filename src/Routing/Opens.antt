-- ===== src/Routing/Opens.antt =====
-- When a circuit counts as open: computeTierCircuitState and isTierCircuitOpen of
-- src/data/delivery-system/routingGuards.ts, against a description by the signals alone.
use autopilot_beta.Prelude.{
  ℕ, ◌<◌, ◌≡◌, refl, sym, ap, ◌∙◌, subst, inl, inr, ◌↔◌, Bool, true, ◌&&◌, ◌||◌, Option, some, List,
  [], ◌∷◌, Text, any, filter, any_entry, any-intro, &&_split, &&_split3, Bool-cases, arith, leb,
  leb→le, ltb→lt, bind-ok, guard-ok, or_throw-ok, ok, ◌>>=◌, or_throw, map_ok, Result-cases,
  ok-injective, err≢ok,
}
use autopilot_beta.Time.{Timestamp, date_parse}
use autopilot_beta.Routing.Budget.{Provider, provider_eq}
use autopilot_beta.Routing.Circuit.{
  Signal, Thresholds, CircuitState, invalid_time, Key, parse_tier, Groups, has_key, group_signals,
  opens, cooldown_of, circuit_state, StateOrder, insert_state, sort_states, validate_thresholds,
  compute_tier_circuit_state, may_be_same, blocks, is_tier_circuit_open,
}
use autopilot_beta.Routing.Resolved.{provider_eq_iff}
use autopilot_beta.Routing.Groups.{empty-Grouped, keyed, Grouped, key_eq→≡, group_signals-Grouped}

-- Sorting keeps what passes a test.
any-insert_state :
    (p : CircuitState → Bool) (le : StateOrder) (s : CircuitState) (ts : List CircuitState)
    → any p (insert_state le s ts) ≡ p s || any p ts
unfolding insert_state
any-insert_state p le s [] = refl
any-insert_state p le s (t ∷ ts) = elim (Bool-cases (le s t)) [
  | inl before ↦ rw before refl
  | inr after ↦ rw after (ground (arith, any-insert_state p le s ts))
]

any-sort_states :
    (p : CircuitState → Bool) (le : StateOrder) (ts : List CircuitState)
    → any p (sort_states le ts) ≡ any p ts
unfolding sort_states
any-sort_states p le [] = refl
any-sort_states p le (t ∷ ts) =
    any-insert_state p le t (sort_states le ts) ∙ ap (λ b. p t || b) (any-sort_states p le ts)

module _ (thresholds : Thresholds) (at : ℕ) (q : Provider) (tier : Option Text) where
  -- Whether a bucket blocks the tier.
  abbrev bucket_blocks : Key × List Signal → Bool
  bucket_blocks ((p, t), signals) =
      opens thresholds at signals && provider_eq p q && may_be_same (parse_tier t) tier

  circuit_state-blocks :
      (e : Key × List Signal) (s : CircuitState)
      → circuit_state thresholds at e ≡ ok s
      → blocks q tier s ≡ bucket_blocks e
  unfolding circuit_state
  circuit_state-blocks ((p, t), signals) s h =
      elim (Result-cases (cooldown_of thresholds at signals)) [
        | inl (until, e) ↦
            ap (blocks q tier) (sym (ok-injective (rw (circuit_state, e, ◌>>=◌) at h)))
        | inr (e', e) ↦ absurd (err≢ok (rw (circuit_state, e, ◌>>=◌) at h))
      ]

  any-blocks :
      (groups : Groups) (states : List CircuitState)
      → map_ok (circuit_state thresholds at) groups ≡ ok states
      → any (blocks q tier) states ≡ any bucket_blocks groups
  any-blocks [] states h = ap (any (blocks q tier)) (sym (ok-injective h))
  any-blocks (e ∷ groups) states h = elim (Result-cases (circuit_state thresholds at e)) [
    | inr (e', failed) ↦ absurd (err≢ok (rw (failed, ◌>>=◌) at h))
    | inl (s, first) ↦ elim (Result-cases (map_ok (circuit_state thresholds at) groups)) [
      | inr (e', failed) ↦ absurd (err≢ok (rw (first, failed, ◌>>=◌) at h))
      | inl (rest, others) ↦
          ap (any (blocks q tier)) (sym (ok-injective (rw (first, others, ◌>>=◌) at h)))
          ∙ rw (circuit_state-blocks e s first, any-blocks groups rest others) refl
    ]
  ]

  -- The description: a tier id that stands for the tier or for all tiers, whose counted signals reach
  -- the threshold, the last of them within the cooldown.
  abbrev pub IsBlocked : List Signal → Type 0
  IsBlocked signals =
      (t : Text) × (may_be_same (parse_tier t) tier ≡ true)
      × (opens thresholds at (filter (keyed thresholds at (q, t)) signals) ≡ true)

  empty_opens : 0 < thresholds.failure_threshold → ¬ opens thresholds at [] ≡ true
  unfolding opens
  empty_opens positive h =
      let (reached, _) = &&_split (leb thresholds.failure_threshold 0) _ h in
      let none_needed = leb→le thresholds.failure_threshold 0 reached in
      omega (arith, positive, none_needed)

  module _ (signals : List Signal) (groups : Groups)
      (grouped : Grouped thresholds at signals groups) where
    IsBlocked-of_bucket : any bucket_blocks groups ≡ true → IsBlocked signals
    IsBlocked-of_bucket h =
        let (((p, t), bucket), (exact, blocking)) =
          any_entry _ bucket_blocks groups grouped.exact h in
        let (opened, of_provider, same) =
          &&_split3 (opens thresholds at bucket) (provider_eq p q) (may_be_same (parse_tier t) tier)
            blocking in
        let all =
          exact
          ∙ ap (λ x. filter (keyed thresholds at (x, t)) signals)
              ((provider_eq_iff p q).0 of_provider) in
        (t, same, subst (λ b. opens thresholds at b ≡ true) all opened)

    bucket_of_blocked :
        0 < thresholds.failure_threshold → IsBlocked signals → any bucket_blocks groups ≡ true
    bucket_of_blocked positive (t, same, opened) = elim (Bool-cases (any (has_key (q, t)) groups)) [
      | inr absent ↦ absurd (
          empty_opens positive
            (subst (λ b. opens thresholds at b ≡ true) (grouped.complete (q, t) absent) opened))
      | inl present ↦
          any-intro _ (has_key (q, t)) bucket_blocks groups grouped.exact present (λ e exact found.
            let same_key = key_eq→≡ (q, t) e.0 found in
            let bucket = exact ∙ ap (λ k. filter (keyed thresholds at k) signals) (sym same_key) in
            subst (λ k. bucket_blocks (k, e.1) ≡ true) same_key
              (rw (bucket, opened, (provider_eq_iff q q).1 refl, same) refl))
    ]

-- For valid thresholds and a valid time, if the circuits can be computed, a tier's circuit is open
-- exactly if the provider's counted signals for that tier, or for all its tiers, reach the threshold
-- and the last of them is younger than the cooldown: whatever the signals' order, how they are
-- grouped and how the states are sorted.
pub compute_tier_circuit_state_lem :
    (le : StateOrder) (signals : List Signal) (thresholds : Thresholds) (now : Timestamp)
    (states : List CircuitState) (q : Provider) (tier : Option Text)
    → compute_tier_circuit_state le signals thresholds now ≡ ok states
    → (at : ℕ) × (date_parse now ≡ some at)
      × ((is_tier_circuit_open states q tier ≡ true) ↔ IsBlocked thresholds at q tier signals)
unfolding compute_tier_circuit_state validate_thresholds is_tier_circuit_open
compute_tier_circuit_state_lem le signals thresholds now states q tier h =
    let (_, valid, h₁) = bind-ok (validate_thresholds thresholds) _ h in
    let (at, parsed, h₂) = bind-ok (or_throw (date_parse now) invalid_time) _ h₁ in
    let (unsorted, computed, h₃) =
      bind-ok (map_ok (circuit_state thresholds at) (group_signals thresholds at [] signals)) _
        h₂ in
    let positive = ltb→lt 0 thresholds.failure_threshold (&&_split3 _ _ _ (guard-ok _ _ valid)).0 in
    let grouped = group_signals-Grouped thresholds at [] signals [] (empty-Grouped thresholds at) in
    let same : is_tier_circuit_open states q tier
        ≡ any (bucket_blocks thresholds at q tier) (group_signals thresholds at [] signals) =
      ap (any (blocks q tier)) (sym (ok-injective h₃))
      ∙ any-sort_states (blocks q tier) le unsorted
      ∙ any-blocks thresholds at q tier _ unsorted computed in
    (
      at,
      or_throw-ok (date_parse now) invalid_time parsed,
      (
        λ opened. IsBlocked-of_bucket thresholds at q tier signals _ grouped (sym same ∙ opened),
        λ blocked. same ∙ bucket_of_blocked thresholds at q tier signals _ grouped positive blocked,
      ),
    )
