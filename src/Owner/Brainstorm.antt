-- ===== src/Owner/Brainstorm.antt =====
-- The tokens that a brainstorm may cost, src/data/delivery-system/brainstormBudget.ts. Counts that are
-- negative or no integers are not modelled: the source refuses them.
use autopilot_beta.Prelude.{
  ℕ, ◌+◌, Bool, ◌&&◌, List, [], ◌∷◌, every, leb, ltb, Result, ok, err, ◌>>=◌, ◌>>◌, guard,
  if◌then◌else◌,
}
use autopilot_beta.Owner.Approval.{max_safe_integer}

pub record Envelope : Type 0 where
  pub fanout_tokens : ℕ
  pub consolidation_tokens : ℕ
  pub optional_arbitration_tokens : ℕ
  pub minimum_tokens : ℕ
  pub maximum_tokens : ℕ

pub data BudgetError : Type 0 where
  invalid_brainstorm_token_budget : BudgetError

unfoldable pub positive_token_count : ℕ → Bool
positive_token_count n = leb n max_safe_integer && ltb 0 n

unfoldable pub non_negative_token_count : ℕ → Bool
non_negative_token_count n = leb n max_safe_integer

unfoldable pub safe_token_sum : ℕ → ℕ → Result BudgetError ℕ
safe_token_sum left right =
    if leb (left + right) max_safe_integer
    then ok (left + right)
    else err invalid_brainstorm_token_budget

-- `routes.reduce((sum, route) => safeTokenSum(sum, route.estimated_tokens), sum)`
unfoldable pub sum_from : ℕ → List ℕ → Result BudgetError ℕ
unfolding safe_token_sum
sum_from sum [] = ok sum
sum_from sum (n ∷ routes) = safe_token_sum sum n >>= λ next. sum_from next routes

abbrev pub is_nonempty : List ℕ → Bool
is_nonempty [] = Bool.false
is_nonempty (n ∷ ns) = Bool.true

unfoldable pub counts_accepted : List ℕ → ℕ → ℕ → Bool
unfolding positive_token_count non_negative_token_count
counts_accepted routes consolidation arbitration =
    is_nonempty routes
    && positive_token_count consolidation
    && non_negative_token_count arbitration
    && every positive_token_count routes

-- A route is its estimate.
unfoldable pub estimate_brainstorm_token_envelope : List ℕ → ℕ → ℕ → Result BudgetError Envelope
unfolding counts_accepted sum_from safe_token_sum
estimate_brainstorm_token_envelope routes consolidation arbitration = do
  guard (counts_accepted routes consolidation arbitration) invalid_brainstorm_token_budget
  fanout ← sum_from 0 routes
  minimum ← safe_token_sum fanout consolidation
  maximum ← safe_token_sum minimum arbitration
  ok (record {
    fanout_tokens = fanout;
    consolidation_tokens = consolidation;
    optional_arbitration_tokens = arbitration;
    minimum_tokens = minimum;
    maximum_tokens = maximum;
  })
