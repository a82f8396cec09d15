-- ===== src/Routing/Totals.antt =====
-- What a run of calls adds to a budget, src/data/delivery-system/subscriptionBudget.ts.
use autopilot_beta.Prelude.{ℕ, ◌+◌, ◌≡◌, List, [], ◌∷◌, length, map, arith}
use autopilot_beta.Routing.Budget.{
  safe_token_count, Budget, Telemetry, add_tokens, aggregate_cli_call_telemetry_into_budget,
}

-- The calls of a session, added one after the other.
abbrev pub aggregate_all : Budget → List Telemetry → Budget
aggregate_all b [] = b
aggregate_all b (t ∷ ts) = aggregate_all (aggregate_cli_call_telemetry_into_budget b t) ts

abbrev pub sum : List ℕ → ℕ
sum [] = 0
sum (n ∷ ns) = n + sum ns

-- After any calls the tokens counted are those counted before and those that each call reports, where
-- a report that is not finite or not positive counts as none and a fraction is dropped; each call is
-- counted once.
pub aggregate_all-totals :
    (b : Budget) (ts : List Telemetry)
    → (safe_token_count (aggregate_all b ts).session_input_tokens
        ≡ safe_token_count b.session_input_tokens
          + sum (map (λ (t : Telemetry). safe_token_count t.input_tokens) ts))
      × (safe_token_count (aggregate_all b ts).session_output_tokens
          ≡ safe_token_count b.session_output_tokens
            + sum (map (λ (t : Telemetry). safe_token_count t.output_tokens) ts))
      × (safe_token_count (aggregate_all b ts).session_total_tokens
          ≡ safe_token_count b.session_total_tokens
            + sum (map (λ (t : Telemetry). safe_token_count t.total_tokens) ts))
      × (safe_token_count (aggregate_all b ts).session_call_count
          ≡ safe_token_count b.session_call_count + length ts)
unfolding aggregate_cli_call_telemetry_into_budget add_tokens safe_token_count
aggregate_all-totals b [] = (omega arith, omega arith, omega arith, omega arith)
aggregate_all-totals b (t ∷ ts) =
    let (i, o, a, c) = aggregate_all-totals (aggregate_cli_call_telemetry_into_budget b t) ts in
    (omega (arith, i), omega (arith, o), omega (arith, a), omega (arith, c))
