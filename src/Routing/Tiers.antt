-- ===== src/Routing/Tiers.antt =====
-- The known tiers of each subscription, src/data/delivery-system/subscriptionBudget.ts.
use autopilot_beta.Prelude.{true, false, none, some, List, [], ◌∷◌, codes}
use autopilot_beta.Routing.Budget.{
  openai_gpt, anthropic_claude_subscription, gemini_cli, available, unknown, Tier,
}

abbrev pub gemini_known_tiers : List Tier
gemini_known_tiers =
    (record {
      provider = gemini_cli;
      tier_id = codes "gemini_auto";
      label = codes "Gemini CLI auto tier";
      cli_access_path = (some (codes "gemini.cmd -m auto"));
      verified_locally = true;
      rate_limit_state = available;
      cost_weight_tenths = 5;
      last_attempted_at = none;
    })
    ∷ (record {
      provider = gemini_cli;
      tier_id = codes "gemini_flash";
      label = codes "Gemini Flash tier";
      cli_access_path = none;
      verified_locally = false;
      rate_limit_state = unknown;
      cost_weight_tenths = 2;
      last_attempted_at = none;
    })
    ∷ (record {
      provider = gemini_cli;
      tier_id = codes "gemini_pro";
      label = codes "Gemini Pro tier";
      cli_access_path = none;
      verified_locally = false;
      rate_limit_state = unknown;
      cost_weight_tenths = 10;
      last_attempted_at = none;
    })
    ∷ []

abbrev pub anthropic_known_tiers : List Tier
anthropic_known_tiers =
    (record {
      provider = anthropic_claude_subscription;
      tier_id = codes "opus";
      label = codes "Claude Opus (flagship)";
      cli_access_path = none;
      verified_locally = false;
      rate_limit_state = unknown;
      cost_weight_tenths = 10;
      last_attempted_at = none;
    })
    ∷ (record {
      provider = anthropic_claude_subscription;
      tier_id = codes "sonnet_5";
      label = codes "Claude Sonnet 5 (cheaper)";
      cli_access_path = none;
      verified_locally = false;
      rate_limit_state = unknown;
      cost_weight_tenths = 4;
      last_attempted_at = none;
    })
    ∷ []

abbrev pub openai_known_tiers : List Tier
openai_known_tiers =
    (record {
      provider = openai_gpt;
      tier_id = codes "gpt_5_5";
      label = codes "GPT-5.5 (flagship)";
      cli_access_path = none;
      verified_locally = false;
      rate_limit_state = unknown;
      cost_weight_tenths = 10;
      last_attempted_at = none;
    })
    ∷ (record {
      provider = openai_gpt;
      tier_id = codes "gpt_5_4";
      label = codes "GPT-5.4 (cheaper)";
      cli_access_path = none;
      verified_locally = false;
      rate_limit_state = unknown;
      cost_weight_tenths = 6;
      last_attempted_at = none;
    })
    ∷ (record {
      provider = openai_gpt;
      tier_id = codes "gpt_mini";
      label = codes "GPT mini (cheaper)";
      cli_access_path = none;
      verified_locally = false;
      rate_limit_state = unknown;
      cost_weight_tenths = 3;
      last_attempted_at = none;
    })
    ∷ (record {
      provider = openai_gpt;
      tier_id = codes "codex_spark";
      label = codes "codex-spark (cheaper, spill catch)";
      cli_access_path = none;
      verified_locally = false;
      rate_limit_state = unknown;
      cost_weight_tenths = 2;
      last_attempted_at = none;
    })
    ∷ []
