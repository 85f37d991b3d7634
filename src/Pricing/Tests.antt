-- ===== src/Pricing/Tests.antt =====
-- Runs of copilot_pricing.py on concrete input.
use engineering_flow_platfor.Base.Interpreter.{Conversions, Texts}
use engineering_flow_platfor.Base.{
  ℕ, ◌≤◌, ◌≡◌, refl, none, some, nat_eq, string_eq, pair_eq, strip, lookup,
}
use engineering_flow_platfor.Base.Value.{pos, null, int, str}
use engineering_flow_platfor.Pricing.{
  ModelPricing, default_tier, long_context_tier, tier_for, price_for, join_words, pricing_for,
  count, Tokens, Billed, billed, cost, usd_for, round_even,
}
use engineering_flow_platfor.Pricing.Costs.{long_context_costs_more}

abbrev exact_counts : Conversions
exact_counts = record { repr = λ v. ""; int_of_text = λ s. none; int_of_float = some }

abbrev as_typed : Texts
as_typed = record { repr = λ v. ""; lower = λ s. s }

abbrev usage : Tokens
usage = record {
  input_tokens = int (pos 1_000);
  cached_input_tokens = int (pos 600);
  cache_write_tokens = int (pos 900);
  output_tokens = int (pos 50);
  reasoning_tokens = null;
}

abbrev sol : ModelPricing
sol = record {
  model = "gpt-6-sol";
  threshold_tokens = some 272_000;
  default = record { input = 2000; cached_input = 200; cache_write = 2500; output = 10000 };
  long_context =
      some (record { input = 4000; cached_input = 400; cache_write = 5000; output = 15000 });
}

known : pricing_for as_typed (str "github-copilot/gpt-6 sol") ≡ some sol
unfolding pricing_for join_words strip lookup
known = refl

long_context_costs_more_example :
    ((m n : ℕ) → m ≤ n → tier_for sol m ≡ long_context_tier → tier_for sol n ≡ long_context_tier)
    × ((b : Billed)
        → cost (price_for sol default_tier) b ≤ cost (price_for sol long_context_tier) b)
long_context_costs_more_example =
    long_context_costs_more as_typed (str "github-copilot/gpt-6 sol") sol known

-- 600 cached and 400 written tokens of a prompt, and 50 of output
usd_run : usd_for as_typed exact_counts (str "gpt-6-sol") usage none ≡ some 1620
unfolding usd_for pricing_for join_words strip lookup billed count cost tier_for round_even
usd_run = refl
