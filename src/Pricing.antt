-- ===== src/Pricing.antt =====
-- efp_opencode_adapter/copilot_pricing.py: what a request costs. A price is a whole number of
-- thousandths of a dollar for a million tokens, so that a sum of token prices is a whole number of
-- thousand-millionths of a dollar. The source computes in floats; the sums here are exact.
use engineering_flow_platfor.Base.Interpreter.{Conversions, Texts}
use engineering_flow_platfor.Base.{
  ℕ, ◌+◌, ◌-◌, ◌*◌, ◌/◌, ◌%◌, min, String, Bool, true, false, not, ◌&&◌, ◌||◌, Option, none, some,
  [], ◌∷◌, ltb, eqb, if◌then◌else◌, nat_eq, string_eq, pair_eq, is_space, is_empty, strip, Dict,
  lookup,
}
use engineering_flow_platfor.Base.Value.{ℤ, pos, negsuc, Value, null, int, decimal, str}
use engineering_flow_platfor.SessionStore.Load.{int_or_zero, truncated}
use Prim.Native.Char.{code}
use Prim.Native.String.{◌++◌ as text_append}
pub mod Costs
mod Tests

pub record TierPrice : Type 0 where
  pub input : ℕ
  pub cached_input : ℕ
  pub cache_write : ℕ
  pub output : ℕ

pub record ModelPricing : Type 0 where
  pub model : String
  pub threshold_tokens : Option ℕ
  pub default : TierPrice
  pub long_context : Option TierPrice

pub data Tier : Type 0 where
  default_tier : Tier
  long_context_tier : Tier

abbrev pub is_above : Option TierPrice → Option ℕ → ℕ → Bool
is_above (some price) (some threshold) prompt_tokens = ltb threshold prompt_tokens
is_above price threshold prompt_tokens = false

unfoldable pub tier_for : ModelPricing → ℕ → Tier
tier_for p prompt_tokens =
    if is_above p.long_context p.threshold_tokens prompt_tokens
    then long_context_tier
    else default_tier

abbrev price_or : Option TierPrice → TierPrice → TierPrice
price_or none other = other
price_or (some price) other = price

abbrev pub price_for : ModelPricing → Tier → TierPrice
price_for p default_tier = p.default
price_for p long_context_tier = price_or p.long_context p.default

abbrev prices : ℕ → ℕ → ℕ → ℕ → TierPrice
prices i c w o = record { input = i; cached_input = c; cache_write = w; output = o }

abbrev gpt6 : String → TierPrice → TierPrice → ℕ → ModelPricing
gpt6 model default long threshold = record {
  model = model;
  threshold_tokens = some threshold;
  default = default;
  long_context = some long;
}

abbrev gpt6_long_context_threshold_tokens : ℕ
gpt6_long_context_threshold_tokens = 272_000

abbrev gpt56_luna_long_context_threshold_tokens : ℕ
gpt56_luna_long_context_threshold_tokens = 200_000

abbrev pub copilot_model_pricing : Dict String ModelPricing
copilot_model_pricing =
    (
      "gpt-6.1-sol",
      gpt6 "gpt-6.1-sol" (prices 2000 100 2500 10000) (prices 4000 200 5000 15000)
          gpt6_long_context_threshold_tokens,
    )
    ∷ (
      "gpt-6-sol",
      gpt6 "gpt-6-sol" (prices 2000 200 2500 10000) (prices 4000 400 5000 15000)
          gpt6_long_context_threshold_tokens,
    )
    ∷ (
      "gpt-6-luna",
      gpt6 "gpt-6-luna" (prices 100 10 125 500) (prices 200 20 250 750)
          gpt6_long_context_threshold_tokens,
    )
    ∷ (
      "gpt-6-astra",
      gpt6 "gpt-6-astra" (prices 10000 1000 12500 50000) (prices 20000 2000 25000 75000)
          gpt6_long_context_threshold_tokens,
    )
    ∷ (
      "gpt-6.1-terra",
      gpt6 "gpt-6.1-terra" (prices 1000 50 1250 5000) (prices 2000 100 2500 7500)
          gpt6_long_context_threshold_tokens,
    )
    ∷ (
      "gpt-5.6-sol",
      gpt6 "gpt-5.6-sol" (prices 4000 400 5000 20000) (prices 8000 800 10000 30000)
          gpt6_long_context_threshold_tokens,
    )
    ∷ (
      "gpt-5.6-terra",
      gpt6 "gpt-5.6-terra" (prices 2000 200 2500 12000) (prices 4000 400 5000 18000)
          gpt6_long_context_threshold_tokens,
    )
    ∷ (
      "gpt-5.6-luna",
      gpt6 "gpt-5.6-luna" (prices 200 20 250 1200) (prices 400 40 500 1800)
          gpt56_luna_long_context_threshold_tokens,
    )
    ∷ []

-- the text behind the first "/"
abbrev after_slash : String → Option String
after_slash String.[] = none
after_slash (String.◌∷◌ c s) = if eqb (code c) 47 then some s else after_slash s

abbrev text_or : Option String → String → String
text_or none other = other
text_or (some s) other = s

-- `"-".join(s.split())`, after a word or not, and after a gap or not
unfoldable pub join_words : Bool → Bool → String → String
unfolding is_space
join_words after_word gap String.[] = ""
join_words after_word gap (String.◌∷◌ c s) =
    let rest = join_words (after_word || not (is_space (code c))) (is_space (code c)) s in
    if is_space (code c)
    then rest
    else if after_word && gap
    then text_append "-" (String.◌∷◌ c rest)
    else String.◌∷◌ c rest

abbrev full_text : String → Option String
full_text s = if is_empty s then none else some s

abbrev pub normalize_pricing_model_id : Texts → Value → Option String
normalize_pricing_model_id t (str s) =
    let text = t.lower (strip s) in
    full_text (join_words false false (text_or (after_slash text) text))
normalize_pricing_model_id t v = none

abbrev pricing_of_id : Option String → Option ModelPricing
pricing_of_id none = none
pricing_of_id (some id) = lookup id copilot_model_pricing

unfoldable pub pricing_for : Texts → Value → Option ModelPricing
unfolding join_words lookup
pricing_for t model = pricing_of_id (normalize_pricing_model_id t model)

abbrev not_negative_count : ℤ → ℕ
not_negative_count (pos n) = n
not_negative_count (negsuc n) = 0

unfoldable pub count : Conversions → Value → ℕ
count c (int n) = not_negative_count (int_or_zero (c.int_of_float n))
count c (decimal m k) = not_negative_count (truncated m k)
count c (str s) = not_negative_count (int_or_zero (c.int_of_text s))
count c _ = 0

abbrev is_null : Value → Bool
is_null null = true
is_null v = false

-- the token counts of a request, as they are given
pub record Tokens : Type 0 where
  pub input_tokens : Value
  pub cached_input_tokens : Value
  pub cache_write_tokens : Value
  pub output_tokens : Value
  pub reasoning_tokens : Value

-- the counts that are billed
pub record Billed : Type 0 where
  pub uncached : ℕ
  pub cached : ℕ
  pub written : ℕ
  pub output : ℕ

unfoldable pub billed : Conversions → Tokens → Billed
unfolding count
billed c t =
    let prompt = count c t.input_tokens in
    let cached = min (count c t.cached_input_tokens) prompt in
    let written = min (count c t.cache_write_tokens) (prompt - cached) in
    record {
      uncached = prompt - cached - written;
      cached = cached;
      written = written;
      output = count c t.output_tokens + count c t.reasoning_tokens;
    }

unfoldable pub cost : TierPrice → Billed → ℕ
cost price b =
    b.uncached * price.input
    + b.cached * price.cached_input
    + b.written * price.cache_write
    + b.output * price.output

abbrev tier_or : Option Tier → Tier → Tier
tier_or none other = other
tier_or (some tier) other = tier

-- `round`: n / k to the nearest whole number, to the even one of two
unfoldable pub round_even : ℕ → ℕ → ℕ
round_even n k =
    let q = n / k in
    if ltb (2 * (n % k)) k
    then q
    else if ltb k (2 * (n % k))
    then q + 1
    else if eqb (q % 2) 0
    then q
    else q + 1

-- the dollars in millionths
unfoldable pub usd_for : Texts → Conversions → Value → Tokens → Option Tier → Option ℕ
unfolding billed cost tier_for round_even
usd_for t c model tokens tier = elim (pricing_for t model) [
  | none ↦ none
  | some p ↦ some (
      round_even
        (cost (price_for p (tier_or tier (tier_for p (count c tokens.input_tokens))))
          (billed c tokens))
        1000)
]

-- the credits in hundredths
unfoldable pub credits_for : Texts → Conversions → Value → Tokens → Option Tier → Option ℕ
credits_for t c model tokens tier = elim (usd_for t c model tokens tier) [
  | none ↦ none
  | some usd ↦ some (round_even usd 100)
]

unfoldable pub pricing_tier : Texts → Conversions → Value → Value → Option Tier
unfolding tier_for
pricing_tier t c model prompt_tokens = elim (pricing_for t model) [
  | none ↦ none
  | some p ↦ some (tier_for p (count c prompt_tokens))
]

unfoldable pub billing_threshold_tokens : Texts → Value → Option ℕ
billing_threshold_tokens t model = elim (pricing_for t model) [
  | none ↦ none
  | some p ↦ elim p.long_context [ none ↦ none | some price ↦ p.threshold_tokens ]
]

pub record Estimate : Type 0 where
  pub estimated_credits : Option ℕ
  pub tier : Option Tier
  pub threshold_tokens : Option ℕ
  -- in ten-thousandths
  pub cache_hit_ratio : Option ℕ

unfoldable pub estimate_usage_credits : Texts → Conversions → Value → Tokens → Value → Estimate
estimate_usage_credits t c model usage largest_prompt_tokens =
    let prompt = count c usage.input_tokens in
    let cached = count c usage.cached_input_tokens in
    let tier_prompt =
      if is_null largest_prompt_tokens then prompt else count c largest_prompt_tokens in
    let tier = pricing_tier t c model (int (pos tier_prompt)) in
    record {
      estimated_credits =
          credits_for t c model
            (record usage {
              input_tokens = int (pos prompt);
              cached_input_tokens = int (pos cached);
            })
            tier;
      tier = tier;
      threshold_tokens = billing_threshold_tokens t model;
      cache_hit_ratio =
          if ltb 0 prompt then some (round_even (min cached prompt * 10_000) prompt) else none;
    }
