-- ===== src/Pricing/Costs.antt =====
-- The counts that copilot_pricing.py bills, and the prices of its two tiers.
use engineering_flow_platfor.Base.Interpreter.{Conversions, Texts}
use engineering_flow_platfor.Base.{
  ℕ, ◌+◌, ◌≤◌, ◌≡◌, refl, inl, inr, true, Option, none, some, arith, nat_eq, string_eq, pair_eq,
  Bool-cases, Option-cases, All, lookup-All,
}
use engineering_flow_platfor.Base.Value.{Value}
use native.Mathlib.Nat.{mul-le-mul_left}
use engineering_flow_platfor.Pricing.{
  TierPrice, ModelPricing, default_tier, long_context_tier, is_above, tier_for, price_for,
  copilot_model_pricing, normalize_pricing_model_id, pricing_for, count, Tokens, Billed, billed,
  cost,
}

-- The tokens of the prompt are billed once each, as cached, as written to the cache or as plain input:
-- the three counts sum up to the prompt, and no more is cached or written than was counted.
pub billed_lem :
    (c : Conversions) (t : Tokens)
    → ((billed c t).uncached + (billed c t).cached + (billed c t).written ≡ count c t.input_tokens)
      × ((billed c t).cached ≤ count c t.cached_input_tokens)
      × ((billed c t).written ≤ count c t.cache_write_tokens)
      × ((billed c t).output ≡ count c t.output_tokens + count c t.reasoning_tokens)
unfolding billed
billed_lem c t = (omega arith, omega arith, omega arith, refl)

-- Each price of the first is at most that of the second.
pub record IsCheaper (p q : TierPrice) : Type 0 where
  pub input : p.input ≤ q.input
  pub cached_input : p.cached_input ≤ q.cached_input
  pub cache_write : p.cache_write ≤ q.cache_write
  pub output : p.output ≤ q.output

cost_mono : (p q : TierPrice) (b : Billed) → IsCheaper p q → cost p b ≤ cost q b
unfolding cost
cost_mono p q b h = omega (
  arith,
  mul-le-mul_left b.uncached h.input,
  mul-le-mul_left b.cached h.cached_input,
  mul-le-mul_left b.written h.cache_write,
  mul-le-mul_left b.output h.output,
)

cheaper :
    (i c w o i' c' w' o' : ℕ)
    → i ≤ i'
    → c ≤ c'
    → w ≤ w'
    → o ≤ o'
    → IsCheaper
        (record { input = i; cached_input = c; cache_write = w; output = o })
        (record { input = i'; cached_input = c'; cache_write = w'; output = o' })
cheaper i c w o i' c' w' o' hi hc hw ho = record {
  input = hi;
  cached_input = hc;
  cache_write = hw;
  output = ho;
}

TableIsCheaper : Type 0
TableIsCheaper =
    All (λ e. IsCheaper (price_for e.1 default_tier) (price_for e.1 long_context_tier))
      copilot_model_pricing

table-TableIsCheaper : TableIsCheaper
unfolding TableIsCheaper
table-TableIsCheaper = (
  cheaper 2000 100 2500 10000 4000 200 5000 15000 (omega arith) (omega arith) (omega arith)
      (omega arith),
  (
    cheaper 2000 200 2500 10000 4000 400 5000 15000 (omega arith) (omega arith) (omega arith)
        (omega arith),
    (
      cheaper 100 10 125 500 200 20 250 750 (omega arith) (omega arith) (omega arith) (omega arith),
      (
        cheaper 10000 1000 12500 50000 20000 2000 25000 75000 (omega arith) (omega arith)
            (omega arith) (omega arith),
        (
          cheaper 1000 50 1250 5000 2000 100 2500 7500 (omega arith) (omega arith) (omega arith)
              (omega arith),
          (
            cheaper 4000 400 5000 20000 8000 800 10000 30000 (omega arith) (omega arith)
                (omega arith) (omega arith),
            (
              cheaper 2000 200 2500 12000 4000 400 5000 18000 (omega arith) (omega arith)
                  (omega arith) (omega arith),
              (
                cheaper 200 20 250 1200 400 40 500 1800 (omega arith) (omega arith) (omega arith)
                    (omega arith),
                tt,
              ),
            ),
          ),
        ),
      ),
    ),
  ),
)

pricing_for-In :
    (t : Texts) (model : Value) (p : ModelPricing)
    → pricing_for t model ≡ some p
    → IsCheaper (price_for p default_tier) (price_for p long_context_tier)
unfolding pricing_for TableIsCheaper
pricing_for-In t model p h = elim (Option-cases (normalize_pricing_model_id t model)) [
  | inl unknown ↦ absurd (ground (arith, rw unknown at h))
  | inr (id, e) ↦
      lookup-All (λ p. IsCheaper (price_for p default_tier) (price_for p long_context_tier)) id p
        copilot_model_pricing table-TableIsCheaper (rw e at h)
]

is_above_mono :
    (price : Option TierPrice) (threshold : Option ℕ) (m n : ℕ)
    → m ≤ n
    → is_above price threshold m ≡ true
    → is_above price threshold n ≡ true
is_above_mono (some price) (some threshold) m n le h = ground (arith, le, h)
is_above_mono none threshold m n le h = h
is_above_mono (some price) none m n le h = h

tier_for_mono :
    (p : ModelPricing) (m n : ℕ)
    → m ≤ n
    → tier_for p m ≡ long_context_tier
    → tier_for p n ≡ long_context_tier
unfolding tier_for
tier_for_mono p m n le long = elim (Bool-cases (is_above p.long_context p.threshold_tokens m)) [
  | inl above ↦ rw (is_above_mono p.long_context p.threshold_tokens m n le above) refl
  | inr below ↦ absurd (ground (arith, rw below at long))
]

-- For every model of the table: the long context is billed for every prompt above one that it is
-- billed for, and whatever the counts are, it costs at least as much as the default.
pub long_context_costs_more :
    (t : Texts) (model : Value) (p : ModelPricing)
    → pricing_for t model ≡ some p
    → ((m n : ℕ) → m ≤ n → tier_for p m ≡ long_context_tier → tier_for p n ≡ long_context_tier)
      × ((b : Billed) → cost (price_for p default_tier) b ≤ cost (price_for p long_context_tier) b)
long_context_costs_more t model p h = (
  tier_for_mono p,
  λ b.
      cost_mono (price_for p default_tier) (price_for p long_context_tier) b
        (pricing_for-In t model p h),
)
