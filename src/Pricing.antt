-- ===== src/Pricing.antt =====
-- app/pricing.py, and the cost of a request in app/main.py (`provider_cost_breakdown`).
-- A price is a whole number of units of 10 ^ -10 per million tokens, and a cost is counted in
-- millionths of that unit, so `tokens / 1_000_000 * price` is the product. A pricing entry is never
-- an empty dict here: `reload_registry` builds each one with both prices.
pub mod Laws
pub mod Tests
use prismux.Prelude.{
  ℕ, Bool, true, false, Option, none, some, List, [], ◌∷◌, ◌==◌, if◌then◌else◌, Dict, lookup, Str,
  text, text_eq, pair_eq, ℤ, pos, ◌+ℤ◌, ◌*ℤ◌,
}

pub record Rates : Type 0 where
  pub input_per_1m : ℕ
  pub output_per_1m : ℕ

abbrev pub default_entry : Rates
default_entry = record { input_per_1m = 0; output_per_1m = 0 }

-- `tokens or 0`
abbrev pub tokens_or_zero : Option ℤ → ℤ
tokens_or_zero none = pos 0
tokens_or_zero (some n) = n

-- `a or b or c` for the three places where an entry is looked for.
abbrev pub first_entry : Option Rates → Option Rates → Option Rates
first_entry (some r) s = some r
first_entry none s = s

abbrev pub entry_or : Option Rates → Rates → Rates
entry_or none r = r
entry_or (some s) r = s

abbrev pub cost_at : Rates → ℤ → ℤ → ℤ
cost_at r prompt completion = (prompt *ℤ pos r.input_per_1m) +ℤ (completion *ℤ pos r.output_per_1m)

unfoldable pub estimate_cost : Dict Str Rates → Str → Option ℤ → Option ℤ → ℤ
estimate_cost pricing model prompt_tokens completion_tokens =
    let entry =
      entry_or (first_entry (lookup model pricing) (lookup (text "default") pricing))
        default_entry in
    cost_at entry (tokens_or_zero prompt_tokens) (tokens_or_zero completion_tokens)

pub record Breakdown : Type 0 where
  pub priced : Bool
  pub input : Option ℤ
  pub output : Option ℤ
  pub total : Option ℤ

abbrev pub unpriced : Breakdown
unpriced = record { priced = false; input = none; output = none; total = none }

abbrev pub charge : Option ℤ → ℕ → Option ℤ
charge none price = none
charge (some n) price = some (n *ℤ pos price)

abbrev pub add_costs : Option ℤ → Option ℤ → Option ℤ
add_costs (some a) (some b) = some (a +ℤ b)
add_costs _ _ = none

abbrev pub breakdown_at : Option Rates → Option ℤ → Option ℤ → Breakdown
breakdown_at none prompt completion = unpriced
breakdown_at (some r) prompt completion =
    let input_cost = charge prompt r.input_per_1m in
    let output_cost = charge completion r.output_per_1m in
    record {
      priced = true;
      input = input_cost;
      output = output_cost;
      total = add_costs input_cost output_cost;
    }

-- `app.state.provider_pricing`
abbrev pub Prices : Type 0
Prices = Dict (Str × Str) Rates

unfoldable pub provider_cost_breakdown : Prices → Str → Str → Option ℤ → Option ℤ → Breakdown
provider_cost_breakdown prices provider_id model prompt completion =
    breakdown_at
      (first_entry (lookup (provider_id, model) prices)
        (lookup (provider_id, text "default") prices))
      prompt completion

-- `app.state.pricing`: the prices of the default provider.
unfoldable pub pricing_of : Str → Prices → Dict Str Rates
pricing_of default_id [] = []
pricing_of default_id (((provider_id, model), rates) ∷ prices) =
    let rest = pricing_of default_id prices in
    if provider_id == default_id then (model, rates) ∷ rest else rest

-- `float(provider_cost_breakdown(...)["total"] or 0)`
unfoldable pub provider_cost : Prices → Str → Str → Option ℤ → Option ℤ → ℤ
provider_cost prices provider_id model prompt completion =
    tokens_or_zero (provider_cost_breakdown prices provider_id model prompt completion).total
