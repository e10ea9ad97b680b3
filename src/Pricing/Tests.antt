-- ===== src/Pricing/Tests.antt =====
-- The costs of app/pricing.py and app/main.py at concrete inputs.
use prismux.Prelude.{
  ◌≡◌, refl, ◌⊎◌, some, none, [], ◌∷◌, lookup, text, text_eq, pair_eq, list_beq, pair_beq, pos,
  ◌+ℤ◌, ◌*ℤ◌,
}
use prismux.Pricing.{Rates, Prices, provider_cost_breakdown, provider_cost}
use prismux.Pricing.Laws.{
  PricedAt, IsFree, IsChargedAt, Agree, provider_cost_breakdown-cases, provider_cost-default,
}

abbrev rates : Rates
rates = record { input_per_1m = 3; output_per_1m = 15 }

abbrev prices : Prices
prices = ((text "openai", text "default"), rates) ∷ []

default_price :
    provider_cost prices (text "openai") (text "gpt") (some (pos 100)) (some (pos 20)) ≡ pos 600
unfolding provider_cost provider_cost_breakdown lookup pair_beq list_beq text ◌+ℤ◌ ◌*ℤ◌
default_price = refl

provider_cost_breakdown-cases_example :
    ((lookup (text "openai", text "gpt") prices ≡ none)
      × (lookup (text "openai", text "default") prices ≡ none)
      × IsFree (provider_cost_breakdown prices (text "openai") (text "gpt") (some (pos 1)) none))
    ⊎ ((r : Rates) × PricedAt prices (text "openai") (text "gpt") r
        × IsChargedAt r
            (some (pos 1))
            none
            (provider_cost_breakdown prices (text "openai") (text "gpt") (some (pos 1)) none))
provider_cost_breakdown-cases_example =
    provider_cost_breakdown-cases prices (text "openai") (text "gpt") (some (pos 1)) none

provider_cost-default_example : Agree prices (text "openai") (text "gpt") (some (pos 100)) none
provider_cost-default_example =
    provider_cost-default prices (text "openai") (text "gpt") (some (pos 100)) none
