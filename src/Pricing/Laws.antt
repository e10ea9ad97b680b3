-- ===== src/Pricing/Laws.antt =====
-- What the costs of app/pricing.py and app/main.py add up to.
use prismux.Prelude.{
  ◌≡◌, refl, ◌⊎◌, inl, inr, true, false, sym, Option, none, some, lookup, Str, text, text_eq,
  pair_eq, ℤ, pos, ◌+ℤ◌, ◌*ℤ◌, *ℤ-zero, pair_beq, [], ◌∷◌, arith, Option-cases,
}
use prismux.Pricing.{
  Rates, Prices, Breakdown, first_entry, tokens_or_zero, default_entry, breakdown_at, pricing_of,
  entry_or, estimate_cost, provider_cost_breakdown, provider_cost, cost_at,
}

-- A provider has a price for a model when it lists the model, or a default.
pub data PricedAt (prices : Prices) (provider_id model : Str) (r : Rates) : Type 0 where
  by_model : lookup (provider_id, model) prices ≡ some r → PricedAt prices provider_id model r
  by_default :
      lookup (provider_id, model) prices ≡ none
      → lookup (provider_id, text "default") prices ≡ some r
      → PricedAt prices provider_id model r

-- What a request costs at the rates `r`.
pub record IsChargedAt (r : Rates) (prompt completion : Option ℤ) (b : Breakdown) : Type 0 where
  pub marked : b.priced ≡ true
  pub input : (n : ℤ) → prompt ≡ some n → b.input ≡ some (n *ℤ pos r.input_per_1m)
  pub no_input : prompt ≡ none → b.input ≡ none
  pub output : (n : ℤ) → completion ≡ some n → b.output ≡ some (n *ℤ pos r.output_per_1m)
  pub no_output : completion ≡ none → b.output ≡ none
  pub total :
      (m n : ℤ)
      → prompt ≡ some m
      → completion ≡ some n
      → b.total ≡ some ((m *ℤ pos r.input_per_1m) +ℤ (n *ℤ pos r.output_per_1m))
  pub no_total : (prompt ≡ none) ⊎ (completion ≡ none) → b.total ≡ none

-- A request that costs nothing because nothing has a price.
pub record IsFree (b : Breakdown) : Type 0 where
  pub unmarked : b.priced ≡ false
  pub no_input : b.input ≡ none
  pub no_output : b.output ≡ none
  pub no_total : b.total ≡ none

breakdown_at-IsChargedAt :
    (r : Rates) (prompt completion : Option ℤ)
    → IsChargedAt r prompt completion (breakdown_at (some r) prompt completion)
breakdown_at-IsChargedAt r none none = record {
  marked = refl;
  input = λ n e. cc e;
  no_input = λ e. refl;
  output = λ n e. cc e;
  no_output = λ e. refl;
  total = λ m n e f. cc e;
  no_total = λ e. refl;
}
breakdown_at-IsChargedAt r none (some c) = record {
  marked = refl;
  input = λ n e. cc e;
  no_input = λ e. refl;
  output = λ n e. cc e;
  no_output = λ e. cc e;
  total = λ m n e f. cc e;
  no_total = λ e. refl;
}
breakdown_at-IsChargedAt r (some p) none = record {
  marked = refl;
  input = λ n e. cc e;
  no_input = λ e. cc e;
  output = λ n e. cc e;
  no_output = λ e. refl;
  total = λ m n e f. cc f;
  no_total = λ e. refl;
}
breakdown_at-IsChargedAt r (some p) (some c) = record {
  marked = refl;
  input = λ n e. cc e;
  no_input = λ e. cc e;
  output = λ n e. cc e;
  no_output = λ e. cc e;
  total = λ m n e f. cc (e, f);
  no_total = λ e. elim e [ inl h ↦ cc h | inr h ↦ cc h ];
}

-- A request is unpriced, with no costs, exactly when its provider lists neither the model nor a
-- default; otherwise each known token count is charged at the entry found, the model's own before
-- the default, an unknown one is not charged, and there is a total exactly when both counts are
-- known: the sum of the two charges.
pub provider_cost_breakdown-cases :
    (prices : Prices) (provider_id model : Str) (prompt completion : Option ℤ)
    → ((lookup (provider_id, model) prices ≡ none)
        × (lookup (provider_id, text "default") prices ≡ none)
        × IsFree (provider_cost_breakdown prices provider_id model prompt completion))
      ⊎ ((r : Rates) × PricedAt prices provider_id model r
          × IsChargedAt r prompt completion
              (provider_cost_breakdown prices provider_id model prompt completion))
unfolding provider_cost_breakdown
provider_cost_breakdown-cases prices provider_id model prompt completion =
    elim (Option-cases (lookup (provider_id, model) prices)) [
      | inr (r, e) ↦ inr (r, by_model e, rw e (breakdown_at-IsChargedAt r prompt completion))
      | inl e ↦ elim (Option-cases (lookup (provider_id, text "default") prices)) [
        | inl d ↦ inl (
          e,
          d,
          rw (e, d)
              (record { unmarked = refl; no_input = refl; no_output = refl; no_total = refl }),
        )
        | inr (r, d) ↦
            inr (r, by_default e d, rw (e, d) (breakdown_at-IsChargedAt r prompt completion))
      ]
    ]

lookup-pricing_of :
    (default_id model : Str) (prices : Prices)
    → lookup model (pricing_of default_id prices) ≡ lookup (default_id, model) prices
unfolding pricing_of lookup pair_beq
lookup-pricing_of default_id model [] = refl
lookup-pricing_of default_id model (((p, m), r) ∷ prices) =
    ground (arith, lookup-pricing_of default_id model prices)

no_cost : (a b : ℤ) → pos 0 ≡ (a *ℤ pos 0) +ℤ (b *ℤ pos 0)
unfolding ◌+ℤ◌
no_cost a b = rw (*ℤ-zero a, *ℤ-zero b)

agree :
    (found : Option Rates) (prompt completion : ℤ)
    → tokens_or_zero (breakdown_at found (some prompt) (some completion)).total
      ≡ cost_at (entry_or found default_entry) prompt completion
agree none prompt completion = no_cost prompt completion
agree (some r) prompt completion = refl

no_total_cost :
    (found : Option Rates) (completion : Option ℤ)
    → (tokens_or_zero (breakdown_at found none completion).total ≡ pos 0)
      × (tokens_or_zero (breakdown_at found completion none).total ≡ pos 0)
no_total_cost none c = (refl, refl)
no_total_cost (some r) none = (refl, refl)
no_total_cost (some r) (some n) = (refl, refl)

estimate-agree :
    (prices : Prices) (default_id model : Str) (prompt completion : Option ℤ)
    → estimate_cost (pricing_of default_id prices) model prompt completion
      ≡ provider_cost prices default_id model
          (some (tokens_or_zero prompt))
          (some (tokens_or_zero completion))
unfolding provider_cost provider_cost_breakdown estimate_cost
estimate-agree prices default_id model prompt completion =
    rw
      (
        lookup-pricing_of default_id model prices,
        lookup-pricing_of default_id (text "default") prices,
      )
      (sym (
        agree
          (first_entry (lookup (default_id, model) prices)
            (lookup (default_id, text "default") prices))
          (tokens_or_zero prompt) (tokens_or_zero completion)))

-- The costs of a request to the default provider, by the token counts that are known.
abbrev pub Agree : Prices → Str → Str → Option ℤ → Option ℤ → Type 0
Agree prices default_id model (some prompt) (some completion) =
    provider_cost prices default_id model (some prompt) (some completion)
    ≡ estimate_cost (pricing_of default_id prices) model (some prompt) (some completion)
Agree prices default_id model none completion =
    (provider_cost prices default_id model none completion ≡ pos 0)
    × (estimate_cost (pricing_of default_id prices) model none completion
        ≡ provider_cost prices default_id model (some (pos 0)) (some (tokens_or_zero completion)))
Agree prices default_id model (some prompt) none =
    (provider_cost prices default_id model (some prompt) none ≡ pos 0)
    × (estimate_cost (pricing_of default_id prices) model (some prompt) none
        ≡ provider_cost prices default_id model (some prompt) (some (pos 0)))

-- Over the prices that the registry keeps of its default provider, and for any model:
-- `estimate_cost` gives for two known token counts what `provider_cost` gives for that provider
-- from the full price table. Where a count is unknown the two differ: `provider_cost` is zero, and
-- `estimate_cost` is what `provider_cost` gives with zero for the unknown count.
pub provider_cost-default :
    (prices : Prices) (default_id model : Str) (prompt completion : Option ℤ)
    → Agree prices default_id model prompt completion
provider_cost-default prices default_id model (some prompt) (some completion) =
    sym (estimate-agree prices default_id model (some prompt) (some completion))
provider_cost-default prices default_id model none none = (
  unfold provider_cost provider_cost_breakdown in (no_total_cost _ none).0,
  estimate-agree prices default_id model none none,
)
provider_cost-default prices default_id model none (some n) = (
  unfold provider_cost provider_cost_breakdown in (no_total_cost _ (some n)).0,
  estimate-agree prices default_id model none (some n),
)
provider_cost-default prices default_id model (some n) none = (
  unfold provider_cost provider_cost_breakdown in (no_total_cost _ (some n)).1,
  estimate-agree prices default_id model (some n) none,
)
