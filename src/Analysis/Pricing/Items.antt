-- ===== src/Analysis/Pricing/Items.antt =====
-- The items of the pricing policies (atsuite/analysis/pricing.py).
use atsuite.Base.{String, ◌≡◌, ◌⊎◌, none, List, string_eq, In}
use atsuite.Analysis.Model.{ProviderMetric}
use atsuite.Analysis.Number.{Number}
use atsuite.Analysis.Costs.{CostLineItem}

module _ (n : Number) where
  -- The item has this provider and currency, and the node of a metric of the provider or none.
  pub record Charges (provider currency : String) (metrics : List ProviderMetric)
      (item : CostLineItem n) : Type 0 where
    pub by : item.provider ≡ provider
    pub in_currency : item.currency ≡ currency
    pub to_node :
        (item.node_id ≡ none)
        ⊎ ((m : ProviderMetric) × In m metrics
            × (m.provider ≡ provider)
            × (item.node_id ≡ m.node_id))

  module _ (metrics : List ProviderMetric) where
    abbrev ChargesFor : String → String → CostLineItem n → Type 0
    ChargesFor provider currency = Charges provider currency metrics

  -- An item of AgentCore before it is renamed.
  record IsUsage (item : CostLineItem n) : Type 0 where
    by : (item.provider ≡ "aws_lambda") ⊎ (item.provider ≡ "aws_agentcore")
    in_currency : item.currency ≡ "USD"
    no_node : item.node_id ≡ none
