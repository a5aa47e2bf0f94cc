-- ===== src/Analysis/Costs.antt =====
-- A cost item of the pricing policies (atsuite/analysis/pricing.py), and the steps that they share.
use atsuite.Base.{ℕ, String, Bool, Option, none, List, [], ◌∷◌, ◌++◌, string_eq, if◌then◌else◌}
use atsuite.Analysis.Model.{ProviderMetric, StateObservation}
use atsuite.Analysis.Number.{Number, nought, larger, count_of}

module _ (n : Number) where
  open n use {Float, literal, add, sub, mul, div, lt}

  -- The fields that the policies fill.
  pub record CostLineItem : Type 0 where
    pub category : String
    pub provider : String
    pub amount : Float
    pub currency : String
    pub resource_id : String
    pub node_id : Option ℕ
    pub invocation_call_id : String
    pub formula : String

  -- An item of a metric, and one of a storage, in the currency of the policy, `self.currency`.
  unfoldable pub metric_item :
      String → String → String → Float → ProviderMetric → String → CostLineItem
  metric_item category provider currency amount metric formula = record {
    category = category;
    provider = provider;
    amount = amount;
    currency = currency;
    resource_id = "";
    node_id = metric.node_id;
    invocation_call_id = metric.invocation_call_id;
    formula = formula;
  }

  unfoldable pub storage_item : String → String → Float → String → String → CostLineItem
  storage_item provider currency amount resource formula = record {
    category = "storage";
    provider = provider;
    amount = amount;
    currency = currency;
    resource_id = resource;
    node_id = none;
    invocation_call_id = "";
    formula = formula;
  }

  -- `[item] if amount > 0 else []`
  unfoldable pub if_positive : CostLineItem → List CostLineItem
  if_positive item = if lt (nought n) item.amount then item ∷ [] else []

  -- `for x in xs: if test: items.extend(...)`
  unfoldable pub collect {ℓ} :
      {A : Type ℓ} → (A → Bool) → (A → List CostLineItem) → List A → List CostLineItem
  collect test make [] = []
  collect test make (x ∷ xs) = (if test x then make x else []) ++ collect test make xs

  -- How long a state was kept, in seconds.
  unfoldable pub duration_s : StateObservation → Float
  unfolding larger
  duration_s obs =
      larger n (nought n) (sub (n.millionths obs.ended_at) (n.millionths obs.started_at))

  unfoldable pub calls_of : StateObservation → Float
  unfolding count_of
  calls_of obs = n.whole (count_of obs.operation_count)
