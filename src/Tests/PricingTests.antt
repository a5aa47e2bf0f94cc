-- ===== src/Tests/PricingTests.antt =====
-- Tests of the pricing policies (atsuite/analysis/pricing.py), with numbers that are counted in units.
use atsuite.Base.{
  ℕ, String, ◌≡◌, refl, ◌+◌, ◌-◌, ◌*◌, none, some, List, [], ◌∷◌, string_eq, ltb, map,
}
use atsuite.Base.Int.{ℤ, pos, negsuc}
use atsuite.Base.Json.{end}
use atsuite.Base.Text.{show}
use atsuite.Analysis.Model.{ProviderMetric, StateObservation}
use atsuite.Analysis.Number.{Number}
use atsuite.Analysis.Costs.{CostLineItem, if_positive}
use atsuite.Analysis.Pricing.{gcp, price}

natural : ℤ → ℕ
natural (pos k) = k
natural (negsuc k) = 0

-- Numbers without fractions.
abbrev units : Number
units = record {
  Float = ℕ;
  literal = λ n k. n;
  add = λ a b. a + b;
  sub = λ a b. a - b;
  mul = λ a b. a * b;
  div = λ a b. a;
  lt = ltb;
  ceil = λ a. a;
  float = λ v. none;
  millionths = natural;
  whole = natural;
  round = λ a k. a;
  fixed = λ k a. show a;
  shown = show;
}

abbrev run_metric : ProviderMetric
run_metric = record {
  metric_id = "m";
  provider = "gcp";
  source = "logs";
  node_id = some 4;
  invocation_call_id = "c";
  provider_request_id = "q";
  fields = end;
  evidence_refs = [];
}

-- A metric of another provider is not priced.
abbrev other_metric : ProviderMetric
other_metric = record run_metric { provider = "ali" }

abbrev uploaded : StateObservation
uploaded = record {
  uid = "u";
  provider = "gcp_faas";
  operation = "upload";
  services = "disk" ∷ [];
  size_gb = pos 2;
  operation_count = pos 1;
  started_at = pos 0;
  ended_at = pos 9;
  metadata = end;
}

abbrev run_metrics : List ProviderMetric
run_metrics = run_metric ∷ other_metric ∷ []

abbrev categories : List (CostLineItem units) → List String
categories items = map (λ i. i.category) items

price_test :
    categories (price units gcp run_metrics (uploaded ∷ []))
    ≡ "cpu" ∷ "memory" ∷ "request" ∷ "storage" ∷ []
unfolding price string_eq if_positive natural
price_test = refl
