-- ===== src/Analysis/Pricing.antt =====
-- The pricing policies of atsuite/analysis/pricing.py.
pub mod Items
use atsuite.Base.{
  ℕ, String, Bool, Option, none, some, List, [], ◌∷◌, ◌++◌, true, false, not, ◌&&◌, ◌||◌, string_eq,
  ◌==◌, if◌then◌else◌,
}
use atsuite.Base.Int.{ℤ, pos}
use atsuite.Base.Json.{Value, null, str, Fields}
use atsuite.Base.Text.{◌&◌, fold_case, starts_with}
use atsuite.Base.Convert.{value_of, or_value, text_of, show_ℤ}
use atsuite.Base.Sets.{elem}
use atsuite.Analysis.Model.{ProviderMetric, StateObservation}
use atsuite.Analysis.Number.{Number, nought, larger, num_at, count_of}
use atsuite.Analysis.Costs.{
  CostLineItem, metric_item, storage_item, if_positive, collect, duration_s, calls_of,
}

-- The classes of policies, named by their `provider`.
pub data Policy : Type 0 where
  no_pricing : Policy
  ali : Policy
  aws_lambda : Policy
  aws_agentcore : Policy
  gcp : Policy
  mcp_gateway : Policy

unfoldable pub policy_provider : Policy → String
policy_provider no_pricing = "none"
policy_provider ali = "ali"
policy_provider aws_lambda = "aws_lambda"
policy_provider aws_agentcore = "aws_agentcore"
policy_provider gcp = "gcp"
policy_provider mcp_gateway = "mcp_gateway"

unfoldable pub policy_currency : Policy → String
policy_currency ali = "CNY"
policy_currency p = "USD"

-- create_pricing_policy
unfoldable pub create_pricing_policy : String → String → Policy
unfolding fold_case starts_with
create_pricing_policy provider observability =
    let key = fold_case provider in
    let obs = fold_case observability in
    if starts_with "ali" key || starts_with "ali" obs
    then ali
    else if key == "aws_agentcore" || starts_with "aws_agentcore" obs
    then aws_agentcore
    else if starts_with "aws" key || starts_with "aws_lambda" obs
    then aws_lambda
    else if starts_with "gcp" key || starts_with "gcp" obs
    then gcp
    else if key == "mcp_gateway" || obs == "mcp_gateway"
    then mcp_gateway
    else no_pricing

module _ (n : Number) where
  open n use {Float, literal, add, sub, mul, div, lt}

  pub record AliParts : Type 0 where
    pub request : Float
    pub cpu : Float
    pub memory : Float
    pub disk : Float

  -- The price of a compute unit by the tier of what is used.
  unfoldable pub ali_factor : Float → Float
  ali_factor cu =
      if not (lt (literal 200000000 0) cu)
      then literal 88 6
      else if not (lt cu (literal 1000000000 0))
      then literal 72 6
      else literal 80 6

  -- AliPricingPolicy._ali_parts for one request, with no idle and no instance time
  unfoldable pub ali_parts : Float → Float → Float → Float → AliParts
  unfolding ali_factor
  ali_parts cpu memory disk active_time_ms =
      let seconds = div active_time_ms (literal 1000 0) in
      let held = div (add active_time_ms (nought n)) (literal 1000 0) in
      let requests = mul (literal 1 0) (literal 75 4) in
      let memory_cu = mul (mul (div memory (literal 1024 0)) held) (literal 15 2) in
      let base = add (add requests (mul cpu seconds)) memory_cu in
      let has_disk = lt (literal 512 0) disk in
      let disk_cu =
        if has_disk
        then mul (mul (div disk (literal 1024 0)) (div (nought n) (literal 1000 0))) (literal 5 2)
        else nought n in
      let factor = ali_factor (if has_disk then add base disk_cu else base) in
      record {
        request = mul requests factor;
        cpu = mul (mul cpu seconds) factor;
        memory = mul memory_cu factor;
        disk = mul disk_cu factor;
      }

  -- The items of a metric in AliPricingPolicy.price.
  unfoldable pub ali_metric : ProviderMetric → List (CostLineItem n)
  unfolding num_at larger ali_parts metric_item policy_currency
  ali_metric m =
      let f = m.fields in
      let active_ms =
        num_at n f "invoker_function_ms"
          (num_at n f "duration_ms" (num_at n f "elapsed_time_ms" (nought n))) in
      let parts =
        ali_parts (num_at n f "cpu" (literal 1 0)) (num_at n f "memory" (literal 1024 0))
          (num_at n f "disk" (literal 512 0)) (larger n (nought n) active_ms) in
      let item = λ (category : String) (amount : Float). if_positive n (
        metric_item n category "ali" (policy_currency ali) amount m
          ("Ali FC " & category & " from active_ms=" & n.fixed 3 active_ms)) in
      item "request" parts.request
      ++ (item "cpu" parts.cpu ++ (item "memory" parts.memory ++ item "disk" parts.disk))

  unfoldable pub ali_state : StateObservation → List (CostLineItem n)
  unfolding duration_s calls_of storage_item policy_currency
  ali_state obs =
      let size = n.millionths obs.size_gb in
      let amount =
        add (mul (mul (literal 463 10) size) (duration_s n obs))
          (mul (literal 1 2) (div (calls_of n obs) (literal 10000 0))) in
      if_positive n (
        storage_item n "ali" (policy_currency ali) amount "oss" (
          "OSS "
          & n.fixed 6 size
          & "GB * "
          & n.fixed 2 (duration_s n obs)
          & "s + "
          & show_ℤ (count_of obs.operation_count)
          & " ops"))

  -- The items of a metric in AWSLambdaPricingPolicy.price.
  unfoldable pub lambda_metric : ProviderMetric → List (CostLineItem n)
  unfolding num_at larger metric_item policy_currency
  lambda_metric m =
      let f = m.fields in
      let billed_ms =
        add
          (num_at n f "billed_duration_ms"
            (num_at n f "duration_ms" (num_at n f "elapsed_time_ms" (nought n))))
          (num_at n f "init_duration_ms" (nought n)) in
      let memory_mb =
        larger n (literal 128 0)
          (num_at n f "memory" (num_at n f "memory_limit_mb" (literal 1024 0))) in
      let disk_mb = num_at n f "disk" (literal 512 0) in
      let seconds = div billed_ms (literal 1000 0) in
      let duration_cost = mul (mul (div memory_mb (literal 1024 0)) seconds) (literal 166667 10) in
      let storage_cost =
        if lt (literal 512 0) disk_mb
        then mul (mul (div (sub disk_mb (literal 512 0)) (literal 1024 0)) seconds) (literal 309 13)
        else nought n in
      metric_item n "request" "aws_lambda" (policy_currency aws_lambda) (literal 2 7) m
        "Lambda request"
      ∷ metric_item n "memory" "aws_lambda" (policy_currency aws_lambda) duration_cost m
          ("Lambda " & n.shown memory_mb & "MB * " & n.fixed 3 billed_ms & "ms")
      ∷ if_positive n (
          metric_item n "storage" "aws_lambda" (policy_currency aws_lambda) storage_cost m
            ("Lambda ephemeral storage " & n.shown disk_mb & "MB"))

  unfoldable pub lambda_state : StateObservation → List (CostLineItem n)
  unfolding duration_s calls_of storage_item policy_currency
  lambda_state obs =
      let size = n.millionths obs.size_gb in
      let storage_cost =
        mul (mul size (literal 23 3)) (div (duration_s n obs) (literal 2592000 0)) in
      let count = mul (calls_of n obs) (literal 2 0) in
      let api_cost =
        add (mul count (div (literal 5 3) (literal 1000 0)))
          (mul count (div (literal 4 4) (literal 1000 0))) in
      if_positive n (
        storage_item n "aws_lambda" (policy_currency aws_lambda) (add storage_cost api_cost) "s3" (
          "S3 "
          & n.fixed 6 size
          & "GB * "
          & n.fixed 2 (duration_s n obs)
          & "s + "
          & n.fixed 0 count
          & " ops"))

  -- `obs.provider in (...)` and the two loops of a policy
  unfoldable pub price_with :
      String
      → (ProviderMetric → List (CostLineItem n))
      → List String
      → (StateObservation → List (CostLineItem n))
      → List ProviderMetric
      → List StateObservation
      → List (CostLineItem n)
  unfolding collect elem
  price_with provider of_metric providers of_state metrics state =
      collect n (λ m. m.provider == provider) of_metric metrics
      ++ collect n (λ o. elem providers o.provider) of_state state

  unfoldable pub lambda_price : List ProviderMetric → List StateObservation → List (CostLineItem n)
  unfolding price_with lambda_metric lambda_state
  lambda_price metrics state =
      price_with "aws_lambda" lambda_metric ("aws" ∷ "aws_lambda" ∷ "aws_agentcore" ∷ [])
        lambda_state metrics state

  -- The items of a usage metric in AWSAgentCorePricingPolicy.price.
  unfoldable pub agentcore_metric : ProviderMetric → List (CostLineItem n)
  unfolding num_at metric_item policy_currency value_of or_value text_of
  agentcore_metric m =
      let vcpu = num_at n m.fields "vcpu_hours" (nought n) in
      let memory = num_at n m.fields "memory_gb_hours" (nought n) in
      let runtime_name = text_of (or_value (value_of m.fields "runtime_name" null) (str "")) in
      let item = λ (category : String) (amount : Float) (formula : String).
        if_positive n
          (record (metric_item n category "aws_agentcore" (policy_currency aws_agentcore) amount m
            formula) { resource_id = runtime_name; node_id = none; invocation_call_id = "" }) in
      item "cpu" (mul vcpu (literal 895 4)) (n.fixed 10 vcpu & " vCPU-h * 0.0895")
      ++ item "memory" (mul memory (literal 945 5)) (n.fixed 10 memory & " GB-h * 0.00945")

  -- `if item.provider == "aws_lambda": item.provider = "aws_agentcore"`
  unfoldable pub rename_items : List (CostLineItem n) → List (CostLineItem n)
  rename_items [] = []
  rename_items (item ∷ items) =
      (if item.provider == "aws_lambda" then record item { provider = "aws_agentcore" } else item)
      ∷ rename_items items

  unfoldable pub agentcore_price :
      List ProviderMetric → List StateObservation → List (CostLineItem n)
  unfolding collect agentcore_metric lambda_price rename_items
  agentcore_price metrics state = rename_items (
      collect n (λ m. m.provider == "aws_agentcore" && m.source == "agentcore_usage")
        agentcore_metric metrics
      ++ lambda_price [] state)

  -- The items of a metric in GCPPricingPolicy.price, with `_parts`.
  unfoldable pub gcp_metric : ProviderMetric → List (CostLineItem n)
  unfolding num_at larger metric_item policy_currency
  gcp_metric m =
      let f = m.fields in
      let elapsed_ms = num_at n f "elapsed_time_ms" (num_at n f "duration_ms" (nought n)) in
      let cpu = larger n (nought n) (num_at n f "cpu" (literal 1 0)) in
      let memory_mb =
        larger n (nought n) (num_at n f "memory" (num_at n f "memory_mb" (literal 1024 0))) in
      let seconds =
        mul (n.ceil (div (larger n (nought n) elapsed_ms) (literal 100 0))) (literal 1 1) in
      let item = λ (category : String) (amount : Float).
        metric_item n category "gcp" (policy_currency gcp) amount m
          ("GCP Cloud Run " & category & ", billed=" & n.fixed 3 seconds & "s") in
      item "cpu" (mul (mul seconds cpu) (literal 24 6))
      ∷ item "memory" (mul (mul seconds (div memory_mb (literal 1024 0))) (literal 25 7))
      ∷ item "request" (div (literal 40 2) (literal 1000000 0))
      ∷ []

  unfoldable pub gcp_state : StateObservation → List (CostLineItem n)
  unfolding duration_s calls_of storage_item policy_currency
  gcp_state obs =
      let size = n.millionths obs.size_gb in
      let rate = div (literal 20 3) (literal 2592000 0) in
      let storage_cost = mul (mul size (duration_s n obs)) rate in
      let op_cost = mul (calls_of n obs) (div (literal 5 3) (literal 10000 0)) in
      if_positive n (
        storage_item n "gcp" (policy_currency gcp) (add storage_cost op_cost) "cloud_storage" (
          "GCS "
          & n.fixed 6 size
          & "GB * "
          & n.fixed 2 (duration_s n obs)
          & "s + "
          & show_ℤ obs.operation_count
          & " ops"))

  -- `price` of each policy
  unfoldable pub price :
      Policy → List ProviderMetric → List StateObservation → List (CostLineItem n)
  unfolding price_with ali_metric ali_state lambda_price agentcore_price gcp_metric gcp_state
  price ali metrics state =
      price_with "ali" ali_metric ("ali" ∷ "ali_fc" ∷ "ali_agentrun" ∷ []) ali_state metrics state
  price aws_lambda metrics state = lambda_price metrics state
  price aws_agentcore metrics state = agentcore_price metrics state
  price gcp metrics state =
      price_with "gcp" gcp_metric ("gcp" ∷ "gcp_faas" ∷ "gcp_mcp" ∷ []) gcp_state metrics state
  price no_pricing metrics state = []
  price mcp_gateway metrics state = []
