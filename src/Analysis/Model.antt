-- ===== src/Analysis/Model.antt =====
-- The records of atsuite/analysis/model.py and their JSON. Times are microseconds, other floats
-- millionths; a node id below zero is refused.
pub mod RoundTrip
use atsuite.Base.{ℕ, String, Bool, Option, none, some, List, [], ◌∷◌, map}
use atsuite.Base.Int.{ℤ, pos, negsuc}
use atsuite.Base.Json.{Value, null, int, float, str, arr, obj, Items, nil, cons, Fields, end, field}
use atsuite.Base.Convert.{value_of, or_value, text_of, text_field, int_of, float_of, iterate}
use atsuite.Result.{Result, ok, err, ◌>>=◌, not_a_number, wrong_type, negative_id}
use atsuite.Pipeline.Configs.{fields_of, list_of}

-- A list of texts in JSON.
unfoldable pub texts : List String → Items
texts [] = nil
texts (t ∷ ts) = cons (str t) (texts ts)

unfoldable pub optional_id : Option ℕ → Value
optional_id none = null
optional_id (some n) = int (pos n)

-- `float(d.get(k, 0.0) or 0.0)`
unfoldable pub float_or_zero : Fields → String → Result ℤ
unfolding value_of or_value float_of
float_or_zero d k = elim (float_of (or_value (value_of d k (float (pos 0))) (float (pos 0)))) [
  | none ↦ err not_a_number
  | some z ↦ ok z
]

-- `int(d.get(k, 0) or 0)`
unfoldable pub int_or_zero : Fields → String → Result ℤ
unfolding value_of or_value int_of
int_or_zero d k = elim (int_of (or_value (value_of d k (int (pos 0))) (int (pos 0)))) [
  | none ↦ err not_a_number
  | some z ↦ ok z
]

-- `int(v)` of a node id
unfoldable pub id_of : Value → Result ℕ
unfolding int_of
id_of v = elim (int_of v) [
  | none ↦ err not_a_number
  | some z ↦ elim z [ pos n ↦ ok n | negsuc n ↦ err negative_id ]
]

-- `int(d.get(k, 0))` of a node id
unfoldable pub id_at : Fields → String → Result ℕ
unfolding value_of id_of
id_at d k = id_of (value_of d k (int (pos 0)))

-- `int(v) if v is not None else None`
unfoldable pub id_unless_none : Value → Result (Option ℕ)
unfolding id_of ◌>>=◌
id_unless_none null = ok none
id_unless_none v = id_of v >>= λ n. ok (some n)

unfoldable pub optional_id_at : Fields → String → Result (Option ℕ)
unfolding value_of id_unless_none
optional_id_at d k = id_unless_none (value_of d k null)

-- `dict(d.get(k) or {})`
unfoldable pub object_at : Fields → String → Result Fields
unfolding value_of fields_of
object_at d k = fields_of (value_of d k null)

-- `[str(v) for v in d.get(k) or []]`
unfoldable pub texts_at : Fields → String → Result (List String)
unfolding value_of or_value list_of text_of ◌>>=◌
texts_at d k = list_of (or_value (value_of d k null) (arr nil)) >>= λ vs. ok (map text_of vs)

pub record RunContext : Type 0 where
  pub uid : String
  pub provider : String
  pub observability_provider : String
  pub benchmark : String
  pub trace : String
  pub family : String
  pub config_path : String
  pub start_time : ℤ
  pub end_time : ℤ
  pub targets : Fields
  pub endpoint_map : Fields

-- RunContext.to_dict
unfoldable pub run_context_to_dict : RunContext → Fields
run_context_to_dict x = field "uid" (str x.uid) (
    field "provider" (str x.provider) (
      field "observability_provider" (str x.observability_provider) (
        field "benchmark" (str x.benchmark) (
          field "trace" (str x.trace) (
            field "family" (str x.family) (
              field "config_path" (str x.config_path) (
                field "start_time" (float x.start_time) (
                  field "end_time" (float x.end_time) (
                    field "targets" (obj x.targets)
                      (field "endpoint_map" (obj x.endpoint_map) end))))))))))

-- RunContext.from_dict
unfoldable pub run_context_from_dict : Fields → Result RunContext
run_context_from_dict d = do
  start_time ← float_or_zero d "start_time"
  end_time ← float_or_zero d "end_time"
  targets ← object_at d "targets"
  endpoint_map ← object_at d "endpoint_map"
  ok (record {
    uid = text_field d "uid" "";
    provider = text_field d "provider" "";
    observability_provider = text_field d "observability_provider" "";
    benchmark = text_field d "benchmark" "";
    trace = text_field d "trace" "";
    family = text_field d "family" "";
    config_path = text_field d "config_path" "";
    start_time = start_time;
    end_time = end_time;
    targets = targets;
    endpoint_map = endpoint_map;
  })

pub record NodeObservation : Type 0 where
  pub node_id : ℕ
  pub node_name : String
  pub node_type : String
  pub runtime_name : String
  pub target_id : String
  pub family : String
  pub runtime_config : Fields
  pub start_time : ℤ
  pub end_time : ℤ
  pub elapsed_ms : ℤ
  pub diagnostics : List String

-- NodeObservation.to_dict
unfoldable pub node_observation_to_dict : NodeObservation → Fields
unfolding texts
node_observation_to_dict x = field "node_id" (int (pos x.node_id)) (
    field "node_name" (str x.node_name) (
      field "node_type" (str x.node_type) (
        field "runtime_name" (str x.runtime_name) (
          field "target_id" (str x.target_id) (
            field "family" (str x.family) (
              field "runtime_config" (obj x.runtime_config) (
                field "start_time" (float x.start_time) (
                  field "end_time" (float x.end_time) (
                    field "elapsed_ms" (float x.elapsed_ms)
                      (field "diagnostics" (arr (texts x.diagnostics)) end))))))))))

-- NodeObservation.from_dict
unfoldable pub node_observation_from_dict : Fields → Result NodeObservation
node_observation_from_dict d = do
  node_id ← id_at d "node_id"
  runtime_config ← object_at d "runtime_config"
  start_time ← float_or_zero d "start_time"
  end_time ← float_or_zero d "end_time"
  elapsed_ms ← float_or_zero d "elapsed_ms"
  diagnostics ← texts_at d "diagnostics"
  ok (record {
    node_id = node_id;
    node_name = text_field d "node_name" "";
    node_type = text_field d "node_type" "";
    runtime_name = text_field d "runtime_name" "";
    target_id = text_field d "target_id" "";
    family = text_field d "family" "";
    runtime_config = runtime_config;
    start_time = start_time;
    end_time = end_time;
    elapsed_ms = elapsed_ms;
    diagnostics = diagnostics;
  })

pub record InvocationObservation : Type 0 where
  pub node_id : ℕ
  pub node_name : String
  pub target_id : String
  pub runtime_name : String
  pub family : String
  pub tool_name : String
  pub call_id : String
  pub uid : String
  pub status : String
  pub error : String
  pub provider_request_id : String
  pub provider_session_id : String
  pub client_start_time : ℤ
  pub client_elapsed_ms : ℤ
  pub provider_metadata : Fields
  pub evidence_refs : List String

-- InvocationObservation.to_dict
unfoldable pub invocation_observation_to_dict : InvocationObservation → Fields
unfolding texts
invocation_observation_to_dict x = field "node_id" (int (pos x.node_id)) (
    field "node_name" (str x.node_name) (
      field "target_id" (str x.target_id) (
        field "runtime_name" (str x.runtime_name) (
          field "family" (str x.family) (
            field "tool_name" (str x.tool_name) (
              field "call_id" (str x.call_id) (
                field "uid" (str x.uid) (
                  field "status" (str x.status) (
                    field "error" (str x.error) (
                      field "provider_request_id" (str x.provider_request_id) (
                        field "provider_session_id" (str x.provider_session_id) (
                          field "client_start_time" (float x.client_start_time) (
                            field "client_elapsed_ms" (float x.client_elapsed_ms) (
                              field "provider_metadata" (obj x.provider_metadata) (
                                field "evidence_refs" (arr (texts x.evidence_refs))
                                  end)))))))))))))))

-- InvocationObservation.from_dict
unfoldable pub invocation_observation_from_dict : Fields → Result InvocationObservation
invocation_observation_from_dict d = do
  node_id ← id_at d "node_id"
  client_start_time ← float_or_zero d "client_start_time"
  client_elapsed_ms ← float_or_zero d "client_elapsed_ms"
  provider_metadata ← object_at d "provider_metadata"
  evidence_refs ← texts_at d "evidence_refs"
  ok (record {
    node_id = node_id;
    node_name = text_field d "node_name" "";
    target_id = text_field d "target_id" "";
    runtime_name = text_field d "runtime_name" "";
    family = text_field d "family" "";
    tool_name = text_field d "tool_name" "";
    call_id = text_field d "call_id" "";
    uid = text_field d "uid" "";
    status = text_field d "status" "ok";
    error = text_field d "error" "";
    provider_request_id = text_field d "provider_request_id" "";
    provider_session_id = text_field d "provider_session_id" "";
    client_start_time = client_start_time;
    client_elapsed_ms = client_elapsed_ms;
    provider_metadata = provider_metadata;
    evidence_refs = evidence_refs;
  })

pub record SessionObservation : Type 0 where
  pub uid : String
  pub target_id : String
  pub runtime_name : String
  pub provider_session_id : String
  pub initialize_request_id : String
  pub opened_at : ℤ
  pub closed_at : ℤ
  pub metadata : Fields
  pub evidence_refs : List String

-- SessionObservation.to_dict
unfoldable pub session_observation_to_dict : SessionObservation → Fields
unfolding texts
session_observation_to_dict x = field "uid" (str x.uid) (
    field "target_id" (str x.target_id) (
      field "runtime_name" (str x.runtime_name) (
        field "provider_session_id" (str x.provider_session_id) (
          field "initialize_request_id" (str x.initialize_request_id) (
            field "opened_at" (float x.opened_at) (
              field "closed_at" (float x.closed_at) (
                field "metadata" (obj x.metadata)
                  (field "evidence_refs" (arr (texts x.evidence_refs)) end))))))))

-- SessionObservation.from_dict
unfoldable pub session_observation_from_dict : Fields → Result SessionObservation
session_observation_from_dict d = do
  opened_at ← float_or_zero d "opened_at"
  closed_at ← float_or_zero d "closed_at"
  metadata ← object_at d "metadata"
  evidence_refs ← texts_at d "evidence_refs"
  ok (record {
    uid = text_field d "uid" "";
    target_id = text_field d "target_id" "";
    runtime_name = text_field d "runtime_name" "";
    provider_session_id = text_field d "provider_session_id" "";
    initialize_request_id = text_field d "initialize_request_id" "";
    opened_at = opened_at;
    closed_at = closed_at;
    metadata = metadata;
    evidence_refs = evidence_refs;
  })

pub record StateObservation : Type 0 where
  pub uid : String
  pub provider : String
  pub operation : String
  pub services : List String
  pub size_gb : ℤ
  pub operation_count : ℤ
  pub started_at : ℤ
  pub ended_at : ℤ
  pub metadata : Fields

-- StateObservation.to_dict
unfoldable pub state_observation_to_dict : StateObservation → Fields
unfolding texts
state_observation_to_dict x = field "uid" (str x.uid) (
    field "provider" (str x.provider) (
      field "operation" (str x.operation) (
        field "services" (arr (texts x.services)) (
          field "size_gb" (float x.size_gb) (
            field "operation_count" (int x.operation_count) (
              field "started_at" (float x.started_at)
                (field "ended_at" (float x.ended_at) (field "metadata" (obj x.metadata) end))))))))

-- StateObservation.from_dict
unfoldable pub state_observation_from_dict : Fields → Result StateObservation
state_observation_from_dict d = do
  services ← texts_at d "services"
  size_gb ← float_or_zero d "size_gb"
  operation_count ← int_or_zero d "operation_count"
  started_at ← float_or_zero d "started_at"
  ended_at ← float_or_zero d "ended_at"
  metadata ← object_at d "metadata"
  ok (record {
    uid = text_field d "uid" "";
    provider = text_field d "provider" "";
    operation = text_field d "operation" "";
    services = services;
    size_gb = size_gb;
    operation_count = operation_count;
    started_at = started_at;
    ended_at = ended_at;
    metadata = metadata;
  })

pub record ProviderMetric : Type 0 where
  pub metric_id : String
  pub provider : String
  pub source : String
  pub node_id : Option ℕ
  pub invocation_call_id : String
  pub provider_request_id : String
  pub fields : Fields
  pub evidence_refs : List String

-- ProviderMetric.to_dict
unfoldable pub provider_metric_to_dict : ProviderMetric → Fields
unfolding texts optional_id
provider_metric_to_dict x = field "metric_id" (str x.metric_id) (
    field "provider" (str x.provider) (
      field "source" (str x.source) (
        field "node_id" (optional_id x.node_id) (
          field "invocation_call_id" (str x.invocation_call_id) (
            field "provider_request_id" (str x.provider_request_id) (
              field "fields" (obj x.fields)
                (field "evidence_refs" (arr (texts x.evidence_refs)) end)))))))

-- ProviderMetric.from_dict
unfoldable pub provider_metric_from_dict : Fields → Result ProviderMetric
provider_metric_from_dict d = do
  node_id ← optional_id_at d "node_id"
  fields ← object_at d "fields"
  evidence_refs ← texts_at d "evidence_refs"
  ok (record {
    metric_id = text_field d "metric_id" "";
    provider = text_field d "provider" "";
    source = text_field d "source" "";
    node_id = node_id;
    invocation_call_id = text_field d "invocation_call_id" "";
    provider_request_id = text_field d "provider_request_id" "";
    fields = fields;
    evidence_refs = evidence_refs;
  })

pub record EvidenceRecord : Type 0 where
  pub evidence_id : String
  pub provider : String
  pub source : String
  pub query : Fields
  pub raw : Value

-- EvidenceRecord.to_dict
unfoldable pub evidence_record_to_dict : EvidenceRecord → Fields
evidence_record_to_dict x = field "evidence_id" (str x.evidence_id) (
    field "provider" (str x.provider)
      (field "source" (str x.source) (field "query" (obj x.query) (field "raw" (x.raw) end))))

-- EvidenceRecord.from_dict
unfoldable pub evidence_record_from_dict : Fields → Result EvidenceRecord
evidence_record_from_dict d = do
  query ← object_at d "query"
  ok (record {
    evidence_id = text_field d "evidence_id" "";
    provider = text_field d "provider" "";
    source = text_field d "source" "";
    query = query;
    raw = value_of d "raw" null;
  })
