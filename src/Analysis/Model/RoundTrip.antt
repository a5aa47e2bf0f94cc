-- ===== src/Analysis/Model/RoundTrip.antt =====
-- `to_dict` and `from_dict` of the records of atsuite/analysis/model.py.
use atsuite.Base.{
  ℕ, String, Option, none, some, List, [], ◌∷◌, map, ◌≡◌, refl, string_eq, ap, arith,
}
use atsuite.Base.Int.{ℤ, pos}
use atsuite.Base.Json.{int, float, arr, obj, Fields, find}
use atsuite.Base.Convert.{text_of, elements, value_of, text_field}
use atsuite.Result.{ok, ◌>>=◌}
use atsuite.Analysis.Model.{
  texts, optional_id, float_or_zero, int_or_zero, id_at, optional_id_at, object_at, texts_at,
  RunContext, run_context_to_dict, run_context_from_dict, NodeObservation, node_observation_to_dict,
  node_observation_from_dict, InvocationObservation, invocation_observation_to_dict,
  invocation_observation_from_dict, SessionObservation, session_observation_to_dict,
  session_observation_from_dict, StateObservation, state_observation_to_dict,
  state_observation_from_dict, ProviderMetric, provider_metric_to_dict, provider_metric_from_dict,
  EvidenceRecord, evidence_record_to_dict, evidence_record_from_dict,
}

float_or_zero-found :
    (d : Fields) (k : String) (z : ℤ) → find d k ≡ some (float z) → float_or_zero d k ≡ ok z
unfolding float_or_zero
float_or_zero-found d k z h = ground (arith, h)

int_or_zero-found :
    (d : Fields) (k : String) (z : ℤ) → find d k ≡ some (int z) → int_or_zero d k ≡ ok z
unfolding int_or_zero
int_or_zero-found d k z h = ground (arith, h)

id_at-found : (d : Fields) (k : String) (n : ℕ) → find d k ≡ some (int (pos n)) → id_at d k ≡ ok n
unfolding id_at
id_at-found d k n h = ground (arith, h)

optional_id_at-found :
    (d : Fields) (k : String) (o : Option ℕ)
    → find d k ≡ some (optional_id o)
    → optional_id_at d k ≡ ok o
unfolding optional_id_at optional_id
optional_id_at-found d k none h = ground (arith, h)
optional_id_at-found d k (some n) h = ground (arith, h)

pub object_at-found :
    (d : Fields) (k : String) (fs : Fields) → find d k ≡ some (obj fs) → object_at d k ≡ ok fs
unfolding object_at
object_at-found d k fs h = ground (arith, h)

elements-texts : (ts : List String) → map text_of (elements (texts ts)) ≡ ts
unfolding texts elements text_of
elements-texts [] = refl
elements-texts (t ∷ ts) = ap (◌∷◌ t) (elements-texts ts)

texts_at-found :
    (d : Fields) (k : String) (ts : List String)
    → find d k ≡ some (arr (texts ts))
    → texts_at d k ≡ ok ts
unfolding texts_at
texts_at-found d k [] h = ground (arith, h, elements-texts [])
texts_at-found d k (t ∷ ts) h = ground (arith, h, elements-texts (t ∷ ts))

run_context_from_dict-to_dict :
    (x : RunContext) → run_context_from_dict (run_context_to_dict x) ≡ ok x
unfolding run_context_from_dict run_context_to_dict find string_eq text_field value_of text_of ◌>>=◌
run_context_from_dict-to_dict x =
    let d = run_context_to_dict x in
    let r0 = float_or_zero-found d "start_time" x.start_time refl in
    let r1 = float_or_zero-found d "end_time" x.end_time refl in
    let r2 = object_at-found d "targets" x.targets refl in
    let r3 = object_at-found d "endpoint_map" x.endpoint_map refl in rw (r0, r1, r2, r3) refl

node_observation_from_dict-to_dict :
    (x : NodeObservation) → node_observation_from_dict (node_observation_to_dict x) ≡ ok x
unfolding node_observation_from_dict node_observation_to_dict find string_eq text_field value_of
    text_of ◌>>=◌
node_observation_from_dict-to_dict x =
    let d = node_observation_to_dict x in
    let r0 = id_at-found d "node_id" x.node_id refl in
    let r1 = object_at-found d "runtime_config" x.runtime_config refl in
    let r2 = float_or_zero-found d "start_time" x.start_time refl in
    let r3 = float_or_zero-found d "end_time" x.end_time refl in
    let r4 = float_or_zero-found d "elapsed_ms" x.elapsed_ms refl in
    let r5 = texts_at-found d "diagnostics" x.diagnostics refl in rw (r0, r1, r2, r3, r4, r5) refl

invocation_observation_from_dict-to_dict :
    (x : InvocationObservation)
    → invocation_observation_from_dict (invocation_observation_to_dict x) ≡ ok x
unfolding invocation_observation_from_dict invocation_observation_to_dict find string_eq text_field
    value_of text_of ◌>>=◌
invocation_observation_from_dict-to_dict x =
    let d = invocation_observation_to_dict x in
    let r0 = id_at-found d "node_id" x.node_id refl in
    let r1 = float_or_zero-found d "client_start_time" x.client_start_time refl in
    let r2 = float_or_zero-found d "client_elapsed_ms" x.client_elapsed_ms refl in
    let r3 = object_at-found d "provider_metadata" x.provider_metadata refl in
    let r4 = texts_at-found d "evidence_refs" x.evidence_refs refl in rw (r0, r1, r2, r3, r4) refl

session_observation_from_dict-to_dict :
    (x : SessionObservation) → session_observation_from_dict (session_observation_to_dict x) ≡ ok x
unfolding session_observation_from_dict session_observation_to_dict find string_eq text_field
    value_of text_of ◌>>=◌
session_observation_from_dict-to_dict x =
    let d = session_observation_to_dict x in
    let r0 = float_or_zero-found d "opened_at" x.opened_at refl in
    let r1 = float_or_zero-found d "closed_at" x.closed_at refl in
    let r2 = object_at-found d "metadata" x.metadata refl in
    let r3 = texts_at-found d "evidence_refs" x.evidence_refs refl in rw (r0, r1, r2, r3) refl

state_observation_from_dict-to_dict :
    (x : StateObservation) → state_observation_from_dict (state_observation_to_dict x) ≡ ok x
unfolding state_observation_from_dict state_observation_to_dict find string_eq text_field value_of
    text_of ◌>>=◌
state_observation_from_dict-to_dict x =
    let d = state_observation_to_dict x in
    let r0 = texts_at-found d "services" x.services refl in
    let r1 = float_or_zero-found d "size_gb" x.size_gb refl in
    let r2 = int_or_zero-found d "operation_count" x.operation_count refl in
    let r3 = float_or_zero-found d "started_at" x.started_at refl in
    let r4 = float_or_zero-found d "ended_at" x.ended_at refl in
    let r5 = object_at-found d "metadata" x.metadata refl in rw (r0, r1, r2, r3, r4, r5) refl

provider_metric_from_dict-to_dict :
    (x : ProviderMetric) → provider_metric_from_dict (provider_metric_to_dict x) ≡ ok x
unfolding provider_metric_from_dict provider_metric_to_dict find string_eq text_field value_of
    text_of ◌>>=◌
provider_metric_from_dict-to_dict x =
    let d = provider_metric_to_dict x in
    let r0 = optional_id_at-found d "node_id" x.node_id refl in
    let r1 = object_at-found d "fields" x.fields refl in
    let r2 = texts_at-found d "evidence_refs" x.evidence_refs refl in rw (r0, r1, r2) refl

evidence_record_from_dict-to_dict :
    (x : EvidenceRecord) → evidence_record_from_dict (evidence_record_to_dict x) ≡ ok x
unfolding evidence_record_from_dict evidence_record_to_dict find string_eq text_field value_of
    text_of ◌>>=◌
evidence_record_from_dict-to_dict x =
    let d = evidence_record_to_dict x in
    let r0 = object_at-found d "query" x.query refl in rw (r0) refl

-- Each of the seven analysis records that have a `from_dict` comes back from its `to_dict`
-- unchanged.
pub from_dict-to_dict :
    ((x : RunContext) → run_context_from_dict (run_context_to_dict x) ≡ ok x)
    × ((x : NodeObservation) → node_observation_from_dict (node_observation_to_dict x) ≡ ok x)
    × ((x : InvocationObservation)
        → invocation_observation_from_dict (invocation_observation_to_dict x) ≡ ok x)
    × ((x : SessionObservation)
        → session_observation_from_dict (session_observation_to_dict x) ≡ ok x)
    × ((x : StateObservation) → state_observation_from_dict (state_observation_to_dict x) ≡ ok x)
    × ((x : ProviderMetric) → provider_metric_from_dict (provider_metric_to_dict x) ≡ ok x)
    × ((x : EvidenceRecord) → evidence_record_from_dict (evidence_record_to_dict x) ≡ ok x)
from_dict-to_dict = (
  run_context_from_dict-to_dict, node_observation_from_dict-to_dict,
  invocation_observation_from_dict-to_dict, session_observation_from_dict-to_dict,
  state_observation_from_dict-to_dict, provider_metric_from_dict-to_dict,
  evidence_record_from_dict-to_dict,
)
