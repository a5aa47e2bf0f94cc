-- ===== src/Analysis/Timeline/Build.antt =====
-- `build` of atsuite/analysis/timeline.py. The time of generation is a parameter.
pub mod Events
use atsuite.Base.{
  ℕ, String, Bool, true, false, Option, none, some, List, [], ◌∷◌, ◌++◌, ◌==◌, nat_eq, string_eq,
  if◌then◌else◌, map,
}
use atsuite.Base.Dict.{Dict, get_or, put, get}
use atsuite.Base.Int.{ℤ, pos, is_zero}
use atsuite.Base.Json.{Value, null, str, arr, obj, Fields, end, field, update}
use atsuite.Base.Text.{◌&◌, is_empty, or_else}
use atsuite.Base.Convert.{value_of, or_value, text_of}
use atsuite.Pipeline.Tools.{items}
use atsuite.Analysis.Model.{
  RunContext, NodeObservation, InvocationObservation, SessionObservation, ProviderMetric,
}
use atsuite.Analysis.Timeline.Times.{sec_to_us}
use atsuite.Analysis.Timeline.Event.{TimelineEvent, event_to_dict, base_args, instant}
use atsuite.Analysis.Timeline.Client.{
  ClientLanes, client_lanes, add_run, add_llm_nodes, sorted_items, add_sessions,
}
use atsuite.Analysis.Timeline.Phases.{add_invocation}
use atsuite.Analysis.Timeline.Metadata.{text_le, metadata_events}

-- `metrics_by_call`
unfoldable pub metrics_by_call :
    List ProviderMetric → Dict String (List ProviderMetric) → Dict String (List ProviderMetric)
unfolding put get
metrics_by_call [] grouped = grouped
metrics_by_call (m ∷ metrics) grouped =
    let call = m.invocation_call_id in
    metrics_by_call metrics
      (if is_empty call then grouped else put grouped call (get_or grouped call [] ++ m ∷ []))

insert_text : String → List String → List String
unfolding text_le
insert_text t [] = t ∷ []
insert_text t (u ∷ ts) =
    if t == u then u ∷ ts else if text_le t u then t ∷ u ∷ ts else u ∷ insert_text t ts

-- `sorted(set(texts))`
unfoldable pub sorted_set : List String → List String
unfolding insert_text
sorted_set [] = []
sorted_set (t ∷ ts) = insert_text t (sorted_set ts)

abbrev id_or : Option ℕ → Option ℕ → Option ℕ
id_or none earlier = earlier
id_or (some n) earlier = some n

-- The loop of `_merge_metrics`: what the metrics so far come to, and one more.
unfoldable pub merge_metric : ProviderMetric → ProviderMetric → ProviderMetric
unfolding update
merge_metric merged m = record {
  metric_id = merged.metric_id;
  provider = or_else m.provider merged.provider;
  source = or_else m.source merged.source;
  node_id = id_or m.node_id merged.node_id;
  invocation_call_id = or_else m.invocation_call_id merged.invocation_call_id;
  provider_request_id = or_else m.provider_request_id merged.provider_request_id;
  fields = update merged.fields m.fields;
  evidence_refs = merged.evidence_refs ++ m.evidence_refs;
}

unfoldable pub merge_onto : ProviderMetric → List ProviderMetric → ProviderMetric
unfolding merge_metric
merge_onto merged [] = merged
merge_onto merged (m ∷ metrics) = merge_onto (merge_metric merged m) metrics

abbrev pub no_metric : ProviderMetric
no_metric = record {
  metric_id = "timeline:merged";
  provider = "";
  source = "";
  node_id = none;
  invocation_call_id = "";
  provider_request_id = "";
  fields = end;
  evidence_refs = [];
}

-- _merge_metrics
unfoldable pub merge_metrics : List ProviderMetric → Option ProviderMetric
unfolding merge_onto sorted_set
merge_metrics [] = none
merge_metrics (m ∷ metrics) =
    let merged = merge_onto no_metric (m ∷ metrics) in
    some (record merged { evidence_refs = sorted_set merged.evidence_refs })

-- The loop over the invocations.
unfoldable pub add_invocations :
    RunContext
    → ClientLanes
    → Dict String (List ProviderMetric)
    → List TimelineEvent
    → List InvocationObservation
    → List TimelineEvent
unfolding get
add_invocations context lanes metrics events [] = events
add_invocations context lanes metrics events (i ∷ invocations) =
    let metric = merge_metrics (get_or metrics i.call_id []) in
    add_invocations context lanes metrics
      (add_invocation context events i metric (get_or lanes.tool_use i.node_id "tool_use/0"))
      invocations

-- _add_diagnostics, at its time
unfoldable pub add_diagnostics :
    RunContext → ℕ → List TimelineEvent → List Fields → List TimelineEvent
unfolding text_of or_value value_of
add_diagnostics context ts_us events [] = events
add_diagnostics context ts_us events (d ∷ diagnostics) =
    let kind = text_of (or_value (value_of d "kind" null) (str "diagnostic")) in
    add_diagnostics context ts_us
      (instant events ("diagnostic:" & kind) "diagnostic" "client" "diagnostic" ts_us
        (base_args context d))
      diagnostics

-- The time of the diagnostics.
unfoldable pub diagnostics_us : RunContext → ℕ
unfolding sec_to_us is_zero
diagnostics_us context =
    sec_to_us (if is_zero context.end_time then context.start_time else context.end_time)

-- The events of `build`.
unfoldable pub build_events :
    RunContext
    → Dict ℕ NodeObservation
    → List InvocationObservation
    → List SessionObservation
    → List ProviderMetric
    → List Fields
    → List TimelineEvent
build_events context nodes invocations sessions metrics diagnostics =
    let lanes = client_lanes nodes invocations in
    let run = add_run [] context in
    let called = add_llm_nodes context lanes run (sorted_items nodes) in
    let opened = add_sessions called context sessions in
    let invoked = add_invocations context lanes (metrics_by_call metrics []) opened invocations in
    add_diagnostics context (diagnostics_us context) invoked diagnostics

-- TimelineBuilder.build
unfoldable pub build :
    RunContext
    → Dict ℕ NodeObservation
    → List InvocationObservation
    → List SessionObservation
    → List ProviderMetric
    → List Fields
    → String
    → Fields
build context nodes invocations sessions metrics diagnostics generated_at =
    let events = build_events context nodes invocations sessions metrics diagnostics in
    field "traceEvents" (arr (items (metadata_events events ++ map event_to_dict events))) (
      field "displayTimeUnit" (str "ms") (
        field "metadata"
          (obj (
            field "schema" (str "atsuite.analysis.timeline.v1") (
              field "uid" (str context.uid) (
                field "provider" (str context.provider) (
                  field "observability_provider" (str context.observability_provider) (
                    field "benchmark" (str context.benchmark) (
                      field "trace" (str context.trace) (
                        field "family" (str context.family)
                          (field "generated_at" (str generated_at) end)))))))))
          end))
