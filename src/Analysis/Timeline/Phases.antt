-- ===== src/Analysis/Timeline/Phases.antt =====
-- One invocation on the timeline (atsuite/analysis/timeline.py): its client events, the provider's
-- phases and the phases inside the application.
use atsuite.Base.{
  ℕ, ◌+◌, ◌-◌, String, Bool, not, ◌&&◌, ◌||◌, Option, none, some, List, [], ◌∷◌, ltb, leb,
  string_eq, if◌then◌else◌,
}
use atsuite.Base.Int.{pos, lt_ℤ}
use atsuite.Base.Json.{Value, null, int, str, Fields, end, field, assign, update}
use atsuite.Base.Text.{◌&◌, is_empty, or_else, show}
use atsuite.Base.Convert.{value_of, or_value, text_of}
use atsuite.Analysis.Model.{RunContext, InvocationObservation, ProviderMetric}
use atsuite.Analysis.Timeline.Times.{
  num, int_num, sec_to_us, ms_to_us, ns_to_us, ms_to_ns, first_ns,
}
use atsuite.Analysis.Timeline.Event.{TimelineEvent, base_args, span, instant, span_if, instant_if}
use atsuite.Analysis.Timeline.Client.{wall_clock}

-- A number that is not zero.
abbrev pub some_us : ℕ → Bool
some_us n = ltb 0 n

-- `fields.get(k)` in milliseconds, as nanoseconds and as microseconds
abbrev ns_field : Fields → String → ℕ
ns_field fields k = ms_to_ns (num (value_of fields k null))

abbrev us_field : Fields → String → ℕ
us_field fields k = ms_to_us (num (value_of fields k null))

-- `_num(fields.get(k)) > 0`
abbrev has_ms : Fields → String → Bool
has_ms fields k = lt_ℤ (pos 0) (num (value_of fields k null))

-- `receive_ns` and `response_ns` of `_add_provider_phases`
unfoldable pub provider_times : Fields → ℕ × ℕ
unfolding first_ns ms_to_ns num or_value value_of
provider_times fields =
    let receive =
      first_ns fields
        ("provider_receive_wall_ns" ∷ "cloud_receive_wall_ns" ∷ "provider_start_wall_ns" ∷ []) in
    let response =
      first_ns fields
        ("provider_response_wall_ns" ∷ "cloud_response_wall_ns" ∷ "provider_end_wall_ns" ∷ []) in
    let duration = ms_to_ns (
      num (
        or_value (value_of fields "provider_duration_ms" null) (
          or_value (value_of fields "duration_ms" null)
            (value_of fields "elapsed_time_ms" null)))) in
    let response' =
      if some_us receive && not (some_us response) && some_us duration
      then receive + duration
      else response in
    let receive' =
      if some_us response' && not (some_us receive) && some_us duration
      then response' - duration
      else receive in
    (receive', response')

-- What `_add_provider_phases` shows of the receipt and the response.
unfoldable pub add_provider_span :
    List TimelineEvent → String → String → ℕ → ℕ → ℕ → Fields → Fields → List TimelineEvent
unfolding assign
add_provider_span events id pid receive_us response_us client_start_us provider_args common_args =
    let received =
      instant_if (some_us receive_us) events ("cloud_receive:" & id) "provider" pid "provider"
        receive_us provider_args in
    let missing_args =
      assign
        (assign (assign common_args "diagnostic" (str "missing_cloud_receive_timestamp"))
          "time_source" (str "client_only"))
        "confidence" (str "missing_provider_evidence") in
    if some_us receive_us && leb receive_us response_us
    then span received ("provider_duration:" & id) "provider" pid "provider" receive_us
        (some response_us) none provider_args
    else instant received ("missing_cloud_receive_timestamp:" & id) "diagnostic" pid "diagnostic"
        client_start_us missing_args

-- What it shows of the dispatch.
unfoldable pub add_dispatch :
    List TimelineEvent → String → String → ℕ → ℕ → Fields → List TimelineEvent
add_dispatch events id pid receive_us dispatch_us provider_args =
    let dispatched =
      instant events ("provider_dispatch:" & id) "provider" pid "provider" dispatch_us
        provider_args in
    if not (some_us dispatch_us)
    then events
    else span_if (some_us receive_us && leb receive_us dispatch_us) dispatched
        ("provider_queue:" & id) "provider" pid "provider" receive_us (some dispatch_us) none
        provider_args

-- _add_provider_phases
unfoldable pub add_provider_phases :
    List TimelineEvent → InvocationObservation → Fields → Fields → ℕ → List TimelineEvent
unfolding provider_times ns_to_us first_ns assign or_value value_of show
add_provider_phases events i fields common_args client_start_us =
    let pid = "provider:" & or_else i.target_id "unknown" in
    let provider_args =
      assign
        (assign common_args "time_source"
          (or_value (value_of fields "provider_time_source" null) (str "provider_log")))
        "confidence" (or_value (value_of fields "provider_confidence" null) (str "provider_log")) in
    let receive_us = ns_to_us (provider_times fields).0 in
    let response_us = ns_to_us (provider_times fields).1 in
    let dispatch_us =
      ns_to_us
        (first_ns fields ("provider_dispatch_wall_ns" ∷ "provider_dispatched_wall_ns" ∷ [])) in
    add_dispatch
      (add_provider_span events (show i.node_id) pid receive_us response_us client_start_us
        provider_args common_args)
      (show i.node_id) pid receive_us dispatch_us provider_args

-- The result of `_app_times`.
pub record AppTimes : Type 0 where
  pub request_start_ns : ℕ
  pub request_end_ns : ℕ
  pub tool_start_ns : ℕ
  pub tool_end_ns : ℕ
  pub time_source : String
  pub confidence : String

-- `name or ""`, with a default by where the times come from
source_or : Value → Bool → Bool → String → String
unfolding text_of or_value
source_or v explicit_wall derived estimate =
    or_else (text_of (or_value v (str "")))
      (if explicit_wall then "sdk_wall_clock" else if derived then estimate else "")

abbrev is_wall : Fields → String → Bool
is_wall fields k = lt_ℤ (pos 0) (int_num (value_of fields k null))

-- _app_times
unfoldable pub app_times : Fields → AppTimes
unfolding first_ns num ms_to_ns value_of int_num source_or lt_ℤ
app_times fields =
    let explicit_wall =
      is_wall fields "request_start_wall_ns"
      || is_wall fields "request_end_wall_ns"
      || is_wall fields "tool_start_wall_ns"
      || is_wall fields "tool_end_wall_ns" in
    let request_start = first_ns fields ("request_start_wall_ns" ∷ "request_wall_ns" ∷ []) in
    let request_end = first_ns fields ("request_end_wall_ns" ∷ []) in
    let tool_start = first_ns fields ("tool_start_wall_ns" ∷ []) in
    let tool_end = first_ns fields ("tool_end_wall_ns" ∷ []) in
    let d₁ = some_us request_start && not (some_us request_end) && has_ms fields "app_e2e_ms" in
    let request_end₁ = if d₁ then request_start + ns_field fields "app_e2e_ms" else request_end in
    let d₂ =
      some_us request_start
      && not (some_us tool_start)
      && not (lt_ℤ (num (value_of fields "pre_tool_ms" null)) (pos 0)) in
    let tool_start₁ = if d₂ then request_start + ns_field fields "pre_tool_ms" else tool_start in
    let d₃ = some_us tool_start₁ && not (some_us tool_end) && has_ms fields "tool_exec_ms" in
    let tool_end₁ = if d₃ then tool_start₁ + ns_field fields "tool_exec_ms" else tool_end in
    let d₄ = some_us request_end₁ && not (some_us tool_end₁) && has_ms fields "post_tool_ms" in
    let tool_end₂ = if d₄ then request_end₁ - ns_field fields "post_tool_ms" else tool_end₁ in
    let d₅ = some_us tool_end₂ && not (some_us tool_start₁) && has_ms fields "tool_exec_ms" in
    let tool_start₂ = if d₅ then tool_end₂ - ns_field fields "tool_exec_ms" else tool_start₁ in
    let derived = d₁ || d₂ || d₃ || d₄ || d₅ in
    record {
      request_start_ns = request_start;
      request_end_ns = request_end₁;
      tool_start_ns = tool_start₂;
      tool_end_ns = tool_end₂;
      time_source =
          source_or (value_of fields "time_source" null) explicit_wall derived
            "derived_from_duration";
      confidence = source_or (value_of fields "confidence" null) explicit_wall derived "estimated";
    }

-- The spans of `_add_app_phases` on the overhead lane.
unfoldable pub add_overheads :
    List TimelineEvent → String → String → Fields → Fields → ℕ → ℕ → ℕ → ℕ → List TimelineEvent
unfolding assign ms_to_us num value_of
add_overheads events id pid fields app_args request_start request_end tool_start tool_end =
    let pre =
      span_if (some_us request_start && leb request_start tool_start) events ("pre_tool:" & id)
        "app" pid "overhead" request_start (some tool_start) none app_args in
    let post =
      span_if (some_us tool_end && leb tool_end request_end) pre ("post_tool:" & id) "app" pid
        "overhead" tool_end (some request_end) none app_args in
    let sync = us_field fields "state_sync_overhead_ms" in
    let synced =
      span_if (some_us sync && leb sync tool_end) post ("state_sync:" & id) "app" pid "overhead"
        (tool_end - sync) none (some sync) (assign app_args "confidence" (str "estimated")) in
    let framework = us_field fields "framework_overhead_ms" in
    instant_if (some_us framework && some_us request_start) synced ("framework_overhead:" & id)
      "app" pid "overhead" request_start (assign app_args "duration_us" (int (pos framework)))

-- _add_app_phases
unfoldable pub add_app_phases :
    List TimelineEvent → InvocationObservation → Fields → Fields → String → List TimelineEvent
unfolding app_times ns_to_us assign show
add_app_phases events i fields common_args target_id =
    let times = app_times fields in
    let request_start = ns_to_us times.request_start_ns in
    let request_end = ns_to_us times.request_end_ns in
    let tool_start = ns_to_us times.tool_start_ns in
    let tool_end = ns_to_us times.tool_end_ns in
    let id = show i.node_id in
    let pid = "app:" & or_else (or_else target_id i.target_id) "unknown" in
    let app_args =
      assign
        (assign common_args "time_source" (str (or_else times.time_source "derived_from_duration")))
        "confidence" (str (or_else times.confidence "estimated")) in
    let entered = instant events ("enter_instance:" & id) "app" pid "app" request_start app_args in
    let requested =
      span entered ("app_request:" & id) "app" pid "app" request_start (some request_end) none
        app_args in
    let executed =
      span requested ("tool_exec:" & id & ":" & i.tool_name) "app" pid "tool" tool_start
        (some tool_end) none app_args in
    if not (some_us request_start) && not (some_us tool_start)
    then events
    else add_overheads executed id pid fields app_args request_start request_end tool_start tool_end

-- The client's events of `_add_invocation`.
unfoldable pub add_client_call :
    List TimelineEvent → InvocationObservation → String → ℕ → ℕ → Fields → List TimelineEvent
unfolding show
add_client_call events i client_tid start_us dur_us client_args =
    let id = show i.node_id in
    let sent =
      instant events ("client_send:" & id) "client" "client" client_tid start_us client_args in
    let used =
      span sent ("tool_use:" & id & ":" & i.node_name) "client" "client" client_tid start_us none
        (some dur_us) client_args in
    instant used ("client_receive:" & id) "client" "client" client_tid
      (if some_us start_us then start_us + dur_us else 0) client_args

-- `common_args` of `_add_invocation`
unfoldable pub common_args_of : RunContext → InvocationObservation → Option ProviderMetric → Fields
unfolding base_args value_of
common_args_of context i metric =
    let request_id = elim metric as (λ _. String) [ none ↦ "" | some m ↦ m.provider_request_id ] in
    let session_id =
      if is_empty i.provider_session_id
      then value_of i.provider_metadata "session_id" (str "")
      else str i.provider_session_id in
    base_args context (
      field "node_id" (int (pos i.node_id)) (
        field "node_name" (str i.node_name) (
          field "target_id" (str i.target_id) (
            field "tool_name" (str i.tool_name) (
              field "call_id" (str i.call_id) (
                field "provider_request_id" (str (or_else i.provider_request_id request_id))
                  (field "session_id" session_id end)))))))

-- _add_invocation
unfoldable pub add_invocation :
    RunContext
    → List TimelineEvent
    → InvocationObservation
    → Option ProviderMetric
    → String
    → List TimelineEvent
unfolding common_args_of sec_to_us ms_to_us update
add_invocation context events i metric client_tid =
    let fields = elim metric as (λ _. Fields) [ none ↦ end | some m ↦ m.fields ] in
    let target_id = or_else (or_else i.target_id i.runtime_name) "unknown" in
    let common_args = common_args_of context i metric in
    let start_us = sec_to_us i.client_start_time in
    let called =
      add_client_call events i client_tid start_us (ms_to_us i.client_elapsed_ms)
        (update common_args wall_clock) in
    add_app_phases (add_provider_phases called i fields common_args start_us) i fields common_args
      target_id
