-- ===== src/Analysis/Timeline/Build/Events.antt =====
-- The events of a timeline (`TimelineBuilder.build` of atsuite/analysis/timeline.py).
use atsuite.Base.{
  ℕ, ◌<◌, ◌≡◌, refl, ◌⊎◌, inl, inr, String, Bool, true, false, Option, none, some, List, [], ◌∷◌,
  ◌++◌, leb, string_eq, if◌then◌else◌, arith, All, All-append, Bool-cases, Option-cases,
}
use atsuite.Base.Dict.{Dict}
use atsuite.Base.Json.{Fields}
use atsuite.Base.Sets.{elem}
use atsuite.Analysis.Model.{
  RunContext, NodeObservation, InvocationObservation, SessionObservation, ProviderMetric,
}
use atsuite.Analysis.Timeline.Event.{TimelineEvent, span_dur, span, instant, span_if, instant_if}
use atsuite.Analysis.Timeline.Client.{
  ClientLanes, add_run, add_llm_node, add_llm_nodes, add_session, add_session_list, add_sessions,
}
use atsuite.Analysis.Timeline.Phases.{
  add_provider_span, add_dispatch, add_provider_phases, add_overheads, add_app_phases,
  add_client_call, add_invocation,
}
use atsuite.Analysis.Timeline.Build.{add_invocations, add_diagnostics, build_events}

abbrev pub categories : List String
categories = "client" ∷ "provider" ∷ "app" ∷ "diagnostic" ∷ []

pub record IsEvent (e : TimelineEvent) : Type 0 where
  pub late : 0 < e.ts
  pub known : elem categories e.cat ≡ true
  pub shape : ((e.ph ≡ "X") × (d : ℕ) × (e.dur ≡ some d)) ⊎ ((e.ph ≡ "i") × (e.dur ≡ none))

pub record Fine (events : List TimelineEvent) : Type 0 where
  pub all : All IsEvent events

Fine-append :
    (events : List TimelineEvent) (e : TimelineEvent)
    → Fine events
    → IsEvent e
    → Fine (events ++ e ∷ [])
Fine-append events e h new = record { all = All-append IsEvent events (e ∷ []) h.all (new, tt) }

if-Fine : (c : Bool) (xs ys : List TimelineEvent) → Fine xs → Fine ys → Fine (if c then xs else ys)
if-Fine true xs ys h k = h
if-Fine false xs ys h k = k

instant-Fine :
    (events : List TimelineEvent) (name cat pid tid : String) (ts_us : ℕ) (args : Fields)
    → elem categories cat ≡ true
    → Fine events
    → Fine (instant events name cat pid tid ts_us args)
unfolding instant
instant-Fine events name cat pid tid ts_us args known h = elim (Bool-cases (leb ts_us 0)) [
  | inl early ↦ rw early h
  | inr late ↦ rw late (
      Fine-append events _ h
        (record { late = ground arith; known = known; shape = inr (refl, refl) }))
]

span-Fine :
    (events : List TimelineEvent) (name cat pid tid : String) (start_us : ℕ)
    (end_us dur_us : Option ℕ) (args : Fields)
    → elem categories cat ≡ true
    → Fine events
    → Fine (span events name cat pid tid start_us end_us dur_us args)
unfolding span
span-Fine events name cat pid tid start_us end_us dur_us args known h =
    elim (Bool-cases (leb start_us 0)) [
      | inl early ↦ rw early h
      | inr late ↦ elim (Option-cases (span_dur start_us end_us dur_us)) [
        | inl dropped ↦ rw (late, dropped) h
        | inr (d, kept) ↦
            rw (late, kept)
              (Fine-append events _ h
                (record { late = ground arith; known = known; shape = inl (refl, d, refl) }))
      ]
    ]

span_if-Fine :
    (shown : Bool) (events : List TimelineEvent) (name cat pid tid : String) (start_us : ℕ)
    (end_us dur_us : Option ℕ) (args : Fields)
    → elem categories cat ≡ true
    → Fine events
    → Fine (span_if shown events name cat pid tid start_us end_us dur_us args)
unfolding span_if
span_if-Fine true events name cat pid tid start_us end_us dur_us args known h =
    span-Fine events name cat pid tid start_us end_us dur_us args known h
span_if-Fine false events name cat pid tid start_us end_us dur_us args known h = h

instant_if-Fine :
    (shown : Bool) (events : List TimelineEvent) (name cat pid tid : String) (ts_us : ℕ)
    (args : Fields)
    → elem categories cat ≡ true
    → Fine events
    → Fine (instant_if shown events name cat pid tid ts_us args)
unfolding instant_if
instant_if-Fine true events name cat pid tid ts_us args known h =
    instant-Fine events name cat pid tid ts_us args known h
instant_if-Fine false events name cat pid tid ts_us args known h = h

client_known : elem categories "client" ≡ true
unfolding elem string_eq
client_known = refl

provider_known : elem categories "provider" ≡ true
unfolding elem string_eq
provider_known = refl

app_known : elem categories "app" ≡ true
unfolding elem string_eq
app_known = refl

diagnostic_known : elem categories "diagnostic" ≡ true
unfolding elem string_eq
diagnostic_known = refl

add_run-Fine :
    (events : List TimelineEvent) (context : RunContext)
    → Fine events
    → Fine (add_run events context)
unfolding add_run
add_run-Fine events context h = span-Fine _ _ _ _ _ _ _ _ _ client_known h

add_llm_nodes-Fine :
    (context : RunContext) (lanes : ClientLanes) (nodes : Dict ℕ NodeObservation)
    (events : List TimelineEvent)
    → Fine events
    → Fine (add_llm_nodes context lanes events nodes)
unfolding add_llm_nodes add_llm_node
add_llm_nodes-Fine context lanes [] events h = h
add_llm_nodes-Fine context lanes ((id, n) ∷ nodes) events h =
    add_llm_nodes-Fine context lanes nodes (add_llm_node context lanes events (id, n))
      (if-Fine _ _ _ h (span-Fine _ _ _ _ _ _ _ _ _ client_known h))

add_session_list-Fine :
    (context : RunContext) (sessions : List SessionObservation) (events : List TimelineEvent)
    → Fine events
    → Fine (add_session_list context events sessions)
unfolding add_session_list add_session
add_session_list-Fine context [] events h = h
add_session_list-Fine context (s ∷ sessions) events h =
    add_session_list-Fine context sessions (add_session context events s) (
      if-Fine _ _ _ h (
        if-Fine _ _ _ (span-Fine _ _ _ _ _ _ _ _ _ provider_known h)
          (instant-Fine _ _ _ _ _ _ _ provider_known h)))

add_sessions-Fine :
    (events : List TimelineEvent) (context : RunContext) (sessions : List SessionObservation)
    → Fine events
    → Fine (add_sessions events context sessions)
unfolding add_sessions
add_sessions-Fine events context sessions h =
    if-Fine _ _ _ h (add_session_list-Fine context sessions events h)

add_provider_span-Fine :
    (events : List TimelineEvent) (id pid : String) (receive response client : ℕ)
    (args common : Fields)
    → Fine events
    → Fine (add_provider_span events id pid receive response client args common)
unfolding add_provider_span
add_provider_span-Fine events id pid receive response client args common h =
    if-Fine _ _ _
      (span-Fine _ _ _ _ _ _ _ _ _ provider_known
        (instant_if-Fine _ _ _ _ _ _ _ _ provider_known h))
      (instant-Fine _ _ _ _ _ _ _ diagnostic_known
        (instant_if-Fine _ _ _ _ _ _ _ _ provider_known h))

add_dispatch-Fine :
    (events : List TimelineEvent) (id pid : String) (receive dispatch : ℕ) (args : Fields)
    → Fine events
    → Fine (add_dispatch events id pid receive dispatch args)
unfolding add_dispatch
add_dispatch-Fine events id pid receive dispatch args h =
    if-Fine _ _ _ h (
      span_if-Fine _ _ _ _ _ _ _ _ _ _ provider_known (instant-Fine _ _ _ _ _ _ _ provider_known h))

add_provider_phases-Fine :
    (events : List TimelineEvent) (i : InvocationObservation) (fields common : Fields) (client : ℕ)
    → Fine events
    → Fine (add_provider_phases events i fields common client)
unfolding add_provider_phases
add_provider_phases-Fine events i fields common client h =
    add_dispatch-Fine _ _ _ _ _ _ (add_provider_span-Fine _ _ _ _ _ _ _ _ h)

add_overheads-Fine :
    (events : List TimelineEvent) (id pid : String) (fields args : Fields)
    (request_start request_end tool_start tool_end : ℕ)
    → Fine events
    → Fine (add_overheads events id pid fields args request_start request_end tool_start tool_end)
unfolding add_overheads
add_overheads-Fine events id pid fields args request_start request_end tool_start tool_end h =
    instant_if-Fine _ _ _ _ _ _ _ _ app_known (
      span_if-Fine _ _ _ _ _ _ _ _ _ _ app_known
        (span_if-Fine _ _ _ _ _ _ _ _ _ _ app_known (span_if-Fine _ _ _ _ _ _ _ _ _ _ app_known h)))

add_app_phases-Fine :
    (events : List TimelineEvent) (i : InvocationObservation) (fields common : Fields)
    (target_id : String)
    → Fine events
    → Fine (add_app_phases events i fields common target_id)
unfolding add_app_phases
add_app_phases-Fine events i fields common target_id h = if-Fine _ _ _ h (
    add_overheads-Fine _ _ _ _ _ _ _ _ _ (
      span-Fine _ _ _ _ _ _ _ _ _ app_known
        (span-Fine _ _ _ _ _ _ _ _ _ app_known (instant-Fine _ _ _ _ _ _ _ app_known h))))

add_invocation-Fine :
    (context : RunContext) (events : List TimelineEvent) (i : InvocationObservation)
    (metric : Option ProviderMetric) (tid : String)
    → Fine events
    → Fine (add_invocation context events i metric tid)
unfolding add_invocation add_client_call
add_invocation-Fine context events i metric tid h = add_app_phases-Fine _ _ _ _ _ (
    add_provider_phases-Fine _ _ _ _ _ (
      instant-Fine _ _ _ _ _ _ _ client_known
        (span-Fine _ _ _ _ _ _ _ _ _ client_known (instant-Fine _ _ _ _ _ _ _ client_known h))))

add_invocations-Fine :
    (context : RunContext) (lanes : ClientLanes) (metrics : Dict String (List ProviderMetric))
    (invocations : List InvocationObservation) (events : List TimelineEvent)
    → Fine events
    → Fine (add_invocations context lanes metrics events invocations)
unfolding add_invocations
add_invocations-Fine context lanes metrics [] events h = h
add_invocations-Fine context lanes metrics (i ∷ invocations) events h =
    add_invocations-Fine context lanes metrics invocations _
      (add_invocation-Fine context events i _ _ h)

add_diagnostics-Fine :
    (context : RunContext) (ts_us : ℕ) (diagnostics : List Fields) (events : List TimelineEvent)
    → Fine events
    → Fine (add_diagnostics context ts_us events diagnostics)
unfolding add_diagnostics
add_diagnostics-Fine context ts_us [] events h = h
add_diagnostics-Fine context ts_us (d ∷ diagnostics) events h =
    add_diagnostics-Fine context ts_us diagnostics _ (instant-Fine _ _ _ _ _ _ _ diagnostic_known h)

-- Every event of `build` has a time after zero and one of the four categories, and is either a
-- complete event with a duration or an instant without one.
pub build_events-IsEvent :
    (context : RunContext) (nodes : Dict ℕ NodeObservation)
    (invocations : List InvocationObservation) (sessions : List SessionObservation)
    (metrics : List ProviderMetric) (diagnostics : List Fields)
    → All IsEvent (build_events context nodes invocations sessions metrics diagnostics)
unfolding build_events
build_events-IsEvent context nodes invocations sessions metrics diagnostics =
    (add_diagnostics-Fine context _ diagnostics _ (
      add_invocations-Fine context _ _ invocations _ (
        add_sessions-Fine _ context sessions
          (add_llm_nodes-Fine context _ _ _ (add_run-Fine [] context (record { all = tt })))))).all
