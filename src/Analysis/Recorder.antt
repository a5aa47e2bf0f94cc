-- ===== src/Analysis/Recorder.antt =====
-- RunRecorder of atsuite/analysis/observer.py: what is observed in one run. The lock makes each method
-- one step. Times are microseconds; `now` is what `time.time()` gives where no time is passed.
pub mod Keyed
pub mod RoundTrip
use atsuite.Base.{
  ℕ, suc, ◌+◌, ◌-◌, ◌*◌, String, Bool, Option, none, some, List, [], ◌∷◌, ◌++◌, nat_eq, not, leb,
  if◌then◌else◌,
}
use atsuite.Base.Dict.{Dict, get, put, values}
use atsuite.Base.Int.{ℤ, pos, negsuc}
use atsuite.Base.Json.{Value, null, int, arr, nil, cons, obj, Fields, end, field, find, Items}
use atsuite.Base.Text.{is_empty}
use atsuite.Base.Convert.{value_of, or_value, iterate, elements}
use atsuite.Result.{Result, ok, err, ◌>>=◌, wrong_type}
use atsuite.Analysis.Timeline.Metadata.{text_le}
use atsuite.Analysis.Model.{
  RunContext, run_context_to_dict, run_context_from_dict, object_at, NodeObservation,
  node_observation_to_dict, node_observation_from_dict, InvocationObservation,
  invocation_observation_to_dict, invocation_observation_from_dict, SessionObservation,
  session_observation_to_dict, session_observation_from_dict, StateObservation,
  state_observation_to_dict, state_observation_from_dict,
}

pub record RunRecorder : Type 0 where
  pub context : RunContext
  pub nodes : Dict ℕ NodeObservation
  pub invocations : List InvocationObservation
  pub sessions : List SessionObservation
  pub state : List StateObservation

-- `float(t if t is not None else time.time())`
unfoldable pub time_or : Option ℤ → ℤ → ℤ
time_or none now = now
time_or (some t) now = t

-- RunRecorder.__init__, for a context with no uid and no times
unfoldable pub new_recorder : RunContext → RunRecorder
new_recorder context = record {
  context = record context { uid = ""; start_time = pos 0; end_time = pos 0 };
  nodes = [];
  invocations = [];
  sessions = [];
  state = [];
}

-- start_run
unfoldable pub start_run : String → Option ℤ → ℤ → RunRecorder → RunRecorder
unfolding time_or
start_run uid at now r = record {
  context = record r.context { uid = uid; start_time = time_or at now; end_time = pos 0 };
  nodes = [];
  invocations = [];
  sessions = [];
  state = [];
}

-- finish_run
unfoldable pub finish_run : Option ℤ → ℤ → RunRecorder → RunRecorder
unfolding time_or
finish_run at now r = record r { context = record r.context { end_time = time_or at now } }

-- What start_node is told of a node.
pub record NodeStart : Type 0 where
  pub node_id : ℕ
  pub node_name : String
  pub node_type : String
  pub runtime_name : String
  pub target_id : String
  pub family : String
  pub runtime_config : Fields

abbrev new_observation : ℕ → NodeObservation
new_observation n = record {
  node_id = n;
  node_name = "";
  node_type = "";
  runtime_name = "";
  target_id = "";
  family = "";
  runtime_config = end;
  start_time = pos 0;
  end_time = pos 0;
  elapsed_ms = pos 0;
  diagnostics = [];
}

-- The observation that start_node stores: an old one keeps its diagnostics.
unfoldable pub started : NodeStart → ℤ → NodeObservation → NodeObservation
started s t obs = record obs {
  node_name = s.node_name;
  node_type = s.node_type;
  runtime_name = s.runtime_name;
  target_id = s.target_id;
  family = s.family;
  runtime_config = s.runtime_config;
  start_time = t;
  end_time = pos 0;
  elapsed_ms = pos 0;
}

unfoldable pub old_or_new : Option NodeObservation → ℕ → NodeObservation
old_or_new none n = new_observation n
old_or_new (some obs) n = obs

-- start_node
unfoldable pub start_node : NodeStart → Option ℤ → ℤ → RunRecorder → RunRecorder
unfolding get put started time_or old_or_new
start_node s at now r = record r {
  nodes =
      put r.nodes s.node_id
        (started s (time_or at now) (old_or_new (get r.nodes s.node_id) s.node_id));
}

-- `max(0.0, a - b)`
unfoldable pub time_since : ℤ → ℤ → ℕ
time_since (pos a) (pos b) = a - b
time_since (pos a) (negsuc b) = a + suc b
time_since (negsuc a) (pos b) = 0
time_since (negsuc a) (negsuc b) = b - a

-- The observation that finish_node leaves; milliseconds are counted in millionths.
unfoldable pub finished : ℤ → NodeObservation → NodeObservation
unfolding time_since
finished t obs = record obs { end_time = t; elapsed_ms = pos (time_since t obs.start_time * 1000) }

unfoldable pub finish_at : Option NodeObservation → ℕ → ℤ → RunRecorder → RunRecorder
unfolding put finished
finish_at none n t r = r
finish_at (some obs) n t r = record r { nodes = put r.nodes n (finished t obs) }

-- finish_node
unfoldable pub finish_node : ℕ → Option ℤ → ℤ → RunRecorder → RunRecorder
unfolding get finish_at time_or
finish_node n at now r = finish_at (get r.nodes n) n (time_or at now) r

-- record_session_open; the uid is that of the run
unfoldable pub record_session_open :
    String → String → String → String → Fields → Option ℤ → ℤ → RunRecorder → RunRecorder
unfolding time_or
record_session_open target_id runtime_name session_id request_id metadata at now r = record r {
  sessions =
      r.sessions
      ++ record {
        uid = r.context.uid;
        target_id = target_id;
        runtime_name = runtime_name;
        provider_session_id = session_id;
        initialize_request_id = request_id;
        opened_at = time_or at now;
        closed_at = pos 0;
        metadata = metadata;
        evidence_refs = [];
      }
        ∷ [];
}

-- record_invocation: the uid is that of the run, and there is no evidence yet
unfoldable pub record_invocation : InvocationObservation → RunRecorder → RunRecorder
record_invocation i r = record r {
  invocations = r.invocations ++ record i { uid = r.context.uid; evidence_refs = [] } ∷ [];
}

unfoldable pub named_services : List String → List String
named_services [] = []
named_services (s ∷ services) =
    let rest = named_services services in if is_empty s then rest else s ∷ rest

insert_text : String → List String → List String
unfolding text_le
insert_text t [] = t ∷ []
insert_text t (u ∷ ts) = if text_le t u then t ∷ u ∷ ts else u ∷ insert_text t ts

-- `sorted(texts)`
unfoldable pub sort_texts : List String → List String
unfolding insert_text
sort_texts [] = []
sort_texts (t ∷ ts) = insert_text t (sort_texts ts)

-- record_state
unfoldable pub record_state : StateObservation → Option ℤ → ℤ → RunRecorder → RunRecorder
unfolding time_or named_services sort_texts
record_state o at now r = record r {
  state =
      r.state
      ++ record o {
        uid = r.context.uid;
        services = sort_texts (named_services o.services);
        ended_at = time_or at now;
      }
        ∷ [];
}

unfoldable pub insert_node : NodeObservation → List NodeObservation → List NodeObservation
insert_node n [] = n ∷ []
insert_node n (m ∷ nodes) =
    if leb n.node_id m.node_id then n ∷ m ∷ nodes else m ∷ insert_node n nodes

-- `sorted(nodes, key=lambda n: n.node_id)`
unfoldable pub sort_nodes : List NodeObservation → List NodeObservation
unfolding insert_node
sort_nodes [] = []
sort_nodes (n ∷ nodes) = insert_node n (sort_nodes nodes)

-- `[x.to_dict() for x in xs]`
unfoldable pub write_all {ℓ} : {A : Type ℓ} → (A → Fields) → List A → Items
write_all to_dict [] = nil
write_all to_dict (x ∷ xs) = cons (obj (to_dict x)) (write_all to_dict xs)

-- snapshot; SCHEMA_VERSION is 2
unfoldable pub snapshot : RunRecorder → Fields
unfolding sort_nodes write_all
snapshot r = field "schema_version" (int (pos 2)) (
    field "context" (obj (run_context_to_dict r.context)) (
      field "nodes" (arr (write_all node_observation_to_dict (sort_nodes (values r.nodes)))) (
        field "invocations" (arr (write_all invocation_observation_to_dict r.invocations)) (
          field "sessions" (arr (write_all session_observation_to_dict r.sessions))
            (field "state" (arr (write_all state_observation_to_dict r.state)) end)))))

-- `[T.from_dict(dict(raw)) for raw in ...]`; `dict` is given a dict
unfoldable pub read_all {ℓ} : {A : Type ℓ} → (Fields → Result A) → List Value → Result (List A)
unfolding ◌>>=◌
read_all from_dict [] = ok []
read_all from_dict (obj d ∷ vs) = do x ← from_dict d; xs ← read_all from_dict vs; ok (x ∷ xs)
read_all from_dict (v ∷ vs) = err wrong_type

-- `payload.get(k) or []`
unfoldable pub rows_at : Fields → String → Result (List Value)
unfolding value_of or_value iterate
rows_at d k = elim (iterate (or_value (value_of d k null) (arr nil))) [
  | none ↦ err wrong_type
  | some vs ↦ ok vs
]

unfoldable pub index_nodes : List NodeObservation → Dict ℕ NodeObservation → Dict ℕ NodeObservation
unfolding put
index_nodes [] d = d
index_nodes (n ∷ nodes) d = index_nodes nodes (put d n.node_id n)

-- from_events, on the object that the file holds
unfoldable pub from_events : Fields → Result RunRecorder
from_events d = do
  context_fields ← object_at d "context"
  context ← run_context_from_dict context_fields
  node_rows ← rows_at d "nodes"
  nodes ← read_all node_observation_from_dict node_rows
  invocation_rows ← rows_at d "invocations"
  invocations ← read_all invocation_observation_from_dict invocation_rows
  session_rows ← rows_at d "sessions"
  sessions ← read_all session_observation_from_dict session_rows
  state_rows ← rows_at d "state"
  state ← read_all state_observation_from_dict state_rows
  ok (record {
    context = context;
    nodes = index_nodes nodes [];
    invocations = invocations;
    sessions = sessions;
    state = state;
  })
