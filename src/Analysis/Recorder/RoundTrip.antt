-- ===== src/Analysis/Recorder/RoundTrip.antt =====
-- `snapshot` and `from_events` of RunRecorder (atsuite/analysis/observer.py).
use atsuite.Base.{
  ℕ, String, ◌≡◌, refl, subst, ◌∙◌, Option, none, some, List, [], ◌∷◌, nat_eq, string_eq,
}
use atsuite.Base.Dict.{Dict, get, put, values, All-get}
use atsuite.Base.Int.{ℤ}
use atsuite.Base.Json.{arr, Fields, find}
use atsuite.Base.Convert.{value_of, or_value, truthy, iterate, elements}
use atsuite.Result.{Result, ok, ◌>>=◌}
use atsuite.Analysis.Model.{
  RunContext, InvocationObservation, StateObservation, NodeObservation, node_observation_to_dict,
  node_observation_from_dict, invocation_observation_to_dict, invocation_observation_from_dict,
  session_observation_to_dict, session_observation_from_dict, state_observation_to_dict,
  state_observation_from_dict, run_context_to_dict,
}
use atsuite.Analysis.Model.RoundTrip.{from_dict-to_dict, object_at-found}
use atsuite.Analysis.Recorder.{
  RunRecorder, new_recorder, start_run, finish_run, NodeStart, started, old_or_new, start_node,
  finished, finish_at, finish_node, record_session_open, record_invocation, record_state, time_or,
  sort_nodes, write_all, read_all, rows_at, index_nodes, snapshot, from_events,
}
use atsuite.Analysis.Recorder.Keyed.{
  option_eta, get-index_nodes, Unique-sort_nodes, by_id-sort_nodes, IsKeyed, by_id-values,
  put-IsKeyed,
}

read_all-write_all {ℓ} :
    {A : Type ℓ} (to_dict : A → Fields) (from_dict : Fields → Result A)
    → ((x : A) → from_dict (to_dict x) ≡ ok x)
    → (xs : List A) → read_all from_dict (elements (write_all to_dict xs)) ≡ ok xs
unfolding read_all write_all elements ◌>>=◌
read_all-write_all to_dict from_dict h [] = refl
read_all-write_all to_dict from_dict h (x ∷ xs) =
    rw (h x, read_all-write_all to_dict from_dict h xs) refl

rows_at-found {ℓ} :
    {A : Type ℓ} (to_dict : A → Fields) (xs : List A) (d : Fields) (k : _)
    → find d k ≡ some (arr (write_all to_dict xs))
    → rows_at d k ≡ ok (elements (write_all to_dict xs))
unfolding rows_at value_of or_value truthy iterate write_all elements
rows_at-found to_dict [] d k h = rw (rows_at, value_of, h)
rows_at-found to_dict (x ∷ xs) d k h = rw (rows_at, value_of, h)

-- What the methods make of a new recorder.
pub data Recorded : RunRecorder → Type 0 where
  created : (context : RunContext) → Recorded (new_recorder context)
  run_started :
      {r : RunRecorder} (uid : String) (at : Option ℤ) (now : ℤ)
      → Recorded r
      → Recorded (start_run uid at now r)
  run_finished :
      {r : RunRecorder} (at : Option ℤ) (now : ℤ) → Recorded r → Recorded (finish_run at now r)
  node_started :
      {r : RunRecorder} (s : NodeStart) (at : Option ℤ) (now : ℤ)
      → Recorded r
      → Recorded (start_node s at now r)
  node_finished :
      {r : RunRecorder} (n : ℕ) (at : Option ℤ) (now : ℤ)
      → Recorded r
      → Recorded (finish_node n at now r)
  session_opened :
      {r : RunRecorder} (target runtime session request : String) (metadata : Fields)
      (at : Option ℤ) (now : ℤ)
      → Recorded r
      → Recorded (record_session_open target runtime session request metadata at now r)
  invoked :
      {r : RunRecorder} (i : InvocationObservation) → Recorded r → Recorded (record_invocation i r)
  state_recorded :
      {r : RunRecorder} (o : StateObservation) (at : Option ℤ) (now : ℤ)
      → Recorded r
      → Recorded (record_state o at now r)

-- An observation that is stored under its id leaves the nodes keyed.
store-IsKeyed :
    {d : Dict ℕ NodeObservation} (n : ℕ) (o : NodeObservation)
    → o.node_id ≡ n
    → IsKeyed d
    → IsKeyed (put d n o)
store-IsKeyed {d} n o e v = subst (λ k. IsKeyed (put d k o)) e (put-IsKeyed o v)

old_or_new-id :
    (old : Option NodeObservation) (d : Dict ℕ NodeObservation) (n : ℕ)
    → get d n ≡ old
    → IsKeyed d
    → (old_or_new old n).node_id ≡ n
unfolding old_or_new
old_or_new-id none d n e v = refl
old_or_new-id (some o) d n e v = All-get (λ x. x.1.node_id ≡ x.0) d n o v.own_ids e

finish_at-IsKeyed :
    (old : Option NodeObservation) (n : ℕ) (t : ℤ) (r : RunRecorder)
    → get r.nodes n ≡ old
    → IsKeyed r.nodes
    → IsKeyed (finish_at old n t r).nodes
unfolding finish_at finished
finish_at-IsKeyed none n t r e v = v
finish_at-IsKeyed (some o) n t r e v =
    store-IsKeyed n (finished t o) (All-get (λ x. x.1.node_id ≡ x.0) r.nodes n o v.own_ids e) v

Recorded-IsKeyed : {r : RunRecorder} → Recorded r → IsKeyed r.nodes
unfolding new_recorder start_run finish_run start_node started finish_node record_session_open
    record_invocation record_state
Recorded-IsKeyed (created context) = record { own_ids = tt; unique = tt }
Recorded-IsKeyed (run_started uid at now h) = record { own_ids = tt; unique = tt }
Recorded-IsKeyed (run_finished at now h) = Recorded-IsKeyed h
Recorded-IsKeyed (node_started {r} s at now h) =
    let v = Recorded-IsKeyed h in
    let old = get r.nodes s.node_id in
    store-IsKeyed s.node_id (started s (time_or at now) (old_or_new old s.node_id))
      (old_or_new-id old r.nodes s.node_id refl v) v
Recorded-IsKeyed (node_finished {r} n at now h) =
    finish_at-IsKeyed (get r.nodes n) n (time_or at now) r refl (Recorded-IsKeyed h)
Recorded-IsKeyed (session_opened target runtime session request metadata at now h) =
    Recorded-IsKeyed h
Recorded-IsKeyed (invoked i h) = Recorded-IsKeyed h
Recorded-IsKeyed (state_recorded o at now h) = Recorded-IsKeyed h

-- The same observations, the nodes in any order.
pub record Same (r r' : RunRecorder) : Type 0 where
  pub context : r'.context ≡ r.context
  pub nodes : (n : ℕ) → get r'.nodes n ≡ get r.nodes n
  pub invocations : r'.invocations ≡ r.invocations
  pub sessions : r'.sessions ≡ r.sessions
  pub state : r'.state ≡ r.state

reread : RunRecorder → RunRecorder
reread r = record r { nodes = index_nodes (sort_nodes (values r.nodes)) [] }

get-reread : (r : RunRecorder) (n : ℕ) → IsKeyed r.nodes → get (reread r).nodes n ≡ get r.nodes n
unfolding reread
get-reread r n v =
    get-index_nodes (sort_nodes (values r.nodes)) [] n (Unique-sort_nodes (values r.nodes) v.unique)
    ∙ rw (by_id-sort_nodes (values r.nodes) n v.unique, by_id-values r.nodes n v.own_ids)
        (option_eta (get r.nodes n) n)

from_events-snapshot_eq : (r : RunRecorder) → from_events (snapshot r) ≡ ok (reread r)
unfolding from_events snapshot find string_eq ◌>>=◌ reread
from_events-snapshot_eq r =
    let d = snapshot r in
    let laws = from_dict-to_dict in
    let nodes = sort_nodes (values r.nodes) in
    let r0 = object_at-found d "context" (run_context_to_dict r.context) refl in
    let r1 = laws.0 r.context in
    let r2 = rows_at-found node_observation_to_dict nodes d "nodes" refl in
    let r3 = read_all-write_all node_observation_to_dict node_observation_from_dict laws.1 nodes in
    let r4 = rows_at-found invocation_observation_to_dict r.invocations d "invocations" refl in
    let r5 =
      read_all-write_all invocation_observation_to_dict invocation_observation_from_dict laws.2
        r.invocations in
    let r6 = rows_at-found session_observation_to_dict r.sessions d "sessions" refl in
    let r7 =
      read_all-write_all session_observation_to_dict session_observation_from_dict laws.3
        r.sessions in
    let r8 = rows_at-found state_observation_to_dict r.state d "state" refl in
    let r9 =
      read_all-write_all state_observation_to_dict state_observation_from_dict laws.4 r.state in
    rw (r0, r1, r2, r3, r4, r5, r6, r7, r8, r9) refl

-- If a recorder has been reached by calls of its methods from a new one, `from_events` on its
-- snapshot returns a recorder with the same context, invocations, sessions and state observations,
-- and with the same observation under each node id.
pub from_events-snapshot :
    {r : RunRecorder}
    → Recorded r
    → (r' : RunRecorder) × (from_events (snapshot r) ≡ ok r') × Same r r'
unfolding reread
from_events-snapshot {r} h = (
  reread r,
  from_events-snapshot_eq r,
  record {
    context = refl;
    nodes = λ n. get-reread r n (Recorded-IsKeyed h);
    invocations = refl;
    sessions = refl;
    state = refl;
  },
)
