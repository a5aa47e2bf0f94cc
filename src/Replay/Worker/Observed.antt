-- ===== src/Replay/Worker/Observed.antt =====
-- What the recorder holds of a node after execute_node (atsuite/invoker.py).
use atsuite.Base.{
  ℕ, ◌*◌, String, Bool, ◌≡◌, refl, ap, ◌∙◌, ◌&&◌, Option, none, some, nat_eq, string_eq, ◌==◌,
  arith, Bool-cases, inl, inr,
}
use atsuite.Base.Dict.{get, get-put_self}
use atsuite.Base.Int.{ℤ, pos}
use atsuite.Result.{Result, ok, err}
use atsuite.Pipeline.Data.{ResolvedTarget}
use atsuite.Analysis.Model.{NodeObservation, InvocationObservation}
use atsuite.Analysis.Recorder.{
  RunRecorder, NodeStart, start_node, started, old_or_new, finish_node, finish_at, finished,
  record_session_open, record_invocation, time_or, time_since,
}
use atsuite.Analysis.Recorder.RoundTrip.{
  Recorded, node_started, node_finished, session_opened, invoked,
}
use atsuite.Runtime.{RuntimeTarget, RuntimeSession}
use atsuite.Runtime.Adapter.{Clients}
use atsuite.Replay.Worker as Worker
use atsuite.Replay.Worker.{
  Shared, keep_session, open_for, session_from, session_for_target, end_node, observe,
  mark_stateful, settle_failed, settle_done, settle_call, invoke_tool, call_tool, begin_node,
  run_tool, run_plain, execute_known, execute_node,
}
use atsuite.Replay.Calls.{Run, analyzer_call}

-- A node was started at `t` and has not ended.
pub record IsRunning (n : ℕ) (t : ℤ) (a : Option RunRecorder) : Type 0 where
  pub recorder : RunRecorder
  pub obs : NodeObservation
  pub is_there : a ≡ some recorder
  pub recorded : Recorded recorder
  pub stored : get recorder.nodes n ≡ some obs
  pub start : obs.start_time ≡ t

-- A node was started at `t` and ended at `e`, and its elapsed time is what lies between.
pub record IsEnded (n : ℕ) (t e : ℤ) (a : Option RunRecorder) : Type 0 where
  pub recorder : RunRecorder
  pub obs : NodeObservation
  pub is_there : a ≡ some recorder
  pub recorded : Recorded recorder
  pub stored : get recorder.nodes n ≡ some obs
  pub start : obs.start_time ≡ t
  pub end_at : obs.end_time ≡ e
  pub elapsed : obs.elapsed_ms ≡ pos (time_since e t * 1000)

pub start-IsRunning :
    (s : NodeStart) (t : ℤ) (r : RunRecorder)
    → Recorded r
    → IsRunning s.node_id t (some (start_node s none t r))
unfolding start_node started time_or
start-IsRunning s t r h = record {
  recorder = start_node s none t r;
  obs = started s t (old_or_new (get r.nodes s.node_id) s.node_id);
  is_there = refl;
  recorded = node_started s none t h;
  stored = get-put_self r.nodes s.node_id _;
  start = refl;
}

finish_at-IsEnded :
    (n : ℕ) (t e : ℤ) (r : RunRecorder) (o : NodeObservation) (old : Option NodeObservation)
    → old ≡ some o
    → o.start_time ≡ t
    → (x : NodeObservation) × (get (finish_at old n e r).nodes n ≡ some x)
      × (x.start_time ≡ t)
      × (x.end_time ≡ e)
      × (x.elapsed_ms ≡ pos (time_since e t * 1000))
unfolding finish_at finished
finish_at-IsEnded n t e r o none found start = cc
finish_at-IsEnded n t e r o (some x) found start =
    let same : x.start_time ≡ t = ground arith in
    (
      finished e x,
      get-put_self r.nodes n (finished e x),
      same,
      refl,
      ap (λ s. pos (time_since e s * 1000)) same,
    )

pub finish-IsEnded :
    {n : ℕ} {t : ℤ} {a : Option RunRecorder} (e : ℤ)
    → IsRunning n t a
    → IsEnded n t e (analyzer_call (finish_node n none e) a)
unfolding analyzer_call finish_node time_or
finish-IsEnded {n} {t} {a} e k =
    let (x, stored, start, end_at, elapsed) =
      finish_at-IsEnded n t e k.recorder k.obs (get k.recorder.nodes n) k.stored k.start in
    record {
      recorder = finish_node n none e k.recorder;
      obs = x;
      is_there = ap (analyzer_call (finish_node n none e)) k.is_there;
      recorded = node_finished n none e k.recorded;
      stored = stored;
      start = start;
      end_at = end_at;
      elapsed = elapsed;
    }

-- A method that leaves the nodes alone.
keep-IsRunning :
    {n : ℕ} {t : ℤ} {a : Option RunRecorder} (f : RunRecorder → RunRecorder)
    → ((r : RunRecorder) → Recorded r → Recorded (f r))
    → ((r : RunRecorder) → (f r).nodes ≡ r.nodes)
    → IsRunning n t a
    → IsRunning n t (analyzer_call f a)
unfolding analyzer_call
keep-IsRunning {n} f keeps same k = record {
  recorder = f k.recorder;
  obs = k.obs;
  is_there = ap (analyzer_call f) k.is_there;
  recorded = keeps k.recorder k.recorded;
  stored = ap (λ d. get d n) (same k.recorder) ∙ k.stored;
  start = k.start;
}

module _ (c : Clients) (n : ℕ) (t : ℤ) where
  abbrev pub Runs : Shared c → Type 0
  Runs w = IsRunning n t w.analyzer

  keep_session-Runs :
      (name : String) (session : RuntimeSession) (opened : ℤ) (w : Shared c)
      → Runs w
      → Runs (keep_session c name session opened w)
  unfolding keep_session record_session_open
  keep_session-Runs name session opened w k =
      keep-IsRunning _
        (λ r h.
          session_opened name name session.provider_session_id _ session.metadata none opened h)
        (λ r. refl) k

  session_opened-Runs :
      (name : String) (opened : ℤ) (answer : Result RuntimeSession) (w : Shared c)
      → Runs w
      → Runs (Worker.session_opened c name opened answer w).0
  unfolding Worker.session_opened
  session_opened-Runs name opened (err e) w k = k
  session_opened-Runs name opened (ok session) w k = keep_session-Runs name session opened w k

  open_for-Runs :
      (run : Run) (opened : ℤ) (target : Result RuntimeTarget) (name : String) (w : Shared c)
      → Runs w
      → Runs (open_for c run opened target name w).0
  unfolding open_for
  open_for-Runs run opened (err e) name w k = k
  open_for-Runs run opened (ok target) name w k = session_opened-Runs name opened _ _ k

  pub session_from-Runs :
      (run : Run) (opened : ℤ) (old : Option RuntimeSession) (name : String) (w : Shared c)
      → Runs w
      → Runs (session_from c run opened old name w).0
  unfolding session_from
  session_from-Runs run opened (some session) name w k = k
  session_from-Runs run opened none name w k = open_for-Runs run opened _ name w k

  pub observe-Runs : (i : InvocationObservation) (w : Shared c) → Runs w → Runs (observe c i w)
  unfolding observe record_invocation
  observe-Runs i w k = keep-IsRunning (record_invocation i) (λ r h. invoked i h) (λ r. refl) k

  pub mark_stateful-Runs :
      (target : ResolvedTarget) (stateful : Bool) (w : Shared c)
      → Runs w
      → Runs (mark_stateful c target stateful w)
  unfolding mark_stateful
  mark_stateful-Runs target stateful w k = elim (Bool-cases (target.family == "faas" && stateful)) [
    | inl e ↦ rw e k
    | inr e ↦ rw e k
  ]
