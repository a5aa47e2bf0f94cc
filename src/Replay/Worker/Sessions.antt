-- ===== src/Replay/Worker/Sessions.antt =====
-- The sessions of a run: session_for_target of atsuite/invoker.py, by any number of workers.
use atsuite.Base.{
  String, ◌≡◌, refl, ap, sym, ◌∙◌, Option, none, some, List, [], ◌∷◌, ◌++◌, map, string_eq,
  if◌then◌else◌, arith,
}
use mathlib.Core.List.{map-append}
use atsuite.Base.Dict.{Dict, get, has, put, get-put}
use atsuite.Base.Int.{ℤ}
use atsuite.Base.Json.{null, str}
use atsuite.Base.Convert.{text_of, or_value, value_of}
use atsuite.Base.Sets.{count, count-append}
use atsuite.Result.{Result, ok, err}
use atsuite.Analysis.Recorder.{RunRecorder, record_session_open}
use atsuite.Runtime.{RuntimeTarget, RuntimeSession}
use atsuite.Runtime.Adapter.{Clients, open_session}
use atsuite.Replay.Worker.{
  Shared, keep_session, session_opened, open_for, session_from, session_for_target,
}
use atsuite.Replay.Calls.{Run, analyzer_call, runtime_target_at}

module _ (c : Clients) where
  -- The targets of the sessions that were observed, in order.
  abbrev pub opened_targets : RunRecorder → List String
  opened_targets r = map (λ s. s.target_id) r.sessions

  -- A session was observed once for each target that has one, and for no other.
  pub record OpensOnce (w : Shared c) : Type 0 where
    pub recorder : RunRecorder
    pub is_there : w.analyzer ≡ some recorder
    pub once :
        (name : String)
        → count (opened_targets recorder) name ≡ (if has w.sessions name then 1 else 0)

  count-opened :
      (name target : String) (sessions : Dict String RuntimeSession) (session : RuntimeSession)
      (seen : List String)
      → get sessions target ≡ none
      → count seen name ≡ (if has sessions name then 1 else 0)
      → count (seen ++ target ∷ []) name ≡ (if has (put sessions target session) name then 1 else 0)
  unfolding count
  count-opened name target sessions session seen new once =
      ground (arith, count-append seen (target ∷ []) name, get-put sessions target name session)

  keep_session-OpensOnce :
      (name : String) (session : RuntimeSession) (opened : ℤ) (w : Shared c)
      → get w.sessions name ≡ none
      → OpensOnce w
      → OpensOnce (keep_session c name session opened w)
  unfolding keep_session analyzer_call record_session_open
  keep_session-OpensOnce name session opened w new k =
      let f =
        record_session_open name name session.provider_session_id
          (text_of (or_value (value_of session.metadata "initialize_request_id" null) (str "")))
          session.metadata none opened in
      record {
        recorder = f k.recorder;
        is_there = ap (analyzer_call f) k.is_there;
        once = λ other.
            ap (λ seen. count seen other) (map-append (λ s. s.target_id) k.recorder.sessions _)
            ∙ count-opened other name w.sessions session (opened_targets k.recorder) new
                (k.once other);
      }

  session_opened-OpensOnce :
      (name : String) (opened : ℤ) (answer : Result RuntimeSession) (w : Shared c)
      → get w.sessions name ≡ none
      → OpensOnce w
      → OpensOnce (session_opened c name opened answer w).0
  unfolding session_opened
  session_opened-OpensOnce name opened (err e) w new k = k
  session_opened-OpensOnce name opened (ok session) w new k =
      keep_session-OpensOnce name session opened w new k

  open_for-OpensOnce :
      (run : Run) (opened : ℤ) (target : Result RuntimeTarget) (name : String) (w : Shared c)
      → get w.sessions name ≡ none
      → OpensOnce w
      → OpensOnce (open_for c run opened target name w).0
  unfolding open_for
  open_for-OpensOnce run opened (err e) name w new k = k
  open_for-OpensOnce run opened (ok target) name w new k =
      let answer = open_session c w.adapter target run.uid in
      session_opened-OpensOnce name opened answer.1 (record w { adapter = answer.0 }) new
        (record { recorder = k.recorder; is_there = k.is_there; once = k.once })

  session_from-OpensOnce :
      (run : Run) (opened : ℤ) (old : Option RuntimeSession) (name : String) (w : Shared c)
      → get w.sessions name ≡ old
      → OpensOnce w
      → OpensOnce (session_from c run opened old name w).0
  unfolding session_from
  session_from-OpensOnce run opened (some session) name w found k = k
  session_from-OpensOnce run opened none name w new k =
      open_for-OpensOnce run opened (runtime_target_at run.targets name) name w new k

  -- The calls of all workers, in the order in which they take the lock.
  unfoldable pub ask_sessions : Run → List (ℤ × String) → Shared c → Shared c
  unfolding session_for_target
  ask_sessions run [] w = w
  ask_sessions run ((opened, name) ∷ calls) w =
      ask_sessions run calls (session_for_target c run opened name w).0

  ask_sessions-keeps :
      (run : Run) (calls : List (ℤ × String)) (w : Shared c)
      → OpensOnce w
      → OpensOnce (ask_sessions run calls w)
  unfolding ask_sessions session_for_target
  ask_sessions-keeps run [] w k = k
  ask_sessions-keeps run ((opened, name) ∷ calls) w k =
      ask_sessions-keeps run calls (session_for_target c run opened name w).0
        (session_from-OpensOnce run opened (get w.sessions name) name w refl k)

  -- If no session is open or observed at first, then after any sequence of calls of
  -- `session_for_target`, in the order in which the workers take the lock and whichever of them
  -- raise, the recorder holds one session observation for each target that has a session and none
  -- for any other.
  pub ask_sessions-OpensOnce :
      (run : Run) (calls : List (ℤ × String)) (w : Shared c) (r : RunRecorder)
      → w.analyzer ≡ some r
      → w.sessions ≡ []
      → r.sessions ≡ []
      → OpensOnce (ask_sessions run calls w)
  unfolding count get
  ask_sessions-OpensOnce run calls w r there none_open none_seen =
      ask_sessions-keeps run calls w (record {
        recorder = r;
        is_there = there;
        once = λ name.
            ap (λ s. count (map (λ x. x.target_id) s) name) none_seen
            ∙ sym (ap (λ d. if has d name then 1 else 0) none_open);
      })
