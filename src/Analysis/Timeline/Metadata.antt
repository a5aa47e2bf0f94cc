-- ===== src/Analysis/Timeline/Metadata.antt =====
-- `_metadata_events` of atsuite/analysis/timeline.py: the names and the order of processes and threads.
pub mod Covers
use Prim.Native.Nat.{Ordering}
use Prim.Native.String.{compare}
use atsuite.Base.{
  ℕ, suc, ◌+◌, ◌-◌, String, Bool, true, false, not, ◌&&◌, List, [], ◌∷◌, ◌++◌, ltb, leb, ◌==◌,
  string_eq, if◌then◌else◌,
}
use atsuite.Base.Int.{ℤ, pos, negsuc}
use atsuite.Base.Json.{Value, int, str, obj, Fields, end, field}
use atsuite.Base.Text.{starts_with, drop}
use atsuite.Analysis.Timeline.Times.{int_num}
use atsuite.Analysis.Timeline.Event.{TimelineEvent}

-- `s <= t` and `s < t`, by code points
unfoldable pub text_le : String → String → Bool
text_le s t = elim (compare s t) [ Ordering.gt ↦ false | _ ↦ true ]

-- _process_sort_key, the first component
unfoldable pub process_rank : String → ℕ
unfolding starts_with
process_rank pid =
    if pid == "client"
    then 0
    else if starts_with "provider:" pid
    then 1
    else if starts_with "app:" pid
    then 2
    else 9

unfoldable pub process_le : String → String → Bool
unfolding process_rank text_le
process_le a b =
    if ltb (process_rank a) (process_rank b)
    then true
    else if ltb (process_rank b) (process_rank a)
    then false
    else text_le a b

-- `k + z`
unfoldable pub offset : ℕ → ℤ → ℤ
offset k (pos n) = pos (k + n)
offset k (negsuc n) = if ltb n k then pos (k - suc n) else negsuc (n - k)

-- _thread_sort_index
unfoldable pub thread_sort_index : String → ℤ
unfolding starts_with drop int_num offset
thread_sort_index tid =
    if tid == "run"
    then pos 0
    else if starts_with "llm/" tid
    then offset 100 (int_num (str (drop 4 tid)))
    else if starts_with "tool_use/" tid
    then offset 200 (int_num (str (drop 9 tid)))
    else if tid == "provider"
    then pos 0
    else if tid == "session"
    then pos 50
    else if tid == "app"
    then pos 0
    else if tid == "tool"
    then pos 100
    else if tid == "overhead"
    then pos 200
    else if tid == "diagnostic"
    then pos 900
    else pos 500

-- A process into the sorted list without repetition.
unfoldable pub insert_pid : String → List String → List String
insert_pid pid [] = pid ∷ []
insert_pid pid (p ∷ pids) =
    if pid == p
    then p ∷ pids
    else if process_le pid p
    then pid ∷ p ∷ pids
    else p ∷ insert_pid pid pids

-- `sorted({event.pid for event in events}, key=self._process_sort_key)`
unfoldable pub pids_of : List TimelineEvent → List String
pids_of [] = []
pids_of (e ∷ events) = insert_pid e.pid (pids_of events)

-- A thread, by process and then by thread, as Python orders pairs.
unfoldable pub insert_tid : String × String → List (String × String) → List (String × String)
unfolding text_le
insert_tid (pid, tid) [] = (pid, tid) ∷ []
insert_tid (pid, tid) ((p, t) ∷ tids) =
    let rest = insert_tid (pid, tid) tids in
    if pid == p && tid == t
    then (p, t) ∷ tids
    else if (if pid == p then text_le tid t else text_le pid p)
    then (pid, tid) ∷ (p, t) ∷ tids
    else (p, t) ∷ rest

-- `sorted({(event.pid, event.tid) for event in events})`
unfoldable pub tids_of : List TimelineEvent → List (String × String)
tids_of [] = []
tids_of (e ∷ events) = insert_tid (e.pid, e.tid) (tids_of events)

unfoldable pub metadata_event : String → String → Value → String → Value → Value
metadata_event name pid tid key v = obj (
    field "name" (str name) (
      field "ph" (str "M")
        (field "pid" (str pid) (field "tid" tid (field "args" (obj (field key v end)) end)))))

unfoldable pub process_events : ℕ → List String → List Value
process_events index [] = []
process_events index (pid ∷ pids) =
    metadata_event "process_name" pid (int (pos 0)) "name" (str pid)
    ∷ metadata_event "process_sort_index" pid (int (pos 0)) "sort_index" (int (pos index))
    ∷ process_events (suc index) pids

unfoldable pub thread_events : List (String × String) → List Value
thread_events [] = []
thread_events ((pid, tid) ∷ tids) =
    metadata_event "thread_name" pid (str tid) "name" (str tid)
    ∷ metadata_event "thread_sort_index" pid (str tid) "sort_index" (int (thread_sort_index tid))
    ∷ thread_events tids

-- _metadata_events
unfoldable pub metadata_events : List TimelineEvent → List Value
metadata_events events = process_events 0 (pids_of events) ++ thread_events (tids_of events)
