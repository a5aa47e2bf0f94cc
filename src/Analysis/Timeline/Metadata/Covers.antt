-- ===== src/Analysis/Timeline/Metadata/Covers.antt =====
-- The names of processes and threads (`_metadata_events` of atsuite/analysis/timeline.py).
use atsuite.Base.{
  In-append, append-In, ℕ, suc, String, Bool, true, false, ◌&&◌, List, [], ◌∷◌, ◌≡◌, subst, ◌==◌,
  string_eq, if◌then◌else◌, arith, In, first, later, Bool-cases, inl, inr,
}
use atsuite.Base.Int.{pos}
use atsuite.Base.Json.{int, str}
use atsuite.Analysis.Timeline.Event.{TimelineEvent}
use atsuite.Analysis.Timeline.Metadata.{
  process_le, text_le, insert_pid, pids_of, insert_tid, tids_of, metadata_event, process_events,
  thread_events, metadata_events,
}

insert_pid-In : (pid : String) (pids : List String) → In pid (insert_pid pid pids)
unfolding insert_pid
insert_pid-In pid [] = first
insert_pid-In pid (p ∷ pids) = elim (string_eq.dec pid p) [
  | yes same ↦
      let hit : (pid == p) ≡ true = ground arith in
      rw hit (subst (λ q. In pid (q ∷ pids)) same first)
  | no n ↦
      let miss : (pid == p) ≡ false = ground arith in
      elim (Bool-cases (process_le pid p)) [
        | inl before ↦ rw (miss, before) first
        | inr after ↦ rw (miss, after) (later (insert_pid-In pid pids))
      ]
]

insert_pid-keeps : (pid q : String) {pids : List String} → In q pids → In q (insert_pid pid pids)
unfolding insert_pid
insert_pid-keeps pid q (first {xs = pids}) = elim (Bool-cases (pid == q)) [
  | inl hit ↦ rw hit first
  | inr miss ↦ elim (Bool-cases (process_le pid q)) [
    | inl before ↦ rw (miss, before) (later first)
    | inr after ↦ rw (miss, after) first
  ]
]
insert_pid-keeps pid q (later {x = p} {xs = pids} h) = elim (Bool-cases (pid == p)) [
  | inl hit ↦ rw hit (later h)
  | inr miss ↦ elim (Bool-cases (process_le pid p)) [
    | inl before ↦ rw (miss, before) (later (later h))
    | inr after ↦ rw (miss, after) (later (insert_pid-keeps pid q h))
  ]
]

-- Whether the pair goes in front.
abbrev pair_le : String → String → String → String → Bool
pair_le pid tid p t = if pid == p then text_le tid t else text_le pid p

insert_tid-In :
    (pid tid : String) (tids : List (String × String)) → In (pid, tid) (insert_tid (pid, tid) tids)
unfolding insert_tid
insert_tid-In pid tid [] = first
insert_tid-In pid tid ((p, t) ∷ tids) = elim (Bool-cases (pid == p && tid == t)) [
  | inl hit ↦
      let same : (pid, tid) ≡ (p, t) = ground arith in
      rw hit (subst (λ x. In (pid, tid) (x ∷ tids)) same first)
  | inr miss ↦ elim (Bool-cases (pair_le pid tid p t)) [
    | inl before ↦ rw (miss, before) first
    | inr after ↦ rw (miss, after) (later (insert_tid-In pid tid tids))
  ]
]

insert_tid-keeps :
    (pid tid : String) (x : String × String) {tids : List (String × String)}
    → In x tids
    → In x (insert_tid (pid, tid) tids)
unfolding insert_tid
insert_tid-keeps pid tid (p, t) (first {xs = tids}) = elim (Bool-cases (pid == p && tid == t)) [
  | inl hit ↦ rw hit first
  | inr miss ↦ elim (Bool-cases (pair_le pid tid p t)) [
    | inl before ↦ rw (miss, before) (later first)
    | inr after ↦ rw (miss, after) first
  ]
]
insert_tid-keeps pid tid x (later {x = (p, t)} {xs = tids} h) =
    elim (Bool-cases (pid == p && tid == t)) [
      | inl hit ↦ rw hit (later h)
      | inr miss ↦ elim (Bool-cases (pair_le pid tid p t)) [
        | inl before ↦ rw (miss, before) (later (later h))
        | inr after ↦ rw (miss, after) (later (insert_tid-keeps pid tid x h))
      ]
    ]

In-process_events :
    (pid : String) (index : ℕ) {pids : List String}
    → In pid pids
    → In
        (metadata_event "process_name" pid (int (pos 0)) "name" (str pid))
        (process_events index pids)
unfolding process_events
In-process_events pid index first = first
In-process_events pid index (later h) = later (later (In-process_events pid (suc index) h))

In-thread_events :
    (pid tid : String) {tids : List (String × String)}
    → In (pid, tid) tids
    → In (metadata_event "thread_name" pid (str tid) "name" (str tid)) (thread_events tids)
unfolding thread_events
In-thread_events pid tid first = first
In-thread_events pid tid (later {x = (p, t)} h) = later (later (In-thread_events pid tid h))

pids_of-In :
    {e : TimelineEvent} {events : List TimelineEvent} → In e events → In e.pid (pids_of events)
unfolding pids_of
pids_of-In {e} (first {xs = events}) = insert_pid-In e.pid (pids_of events)
pids_of-In {e} (later {x = x} h) = insert_pid-keeps x.pid e.pid (pids_of-In h)

tids_of-In :
    {e : TimelineEvent} {events : List TimelineEvent}
    → In e events
    → In (e.pid, e.tid) (tids_of events)
unfolding tids_of
tids_of-In {e} (first {xs = events}) = insert_tid-In e.pid e.tid (tids_of events)
tids_of-In {e} (later {x = x} h) = insert_tid-keeps x.pid x.tid (e.pid, e.tid) (tids_of-In h)

-- For an event of a timeline, `_metadata_events` holds the event that names its process and the one
-- that names its thread.
pub metadata_events-names :
    (events : List TimelineEvent) (e : TimelineEvent)
    → In e events
    → In
        (metadata_event "process_name" e.pid (int (pos 0)) "name" (str e.pid))
        (metadata_events events)
      × In
          (metadata_event "thread_name" e.pid (str e.tid) "name" (str e.tid))
          (metadata_events events)
unfolding metadata_events
metadata_events-names events e h = (
  In-append (thread_events (tids_of events)) (In-process_events e.pid 0 (pids_of-In h)),
  append-In (process_events 0 (pids_of events)) (In-thread_events e.pid e.tid (tids_of-In h)),
)
