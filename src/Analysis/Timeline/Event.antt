-- ===== src/Analysis/Timeline/Event.antt =====
-- TimelineEvent, `_span`, `_instant` and `_base_args` of atsuite/analysis/timeline.py.
use atsuite.Base.{
  ℕ, ◌-◌, String, Bool, true, false, Option, none, some, List, [], ◌∷◌, ◌++◌, ltb, leb, ◌==◌,
  string_eq, if◌then◌else◌,
}
use atsuite.Base.Int.{pos}
use atsuite.Base.Json.{Value, null, int, str, obj, Fields, end, field, assign, update}
use atsuite.Base.Text.{is_empty}
use atsuite.Analysis.Model.{RunContext}

pub record TimelineEvent : Type 0 where
  pub name : String
  pub cat : String
  pub ph : String
  pub ts : ℕ
  pub pid : String
  pub tid : String
  pub dur : Option ℕ
  pub args : Fields
  pub scope : String

abbrev add_dur : String → Option ℕ → Fields → Fields
add_dur ph none payload = payload
add_dur ph (some d) payload = if ph == "X" then assign payload "dur" (int (pos d)) else payload

abbrev add_args : Fields → Fields → Fields
add_args end payload = payload
add_args (field k v fs) payload = assign payload "args" (obj (field k v fs))

-- TimelineEvent.to_dict
unfoldable pub event_to_dict : TimelineEvent → Value
unfolding assign
event_to_dict e =
    let payload = field "name" (str e.name) (
      field "cat" (str e.cat) (
        field "ph" (str e.ph)
          (field "ts" (int (pos e.ts)) (field "pid" (str e.pid) (field "tid" (str e.tid) end))))) in
    let timed = add_dur e.ph e.dur payload in
    obj (add_args e.args (if e.ph == "i" then assign timed "s" (str e.scope) else timed))

-- `v not in (None, "")`
abbrev is_given : Value → Bool
is_given null = false
is_given (str s) = if is_empty s then false else true
is_given v = true

given : Fields → Fields
given end = end
given (field k v fs) = let rest = given fs in if is_given v then field k v rest else rest

-- _base_args
unfoldable pub base_args : RunContext → Fields → Fields
unfolding update given
base_args context kwargs = update (field "uid" (str context.uid) end) (given kwargs)

-- `dur_us`, given or from `end_us`; `none` where the span is dropped
unfoldable pub span_dur : ℕ → Option ℕ → Option ℕ → Option ℕ
span_dur start_us end_us (some dur_us) = some dur_us
span_dur start_us none none = none
span_dur start_us (some end_us) none =
    if ltb end_us start_us then none else some (end_us - start_us)

-- _span
unfoldable pub span :
    List TimelineEvent
    → String
    → String
    → String
    → String
    → ℕ
    → Option ℕ
    → Option ℕ
    → Fields
    → List TimelineEvent
unfolding span_dur
span events name cat pid tid start_us end_us dur_us args =
    if leb start_us 0 then events else elim (span_dur start_us end_us dur_us) [
      | none ↦ events
      | some dur ↦
          events
          ++ record {
            name = name;
            cat = cat;
            ph = "X";
            ts = start_us;
            pid = pid;
            tid = tid;
            dur = some dur;
            args = args;
            scope = "t";
          }
            ∷ []
    ]

-- _instant
unfoldable pub instant :
    List TimelineEvent → String → String → String → String → ℕ → Fields → List TimelineEvent
instant events name cat pid tid ts_us args =
    if leb ts_us 0
    then events
    else events
      ++ record {
        name = name;
        cat = cat;
        ph = "i";
        ts = ts_us;
        pid = pid;
        tid = tid;
        dur = none;
        args = args;
        scope = "t";
      }
        ∷ []

-- A span or an instant that is shown under a condition.
unfoldable pub span_if :
    Bool
    → List TimelineEvent
    → String
    → String
    → String
    → String
    → ℕ
    → Option ℕ
    → Option ℕ
    → Fields
    → List TimelineEvent
span_if shown events name cat pid tid start_us end_us dur_us args =
    if shown then span events name cat pid tid start_us end_us dur_us args else events

unfoldable pub instant_if :
    Bool → List TimelineEvent → String → String → String → String → ℕ → Fields → List TimelineEvent
instant_if shown events name cat pid tid ts_us args =
    if shown then instant events name cat pid tid ts_us args else events
