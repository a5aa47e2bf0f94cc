-- ===== src/Tests/RuntimeTests.antt =====
-- Tests of the endpoint maps and the trace arguments (atsuite/runtime.py, atsuite/invoker.py and
-- atsuite/utils.py).
use atsuite.Base.{
  String, ◌≡◌, ◌<◌, refl, sym, subst, Bool-cases, inl, inr, Option, none, some, [], ◌∷◌, nat_eq,
  string_eq, ◌==◌, if◌then◌else◌, arith,
}
use atsuite.Base.Dict.{Dict, get}
use atsuite.Base.Int.{pos}
use atsuite.Base.Json.{Value, int, str, arr, nil, cons, obj, Fields, end, field, find, Distinct}
use atsuite.Result.{ok, ◌>>=◌, ok_injective}
use atsuite.Pipeline.Data.{ResolvedTarget}
use atsuite.Runtime.{
  RuntimeTarget, config_of, raw_targets, runtime_targets, runtime_target, runtime_targets_from,
  connect, connect_target, connect_targets,
}
use atsuite.Runtime.Endpoints.{Agree, runtime_targets-Agree}
use atsuite.Arguments.{text_length, longest, coerce_trace_value, arguments_from, parse_arguments}
use atsuite.Arguments.Coerced.{Shrinks, coerce_trace_value-total, parse_arguments-uid}

abbrev endpoints : Fields
endpoints = field "targets" (obj (field "disk" (str "https://disk") end)) end

abbrev disk_target : ResolvedTarget
disk_target = record {
  name = "disk";
  family = "faas";
  node_names = "disk" ∷ [];
  trace_names = "disk.read" ∷ [];
  build = record { python_version = "3.11" };
  runtime = record { cpu = pos 1; memory = pos 512; disk = pos 512; timeout = pos 60 };
  allowed_tools = [];
}

abbrev disk_targets : Dict String ResolvedTarget
disk_targets = ("disk", disk_target) ∷ []

abbrev runtime_disk : RuntimeTarget
runtime_disk = record {
  target_id = "disk";
  family = "faas";
  endpoint = "https://disk";
  resources = config_of disk_target;
  tool_manifest = end;
}

abbrev connected_disk : RuntimeTarget
connected_disk = record runtime_disk { resources = end }

runtime_targets_test : runtime_targets disk_targets endpoints ≡ ok (("disk", runtime_disk) ∷ [])
unfolding runtime_targets string_eq ◌>>=◌ raw_targets runtime_targets_from runtime_target
runtime_targets_test = refl

connect_test : connect "faas" endpoints ≡ ok (("disk", connected_disk) ∷ [])
unfolding connect string_eq ◌>>=◌ raw_targets connect_targets connect_target
connect_test = refl

endpoints-Distinct : (raw : Fields) → raw_targets endpoints ≡ ok raw → Distinct raw
unfolding raw_targets string_eq
endpoints-Distinct raw h = subst Distinct (ok_injective h) (refl, tt)

disk_found : get {K = String} (("disk", runtime_disk) ∷ []) "disk" ≡ some runtime_disk
unfolding get string_eq
disk_found = refl

runtime_targets-Agree_example :
    (t' : RuntimeTarget) × (get {K = String} (("disk", connected_disk) ∷ []) "disk" ≡ some t')
    × Agree runtime_disk t'
runtime_targets-Agree_example =
    runtime_targets-Agree disk_targets endpoints "faas" endpoints-Distinct runtime_targets_test
      connect_test "disk" runtime_disk disk_found

abbrev quoted : String
quoted = "[\"7\"]"

abbrev unquoted : Value
unquoted = arr (cons (str "7") nil)

-- A parser that knows one text.
loads_quoted : String → Option Value
loads_quoted s = if s == quoted then some unquoted else none

loads_quoted-Shrinks : Shrinks loads_quoted
unfolding loads_quoted longest text_length
loads_quoted-Shrinks s v h = elim (Bool-cases (s == quoted)) [
  | inl e ↦
      let same : s ≡ quoted = ground arith in
      let parsed : unquoted ≡ v = ground arith in
      subst (λ x. longest v < text_length x) (sym same)
        (subst (λ w. longest w < text_length quoted) parsed (omega arith))
  | inr e ↦ absurd (ground arith)
]

abbrev trace_arguments : Fields
trace_arguments = field "ids" (obj (field "in" (str quoted) end)) (field "uid" (str "old") end)

parse_arguments_test :
    parse_arguments loads_quoted (obj trace_arguments) "u"
    ≡ ok (
        field "ids"
          (obj (field "in" (arr (cons (int (pos 7)) nil)) end))
          (field "uid" (str "u") end))
unfolding parse_arguments arguments_from loads_quoted string_eq text_length nat_eq
parse_arguments_test = refl

parse_arguments-uid_example :
    (out : Fields) × (parse_arguments loads_quoted (obj trace_arguments) "u" ≡ ok out)
    × (find out "uid" ≡ some (str "u"))
parse_arguments-uid_example =
    parse_arguments-uid loads_quoted trace_arguments "u" loads_quoted-Shrinks

short : longest (obj trace_arguments) < 6
unfolding longest text_length
short = omega arith

coerce_trace_value-total_example :
    (x : Value) × (coerce_trace_value 6 loads_quoted (obj trace_arguments) ≡ some x)
coerce_trace_value-total_example =
    coerce_trace_value-total loads_quoted 6 (obj trace_arguments) loads_quoted-Shrinks short
