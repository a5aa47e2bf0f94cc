-- ===== src/Pipeline/Tools.antt =====
-- `_nodes_from_tools` of atsuite/pipeline.py: a configuration's tools, grouped into node entries.
use atsuite.Base.{
  String, Bool, true, false, not, ◌&&◌, none, some, List, [], ◌∷◌, ◌++◌, if◌then◌else◌, string_eq,
  map,
}
use atsuite.Base.Dict.{Dict, get_or, put, values}
use atsuite.Base.Json.{Value, null, bool, str, arr, obj, Items, nil, cons, Fields, end, field, find}
use atsuite.Base.Text.{◌&◌, is_empty, or_else, strip, fold_case, before}
use atsuite.Base.Convert.{value_of, or_value, truthy, text_of, text_field, stripped_field, elements}
use atsuite.Result.{Result, ok, err, ◌>>=◌, ◌>>◌, exit_with, exit_if}
use atsuite.Scheduler.{stateless_access}
use atsuite.Pipeline.Files.{FileSystem}
use atsuite.Pipeline.Nodes.{normalize_tool_name}

-- `str(d.get(k) or d.get(other) or "").strip()`
unfoldable pub either_field : Fields → String → String → String
unfolding strip text_of or_value value_of
either_field d k other =
    strip (text_of (or_value (value_of d k null) (or_value (value_of d other null) (str ""))))

-- An entry of `grouped`.
pub record Group : Type 0 where
  pub name : String
  pub dir : String
  pub trace_names : List Value

unfoldable pub items : List Value → Items
items [] = nil
items (v ∷ vs) = cons v (items vs)

-- `k in d`
has_field : Fields → String → Bool
unfolding find
has_field d k = elim (find d k) [ none ↦ false | some v ↦ true ]

-- `trace_entry`
unfoldable pub trace_entry : Fields → String → String → Value
unfolding has_field truthy value_of stripped_field fold_case text_field
trace_entry raw trace_name tool_name = obj (
    field "name" (str trace_name) (
      field "tool" (str tool_name) (
        field "domain" (str (stripped_field raw "domain")) (
          if has_field raw "stateful" && not (has_field raw "access")
          then field "stateful" (bool (truthy (value_of raw "stateful" (bool false)))) end
          else field "access" (str (fold_case (text_field raw "access" stateless_access))) end))))

-- The name of the node that a tool belongs to.
unfoldable pub node_name_of : FileSystem → Fields → String → String → String
unfolding either_field normalize_tool_name before
node_name_of fs raw impl_dir tool_name =
    or_else (either_field raw "node" "node_name")
      (if is_empty impl_dir then normalize_tool_name (before 46 tool_name) else fs.name impl_dir)

-- One entry of `tools`.
unfoldable pub group_tool :
    FileSystem → String → Value → Dict String Group → Result (Dict String Group)
unfolding either_field normalize_tool_name node_name_of trace_entry put text_of exit_if ◌>>=◌ ◌>>◌
group_tool fs file (obj raw) grouped = do
  let trace_name = either_field raw "trace_name" "name"
  exit_if (is_empty trace_name)
      ("Tool entry is missing trace_name in " & file & ": " & text_of (obj raw))
  let tool_name = or_else (either_field raw "tool_name" "tool") (normalize_tool_name trace_name)
  let impl_dir = either_field raw "impl_dir" "dir"
  let node_name = node_name_of fs raw impl_dir tool_name
  let entry : Group = get_or grouped node_name (record {
    name = node_name;
    dir = or_else impl_dir ("./nodes/" & node_name);
    trace_names = [];
  })
  ok (
      put grouped node_name (record entry {
        trace_names = entry.trace_names ++ trace_entry raw trace_name tool_name ∷ [];
      }))
group_tool fs file v grouped = err (exit_with ("Invalid tool entry in " & file & ": " & text_of v))

unfoldable pub group_tools :
    FileSystem → String → List Value → Dict String Group → Result (Dict String Group)
unfolding group_tool ◌>>=◌
group_tools fs file [] grouped = ok grouped
group_tools fs file (v ∷ vs) grouped = group_tool fs file v grouped >>= group_tools fs file vs

unfoldable pub group_value : Group → Value
unfolding items
group_value g = obj (
    field "name" (str g.name)
      (field "dir" (str g.dir) (field "trace_names" (arr (items g.trace_names)) end)))

-- _nodes_from_tools
unfoldable pub nodes_from_tools : FileSystem → String → Value → Result (List Value)
unfolding group_tools group_value elements ◌>>=◌
nodes_from_tools fs file (arr tools) = do
  grouped ← group_tools fs file (elements tools) []
  ok (map group_value (values grouped))
nodes_from_tools fs file v = ok []
