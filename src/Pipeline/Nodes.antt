-- ===== src/Pipeline/Nodes.antt =====
-- The nodes of a configuration: the loop over `raw_nodes` of `resolve_benchmark`
-- (atsuite/pipeline.py).
pub mod Valid
use atsuite.Base.{
  String, Bool, true, false, not, ◌&&◌, ◌||◌, Option, none, some, List, [], ◌∷◌, ◌==◌,
  if◌then◌else◌, string_eq,
}
use atsuite.Base.Dict.{Dict, get, put, keys, has}
use atsuite.Base.Json.{Value, null, str, arr, obj, Fields}
use atsuite.Base.Text.{◌&◌, is_empty, or_else, strip, lower, fold_case, replace, char_at}
use atsuite.Base.Convert.{value_of, or_value, truthy, text_of, stripped_field, elements}
use atsuite.Base.Sets.{elem}
use atsuite.Result.{Result, ok, err, ◌>>=◌, ◌>>◌, exit_with, exit_if}
use atsuite.Scheduler.{
  stateless_access, valid_access_modes, ToolAccess, default_access, from_values,
}
use atsuite.Pipeline.Data.{NodeDefinition}
use atsuite.Pipeline.Configs.{default_build, read_build, load_function_defaults, load_mcp_defaults}
use atsuite.Pipeline.Files.{FileSystem, load_object}

-- normalize_tool_name
unfoldable pub normalize_tool_name : String → String
unfolding replace lower
normalize_tool_name name = lower (replace 46 (char_at "_" 0) name)

-- `raw_access`: what stands in place of a missing `access`.
unfoldable pub access_or : Fields → Value → Value
unfolding value_of truthy
access_or item null =
    if truthy (value_of item "stateful" null) then str "rw" else str stateless_access
access_or item v = v

-- The access of a binding that is an object.
unfoldable pub bound_access : String → String → Fields → Result ToolAccess
bound_access file node_name item = do
  let trace_name = stripped_field item "name"
  let raw_access = access_or item (value_of item "access" null)
  let access = fold_case (text_of (or_value raw_access (str stateless_access)))
  exit_if (not (elem valid_access_modes access))
      ("Invalid access mode '" & access & "' for trace '" & trace_name & "' in " & file)
  let domain = stripped_field item "domain"
  from_values (if not (access == stateless_access) && is_empty domain then node_name else domain)
      access

pub record Binding : Type 0 where
  pub trace_name : String
  pub tool_name : String
  pub access_info : ToolAccess

-- One item of `trace_names`.
unfoldable pub bind_trace : String → String → Value → Result Binding
bind_trace file node_name (str s) = do
  let trace_name = strip s
  exit_if (is_empty trace_name) ("Empty trace name binding for node '" & node_name & "' in " & file)
  ok (record {
    trace_name = trace_name;
    tool_name = normalize_tool_name trace_name;
    access_info = default_access;
  })
bind_trace file node_name (obj item) = do
  let trace_name = stripped_field item "name"
  access_info ← bound_access file node_name item
  exit_if (is_empty trace_name) ("Empty trace name binding for node '" & node_name & "' in " & file)
  ok (record {
    trace_name = trace_name;
    tool_name = or_else (stripped_field item "tool") (normalize_tool_name trace_name);
    access_info = access_info;
  })
bind_trace file node_name v = err (
    exit_with
      ("Invalid trace name binding for node '" & node_name & "' in " & file & ": " & text_of v))

-- The loop that fills `trace_bindings` and `trace_access`.
unfoldable pub bind_traces :
    String
    → String
    → List Value
    → Dict String String
    → Dict String ToolAccess
    → Result (Dict String String × Dict String ToolAccess)
bind_traces file node_name [] bindings access = ok (bindings, access)
bind_traces file node_name (v ∷ vs) bindings access = do
  b ← bind_trace file node_name v
  bind_traces file node_name vs (put bindings b.trace_name b.tool_name)
      (put access b.trace_name b.access_info)

-- `trace_owner[trace_name] = node_name` for each name, unless another node has it
unfoldable pub claim_traces :
    String → List String → Dict String String → Result (Dict String String)
claim_traces node_name [] owners = ok owners
claim_traces node_name (t ∷ names) owners = do
  let owner : String = elim (get owners t) [ none ↦ "" | some o ↦ o ]
  exit_if (not (is_empty owner) && not (owner == node_name))
      ("Trace name '" & t & "' is mapped by both '" & owner & "' and '" & node_name & "'")
  claim_traces node_name names (put owners t node_name)

-- `isinstance(v, list) and v`
unfoldable pub full_list : Value → String → Result (List Value)
full_list (arr vs) text = exit_if (not (truthy (arr vs))) text >> ok (elements vs)
full_list v text = err (exit_with text)

-- The JSON file of that name in the node's directory, if it exists.
unfoldable pub optional_file : FileSystem → String → String → Result (Option Fields)
unfolding load_object
optional_file fs node_dir name =
    if fs.exists (fs.join node_dir name)
    then (do d ← load_object fs (fs.join node_dir name); ok (some d))
    else ok none

abbrev pub none_named : List String → Bool
none_named [] = true
none_named (t ∷ names) = false

-- The directory of a node.
unfoldable pub node_dir_of : FileSystem → String → String → Value → String
unfolding truthy text_of
node_dir_of fs bench_root node_name dir =
    if truthy dir
    then fs.resolve (fs.join bench_root (text_of dir))
    else fs.resolve (fs.join (fs.join bench_root "nodes") node_name)

-- What one node's entry defines, once its name is known, and who owns which trace name then.
unfoldable pub define_node :
    FileSystem
    → String
    → String
    → String
    → Fields
    → Dict String String
    → Result (NodeDefinition × Dict String String)
define_node fs file bench_root node_name raw trace_owner = do
  let node_dir = node_dir_of fs bench_root node_name (value_of raw "dir" null)
  exit_if (not (fs.exists node_dir)) ("Node directory not found: " & node_dir)
  trace_names ←
      full_list (value_of raw "trace_names" null)
        ("Node '" & node_name & "' must define non-empty trace_names in " & file)
  (bindings, access) ← bind_traces file node_name trace_names [] []
  exit_if (none_named (keys bindings)) ("Node '" & node_name & "' has empty trace_names in " & file)
  owners ← claim_traces node_name (keys bindings) trace_owner
  build ← read_build (value_of raw "build" null) default_build
  function_config ← optional_file fs node_dir "function-config.json"
  (function_build, function_defaults) ← load_function_defaults function_config
  mcp_config ← optional_file fs node_dir "mcp-config.json"
  (mcp_build, mcp_defaults) ← load_mcp_defaults mcp_config
  let node : NodeDefinition = record {
    name = node_name;
    dir = node_dir;
    trace_names = keys bindings;
    trace_to_tool = bindings;
    trace_access = access;
    build = build;
    function_build = function_build;
    mcp_build = mcp_build;
    function_defaults = function_defaults;
    mcp_defaults = mcp_defaults;
  }
  ok (node, owners)

-- `resolved_nodes` and `trace_owner`
pub record Nodes : Type 0 where
  pub resolved_nodes : Dict String NodeDefinition
  pub trace_owner : Dict String String

-- One entry of `raw_nodes`.
unfoldable pub resolve_node : FileSystem → String → String → Value → Nodes → Result Nodes
resolve_node fs file bench_root (obj raw) nodes = do
  let node_name = stripped_field raw "name"
  exit_if (is_empty node_name) ("Node name is required in " & file)
  exit_if (has nodes.resolved_nodes node_name)
      ("Duplicate node name '" & node_name & "' in " & file)
  (node, owners) ← define_node fs file bench_root node_name raw nodes.trace_owner
  ok (record { resolved_nodes = put nodes.resolved_nodes node_name node; trace_owner = owners })
resolve_node fs file bench_root v nodes =
    err (exit_with ("Invalid node entry in " & file & ": " & text_of v))

unfoldable pub resolve_nodes : FileSystem → String → String → List Value → Nodes → Result Nodes
resolve_nodes fs file bench_root [] nodes = ok nodes
resolve_nodes fs file bench_root (v ∷ vs) nodes =
    resolve_node fs file bench_root v nodes >>= resolve_nodes fs file bench_root vs
