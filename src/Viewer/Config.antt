-- ===== src/Viewer/Config.antt =====
-- Which tools of a trace are stateful: the configuration of a trace, as
-- atsuite/cli/trace_viewer_metadata.py finds and reads it.
use atsuite.Base.{
  ℕ, suc, String, Bool, Option, none, some, List, [], ◌∷◌, false, not, ◌&&◌, string_eq,
  if◌then◌else◌,
}
use atsuite.Base.Json.{Value, bool, str, arr, nil, obj, Fields, find}
use atsuite.Base.Convert.{value_of, or_value, text_of, truthy, stripped_field, iterate, elements}
use atsuite.Base.Sets.{add}
use atsuite.Base.Text.{is_empty, strip}
use atsuite.Result.{Result, ok, err, ◌>>=◌, wrong_type}
use atsuite.Pipeline.Files.{json, FileSystem}
use atsuite.Viewer.{ViewNode, is_tool_node}

-- The file system, with what the module asks of pathlib beyond it: the sorted `*.json` files of a
-- folder, and whether one resolved path is below another.
pub record Tree : Type 0 where
  pub files : FileSystem
  pub json_files : String → List String
  pub is_within : String → String → Bool

-- `json.loads(path.read_text())` in a `try`: `none` where the code goes on without the file
unfoldable pub try_json : Tree → String → Option Value
try_json t path = elim (t.files.content path) [ json v ↦ some v | _ ↦ none ]

-- `str(d.get(k, "") or "").strip()`
unfoldable pub trimmed : Fields → String → String
unfolding value_of or_value text_of strip
trimmed d k = strip (text_of (or_value (value_of d k (str "")) (str "")))

-- _safe_resolve
unfoldable pub safe_resolve : Tree → String → String → String → Option String
safe_resolve t base relative root =
    let candidate = t.files.resolve (t.files.join base relative) in
    if t.is_within candidate (t.files.resolve root) then some candidate else none

-- _tool_names_in_trace
unfoldable pub tool_names_in_trace : List ViewNode → List String
unfolding is_tool_node strip add
tool_names_in_trace [] = []
tool_names_in_trace (node ∷ nodes) =
    let rest = tool_names_in_trace nodes in
    if is_tool_node node && not (is_empty (strip node.name))
    then add rest (strip node.name)
    else rest

-- What _collect_config_trace_metadata gathers: the names, and how many items say whether they are
-- stateful and how many say that they are.
pub record ConfigNames : Type 0 where
  pub names : List String
  pub explicit_stateful_entries : ℕ
  pub explicit_stateful_true : ℕ

abbrev no_names : ConfigNames
no_names = record { names = []; explicit_stateful_entries = 0; explicit_stateful_true = 0 }

unfoldable pub add_name : String → ConfigNames → ConfigNames
unfolding add
add_name name c = if is_empty name then c else record c { names = add c.names name }

unfoldable pub count_explicit : Option Value → ConfigNames → ConfigNames
unfolding truthy
count_explicit none c = c
count_explicit (some v) c = record c {
  explicit_stateful_entries = suc c.explicit_stateful_entries;
  explicit_stateful_true =
      if truthy v then suc c.explicit_stateful_true else c.explicit_stateful_true;
}

-- One item of `trace_names`.
unfoldable pub collect_item : Value → ConfigNames → ConfigNames
unfolding strip add_name count_explicit stripped_field find
collect_item (str s) c = add_name (strip s) c
collect_item (obj item) c =
    let name = stripped_field item "name" in
    if is_empty name then c else count_explicit (find item "stateful") (add_name name c)
collect_item v c = c

unfoldable pub collect_items : List Value → ConfigNames → ConfigNames
unfolding collect_item
collect_items [] c = c
collect_items (v ∷ vs) c = collect_items vs (collect_item v c)

-- The items of `node["trace_names"]`, if the node is a dict and they are a list.
unfoldable pub trace_name_items : Value → List Value
unfolding value_of elements
trace_name_items (obj node) = elim (value_of node "trace_names" (arr nil)) [
  | arr vs ↦ elements vs
  | _ ↦ []
]
trace_name_items v = []

unfoldable pub collect_nodes : List Value → ConfigNames → ConfigNames
unfolding trace_name_items collect_items
collect_nodes [] c = c
collect_nodes (node ∷ nodes) c = collect_nodes nodes (collect_items (trace_name_items node) c)

-- `config_payload.get("nodes", [])`
unfoldable pub config_nodes : Value → Result (List Value)
unfolding value_of iterate
config_nodes (obj d) = elim (iterate (value_of d "nodes" (arr nil))) [
  | none ↦ err wrong_type
  | some vs ↦ ok vs
]
config_nodes v = err wrong_type

-- _collect_config_trace_metadata
unfoldable pub collect_config_trace_metadata : Value → Result ConfigNames
unfolding ◌>>=◌ config_nodes collect_nodes
collect_config_trace_metadata v = config_nodes v >>= λ nodes. ok (collect_nodes nodes no_names)

-- The name of an item of `trace_names` that is stateful.
unfoldable pub stateful_name : Value → Option String
unfolding value_of truthy stripped_field
stateful_name (obj item) =
    let name = stripped_field item "name" in
    if truthy (value_of item "stateful" (bool false)) && not (is_empty name)
    then some name
    else none
stateful_name v = none

unfoldable pub stateful_names_of : List Value → List String → List String
unfolding stateful_name add
stateful_names_of [] names = names
stateful_names_of (item ∷ items) names = elim (stateful_name item) [
  | none ↦ stateful_names_of items names
  | some name ↦ stateful_names_of items (add names name)
]

unfoldable pub stateful_names_in : List Value → List String → List String
unfolding trace_name_items stateful_names_of
stateful_names_in [] names = names
stateful_names_in (node ∷ nodes) names =
    stateful_names_in nodes (stateful_names_of (trace_name_items node) names)

-- The names that a configuration file declares; none if it is not there or is no JSON.
unfoldable pub declared_names : Tree → Option String → Result (List String)
unfolding ◌>>=◌ try_json config_nodes stateful_names_in
declared_names t none = ok []
declared_names t (some config_path) =
    if not (t.files.exists config_path) then ok [] else elim (try_json t config_path) [
      | none ↦ ok []
      | some config ↦ config_nodes config >>= λ nodes. ok (stateful_names_in nodes [])
    ]
