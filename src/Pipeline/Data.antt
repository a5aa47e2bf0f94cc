-- ===== src/Pipeline/Data.antt =====
-- The data classes of atsuite/pipeline.py. Paths are texts, tuples are lists.
use atsuite.Base.{String, Bool, Option, none, some, List, ◌==◌, string_eq, if◌then◌else◌}
use atsuite.Base.Dict.{Dict, get, get_or}
use atsuite.Base.Int.{ℤ}
use atsuite.Base.Sets.{elem}
use atsuite.Result.{Result, ok, err, missing_key}
use atsuite.Scheduler.{ToolAccess, default_access, is_stateful, from_values}
use atsuite.Trace.{Trace}

pub record RuntimeConfig : Type 0 where
  pub cpu : ℤ
  pub memory : ℤ
  pub disk : ℤ
  pub timeout : ℤ

pub record BuildConfig : Type 0 where
  pub python_version : String

pub record ProviderSpec : Type 0 where
  pub name : String
  pub family : String
  pub docker_provider : String
  pub analyzer_provider : String
  pub storage_provider : String
  pub runtime_provider : String
  pub observability_provider : String
  pub default_platform : Option String

pub record NodeDefinition : Type 0 where
  pub name : String
  pub dir : String
  pub trace_names : List String
  pub trace_to_tool : Dict String String
  pub trace_access : Dict String ToolAccess
  pub build : BuildConfig
  pub function_build : BuildConfig
  pub mcp_build : BuildConfig
  pub function_defaults : Dict String RuntimeConfig
  pub mcp_defaults : RuntimeConfig

-- NodeDefinition.has_trace_name
unfoldable pub has_trace_name : NodeDefinition → String → Bool
unfolding elem
has_trace_name node trace_name = elem node.trace_names trace_name

-- NodeDefinition.tool_name_for_trace
unfoldable pub tool_name_for_trace : NodeDefinition → String → Result String
unfolding get
tool_name_for_trace node trace_name = elim (get node.trace_to_tool trace_name) [
  | none ↦ err (missing_key trace_name)
  | some tool ↦ ok tool
]

-- NodeDefinition.access_for_trace
unfoldable pub access_for_trace : NodeDefinition → String → ToolAccess
unfolding get
access_for_trace node trace_name = get_or node.trace_access trace_name default_access

-- NodeDefinition.is_stateful_trace
unfoldable pub is_stateful_trace : NodeDefinition → String → Bool
unfolding is_stateful access_for_trace
is_stateful_trace node trace_name = is_stateful (access_for_trace node trace_name)

pub record ResolvedTarget : Type 0 where
  pub name : String
  pub family : String
  pub node_names : List String
  pub trace_names : List String
  pub build : BuildConfig
  pub runtime : RuntimeConfig
  pub allowed_tools : List String

-- ResolvedTarget.image_kind
unfoldable pub image_kind : ResolvedTarget → String
image_kind target = if target.family == "faas" then "function" else "mcp"

pub record TraceRoute : Type 0 where
  pub trace_name : String
  pub node_name : String
  pub target_name : String
  pub family : String
  pub tool_name : String
  pub domain : String
  pub access : String

-- TraceRoute.tool_access
unfoldable pub tool_access : TraceRoute → Result ToolAccess
unfolding from_values
tool_access route = from_values route.domain route.access

pub record ResolvedBenchmark : Type 0 where
  pub config_path : String
  pub bench_root : String
  pub bench_name : String
  pub trace_path : String
  pub trace : Trace
  pub provider : ProviderSpec
  pub nodes : Dict String NodeDefinition
  pub targets : Dict String ResolvedTarget
  pub routes : Dict String TraceRoute

pub record CliOverrides : Type 0 where
  pub trace_file : Option String
  pub python_version : Option String
  pub cpu : Option ℤ
  pub memory : Option ℤ
  pub disk : Option ℤ
  pub timeout : Option ℤ
