-- ===== src/Pipeline/Configs.antt =====
-- Runtime and build configurations of atsuite/pipeline.py, read from JSON, from the files in a
-- node's directory and from the command line.
use atsuite.Base.{String, Option, none, some, List, [], ◌∷◌, if◌then◌else◌, string_eq}
use atsuite.Base.Dict.{Dict, put}
use atsuite.Base.Int.{ℤ, pos}
use atsuite.Base.Json.{Value, null, int, arr, nil, obj, Fields, end}
use atsuite.Base.Text.{is_empty, or_else, strip}
use atsuite.Base.Convert.{value_of, truthy, or_value, text_field, stripped_field, int_of, iterate}
use atsuite.Result.{Result, ok, err, ◌>>=◌, not_a_number, wrong_type}
use atsuite.Pipeline.Data.{RuntimeConfig, BuildConfig, CliOverrides}

-- DEFAULT_RUNTIME_CONFIG, and `RuntimeConfig()`
abbrev pub default_runtime : RuntimeConfig
default_runtime = record { cpu = pos 1; memory = pos 1024; disk = pos 512; timeout = pos 30 }

-- `BuildConfig()`
abbrev pub default_build : BuildConfig
default_build = record { python_version = "" }

-- `int(d.get(k, default))`
unfoldable pub int_field : Fields → String → ℤ → Result ℤ
unfolding value_of int_of
int_field d k default = elim (int_of (value_of d k (int default))) [
  | none ↦ err not_a_number
  | some z ↦ ok z
]

-- `dict(payload or {})`; a list of pairs, which Python takes for a mapping, is refused here
unfoldable pub fields_of : Value → Result Fields
unfolding truthy
fields_of (obj fs) = ok fs
fields_of v = if truthy v then err wrong_type else ok end

-- RuntimeConfig.from_dict, with a fallback
unfoldable pub read_runtime : Value → RuntimeConfig → Result RuntimeConfig
unfolding int_field fields_of
read_runtime payload base = do
  fs ← fields_of payload
  cpu ← int_field fs "cpu" base.cpu
  memory ← int_field fs "memory" base.memory
  disk ← int_field fs "disk" base.disk
  timeout ← int_field fs "timeout" base.timeout
  ok (record { cpu = cpu; memory = memory; disk = disk; timeout = timeout })

-- RuntimeConfig.to_dict
unfoldable pub runtime_to_dict : RuntimeConfig → Dict String ℤ
runtime_to_dict c =
    ("cpu", c.cpu) ∷ ("memory", c.memory) ∷ ("disk", c.disk) ∷ ("timeout", c.timeout) ∷ []

-- BuildConfig.from_dict, with a fallback
unfoldable pub read_build : Value → BuildConfig → Result BuildConfig
unfolding text_field fields_of strip
read_build payload base = do
  fs ← fields_of payload
  let version = strip (text_field fs "python_version" base.python_version)
  ok (record { python_version = or_else version base.python_version })

-- CliOverrides.build
unfoldable pub cli_build : CliOverrides → BuildConfig → BuildConfig
cli_build cli fallback = elim (cli.python_version) [
  | none ↦ fallback
  | some version ↦ if is_empty version then fallback else record { python_version = version }
]

-- `self.x if self.x is not None else fallback.x`
abbrev or_default : Option ℤ → ℤ → ℤ
or_default none fallback = fallback
or_default (some z) fallback = z

-- CliOverrides.runtime
unfoldable pub cli_runtime : CliOverrides → RuntimeConfig → RuntimeConfig
cli_runtime cli fallback = record {
  cpu = or_default cli.cpu fallback.cpu;
  memory = or_default cli.memory fallback.memory;
  disk = or_default cli.disk fallback.disk;
  timeout = or_default cli.timeout fallback.timeout;
}

-- One entry of `functions`; an entry that is no object or has no name is skipped.
unfoldable pub function_default :
    Value → Dict String RuntimeConfig → Result (Dict String RuntimeConfig)
unfolding stripped_field read_runtime put
function_default (obj entry) defaults =
    let name = stripped_field entry "name" in
    let runtime = read_runtime (obj entry) default_runtime in
    if is_empty name then ok defaults else (do c ← runtime; ok (put defaults name c))
function_default v defaults = ok defaults

function_defaults_onto : List Value → Dict String RuntimeConfig → Result (Dict String RuntimeConfig)
unfolding function_default
function_defaults_onto [] defaults = ok defaults
function_defaults_onto (v ∷ vs) defaults = function_default v defaults >>= function_defaults_onto vs

-- What a `for` loop runs over.
unfoldable pub list_of : Value → Result (List Value)
unfolding iterate
list_of v = elim (iterate v) [ none ↦ err wrong_type | some vs ↦ ok vs ]

-- _load_function_defaults, of the contents of `function-config.json` if it exists
unfoldable pub load_function_defaults :
    Option Fields → Result (BuildConfig × Dict String RuntimeConfig)
unfolding stripped_field value_of or_value list_of function_defaults_onto
load_function_defaults none = ok (default_build, [])
load_function_defaults (some fs) = do
  let build : BuildConfig = record { python_version = stripped_field fs "python-version" }
  functions ← list_of (or_value (value_of fs "functions" null) (arr nil))
  defaults ← function_defaults_onto functions []
  ok (build, defaults)

-- _load_mcp_defaults, of the contents of `mcp-config.json` if it exists
unfoldable pub load_mcp_defaults : Option Fields → Result (BuildConfig × RuntimeConfig)
unfolding stripped_field read_runtime
load_mcp_defaults none = ok (default_build, default_runtime)
load_mcp_defaults (some fs) = do
  runtime ← read_runtime (obj fs) default_runtime
  ok (record { python_version = stripped_field fs "python-version" }, runtime)
