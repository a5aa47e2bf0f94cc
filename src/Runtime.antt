-- ===== src/Runtime.antt =====
-- atsuite/runtime.py: the data classes, the targets that an adapter connects to, and
-- `_runtime_targets` of atsuite/invoker.py, which reads the same endpoint map.
pub mod Adapter
pub mod Endpoints
use atsuite.Base.{
  ℕ, String, Bool, Option, none, some, List, [], ◌∷◌, true, false, string_eq, ◌==◌, if◌then◌else◌,
  ◌&&◌, ◌||◌, leb,
}
use Prim.Native.Char.{code}
use atsuite.Base.Dict.{Dict, get, get_or, put}
use atsuite.Base.Int.{ℤ, pos}
use atsuite.Base.Json.{Value, null, int, str, obj, Fields, end, field, find}
use atsuite.Base.Text.{◌&◌, is_empty, or_else}
use atsuite.Base.Convert.{value_of, or_value, text_of, entries, truthy}
use atsuite.Result.{Result, ok, err, ◌>>=◌, wrong_type, exit_with, value_error}
use atsuite.Pipeline.Configs.{fields_of, runtime_to_dict}
use atsuite.Pipeline.Data.{ResolvedTarget, RuntimeConfig}

pub record RuntimeCapabilities : Type 0 where
  pub family : String
  pub requires_open_session : Bool
  pub platform_handles_state_concurrency : Bool
  pub supports_external_state_ops : Bool
  pub observability : String

pub record RuntimeTarget : Type 0 where
  pub target_id : String
  pub family : String
  pub endpoint : String
  pub resources : Fields
  pub tool_manifest : Fields

pub record RuntimeSession : Type 0 where
  pub uid : String
  pub target_id : String
  pub provider_session_id : String
  pub metadata : Fields

pub record InvocationRequest : Type 0 where
  pub target_id : String
  pub tool_name : String
  pub args : Fields
  pub uid : String
  pub call_id : String
  pub session : RuntimeSession
  pub timeout : ℤ

pub record InvocationResult : Type 0 where
  pub provider_request_id : String
  pub status : String
  pub error : String
  pub client_elapsed_ms : ℤ
  pub provider_metadata : Fields

-- `c == "/"`
abbrev is_slash : ℕ → Bool
is_slash c = leb c 47 && leb 47 c

-- `s.rstrip("/")`
unfoldable pub rstrip_slash : String → String
rstrip_slash String.[] = String.[]
rstrip_slash (String.◌∷◌ c s) =
    let rest = rstrip_slash s in
    if is_slash (code c) && is_empty rest then String.[] else String.◌∷◌ c rest

unfoldable pub lstrip_slash : String → String
lstrip_slash String.[] = String.[]
lstrip_slash (String.◌∷◌ c s) =
    let rest = lstrip_slash s in if is_slash (code c) then rest else String.◌∷◌ c s

-- StateKey.as_path and StatePrefix.as_path
unfoldable pub state_key_path : String → String → String → String
unfolding rstrip_slash lstrip_slash
state_key_path service uid name = rstrip_slash (lstrip_slash (service & "/" & uid & "/" & name))

unfoldable pub state_prefix_path : String → String → String
unfolding rstrip_slash lstrip_slash
state_prefix_path service uid = rstrip_slash (lstrip_slash (service & "/" & uid))

-- `d.get(k) or d.get(j)`
unfoldable pub either_field : Fields → String → String → Value
unfolding value_of or_value
either_field d k j = or_value (value_of d k null) (value_of d j null)

-- `str(d.get(k) or d.get(j) or default)`
unfoldable pub either_text : Fields → String → String → String → String
unfolding either_field or_value text_of
either_text d k j default = text_of (or_value (either_field d k j) (str default))

-- `str(d.get("family") or default)`
unfoldable pub family_or : Fields → String → String
unfolding value_of or_value text_of
family_or d default = text_of (or_value (value_of d "family" null) (str default))

-- One entry of the endpoint map as `connect` reads it; `none` where it goes on.
unfoldable pub connect_target : String → String → Value → Result (Option RuntimeTarget)
unfolding rstrip_slash either_text either_field family_or value_of
connect_target map_family target_id (str endpoint) = ok (
    some (record {
      target_id = target_id;
      family = map_family;
      endpoint = rstrip_slash endpoint;
      resources = end;
      tool_manifest = end;
    }))
connect_target map_family target_id (obj raw) = do
  resources ← fields_of (either_field raw "resources" "runtime")
  manifest ← fields_of (value_of raw "tool_manifest" null)
  ok (
      some (record {
        target_id = target_id;
        family = family_or raw map_family;
        endpoint = rstrip_slash (either_text raw "endpoint" "url" "");
        resources = resources;
        tool_manifest = manifest;
      }))
connect_target map_family target_id v = ok none

unfoldable pub store_target :
    String → Option RuntimeTarget → Dict String RuntimeTarget → Dict String RuntimeTarget
unfolding put
store_target target_id none targets = targets
store_target target_id (some t) targets = put targets target_id t

unfoldable pub connect_targets :
    String → Fields → Dict String RuntimeTarget → Result (Dict String RuntimeTarget)
unfolding store_target
connect_targets map_family end targets = ok targets
connect_targets map_family (field target_id raw rest) targets = do
  t ← connect_target map_family target_id raw
  connect_targets map_family rest (store_target target_id t targets)

-- `endpoint_map.get("targets", {})`
unfoldable pub raw_targets : Fields → Result Fields
unfolding value_of
raw_targets endpoint_map = elim (value_of endpoint_map "targets" (obj end)) [
  | obj fs ↦ ok fs
  | _ ↦ err wrong_type
]

-- `_BaseRuntimeAdapter.connect`: the targets of an adapter whose own family is given
unfoldable pub connect : String → Fields → Result (Dict String RuntimeTarget)
connect own_family endpoint_map = do
  raw ← raw_targets endpoint_map
  connect_targets (family_or endpoint_map own_family) raw []

-- RuntimeConfig.to_dict as JSON
unfoldable pub config_fields : Dict String ℤ → Fields
config_fields [] = end
config_fields ((k, z) ∷ d) = field k (int z) (config_fields d)

unfoldable pub config_of : ResolvedTarget → Fields
unfolding config_fields runtime_to_dict
config_of target = config_fields (runtime_to_dict target.runtime)

-- One target of `_runtime_targets` with its entry of the endpoint map.
unfoldable pub runtime_target : String → ResolvedTarget → Option Value → Result RuntimeTarget
unfolding config_of rstrip_slash either_text either_field or_value value_of
runtime_target name target none = err (value_error ("Missing URL for target: " & name))
runtime_target name target (some null) = err (value_error ("Missing URL for target: " & name))
runtime_target name target (some (str endpoint)) = ok (record {
  target_id = name;
  family = target.family;
  endpoint = rstrip_slash endpoint;
  resources = config_of target;
  tool_manifest = end;
})
runtime_target name target (some (obj raw)) = do
  resources ← fields_of (or_value (either_field raw "resources" "runtime") (obj (config_of target)))
  manifest ← fields_of (value_of raw "tool_manifest" null)
  ok (record {
    target_id = name;
    family = target.family;
    endpoint = rstrip_slash (either_text raw "endpoint" "url" "");
    resources = resources;
    tool_manifest = manifest;
  })
runtime_target name target (some v) =
    err (value_error ("Invalid endpoint map entry for target: " & name))

unfoldable pub runtime_targets_from :
    Fields → Dict String ResolvedTarget → Result (Dict String RuntimeTarget)
runtime_targets_from raw [] = ok []
runtime_targets_from raw ((name, target) ∷ targets) = do
  t ← runtime_target name target (find raw name)
  rest ← runtime_targets_from raw targets
  ok ((name, t) ∷ rest)

-- `_runtime_targets`; the resolved targets have distinct names
unfoldable pub runtime_targets :
    Dict String ResolvedTarget → Fields → Result (Dict String RuntimeTarget)
runtime_targets targets url_map = do raw ← raw_targets url_map; runtime_targets_from raw targets
