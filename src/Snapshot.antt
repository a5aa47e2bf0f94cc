-- ===== src/Snapshot.antt =====
-- atsuite/state_snapshot.py: state of an earlier run, handed to a target once or uploaded for a uid.
-- An upload is its key and the snapshot whose JSON is its body.
pub mod Seeded
use atsuite.Base.{
  String, Bool, true, false, not, ◌||◌, Option, none, some, List, [], ◌∷◌, ◌++◌, ◌==◌, string_eq,
  if◌then◌else◌,
}
use atsuite.Base.Json.{Value, obj, Fields, end, field, find, assign}
use atsuite.Base.Text.{◌&◌, is_empty, strip}
use atsuite.Base.Convert.{entries}
use atsuite.Base.Sets.{elem, add}

-- RESERVED_STATE_SNAPSHOT_ARG
abbrev pub reserved_state_snapshot_arg : String
reserved_state_snapshot_arg = "__atsuite_state_snapshot"

abbrev object_of : Option Value → Option Fields
object_of (some (obj fs)) = some fs
object_of v = none

-- `d.get(k)` if it is a dict
unfoldable pub object_in : Fields → String → Option Fields
unfolding find
object_in d k = object_of (find d k)

-- `bundle["services"][target_name]["snapshot"]` if all of them are dicts
unfoldable pub snapshot_in : Option Fields → String → Option Fields
unfolding object_in
snapshot_in none target_name = none
snapshot_in (some bundle) target_name = elim (object_in bundle "services") [
  | none ↦ none
  | some services ↦ elim (object_in services target_name) [
    | none ↦ none
    | some payload ↦ object_in payload "snapshot"
  ]
]

-- maybe_attach_agentcore_state_snapshot: the arguments, and `seeded_targets` after the call
unfoldable pub maybe_attach_agentcore_state_snapshot :
    Fields → String → String → Option Fields → List String → Fields × List String
unfolding elem assign add
maybe_attach_agentcore_state_snapshot args provider target_name bundle seeded =
    if not (provider == "aws_agentcore" || provider == "ali_agentrun") || elem seeded target_name
    then (args, seeded)
    else elim (snapshot_in bundle target_name) [
      | none ↦ (args, seeded)
      | some snapshot ↦
          (assign args reserved_state_snapshot_arg (obj snapshot), add seeded target_name)
    ]

-- A call of the client with a key and the snapshot that becomes the body: S3 puts an object in the
-- place of what the key has, OSS appends to it.
pub data Upload : Type 0 where
  put_object : String → Fields → Upload
  append : String → Fields → Upload

pub record Seeds : Type 0 where
  pub uploads : List Upload
  pub seeded_services : List String

abbrev pub no_seeds : Seeds
no_seeds = record { uploads = []; seeded_services = [] }

-- The snapshot of a service's payload.
unfoldable pub payload_snapshot : Value → Option Fields
unfolding object_in
payload_snapshot (obj payload) = object_in payload "snapshot"
payload_snapshot v = none

-- One service of the loop.
unfoldable pub seed_service : (String → Fields → Upload) → String → String × Value → Seeds → Seeds
unfolding strip payload_snapshot add
seed_service upload uid (service_name, payload) s =
    if is_empty (strip service_name) then s else elim (payload_snapshot payload) [
      | none ↦ s
      | some snapshot ↦ record {
        uploads = s.uploads ++ upload (service_name & "/" & uid & ".json") snapshot ∷ [];
        seeded_services = add s.seeded_services service_name;
      }
    ]

unfoldable pub seed_services :
    (String → Fields → Upload) → String → List (String × Value) → Seeds → Seeds
seed_services upload uid [] s = s
seed_services upload uid (x ∷ services) s =
    seed_services upload uid services (seed_service upload uid x s)

-- The services of the bundle.
unfoldable pub services_of : Option Fields → List (String × Value)
unfolding object_in entries
services_of none = []
services_of (some bundle) = elim (object_in bundle "services") [
  | none ↦ []
  | some services ↦ entries services
]

-- seed_lambda_state_snapshot_for_uid
unfoldable pub seed_lambda_state_snapshot_for_uid : String → String → Option Fields → Seeds
seed_lambda_state_snapshot_for_uid provider uid bundle =
    if provider == "aws_lambda"
    then seed_services put_object uid (services_of bundle) no_seeds
    else no_seeds

-- seed_alifc_state_snapshot_for_uid
unfoldable pub seed_alifc_state_snapshot_for_uid : String → String → Option Fields → Seeds
seed_alifc_state_snapshot_for_uid provider uid bundle =
    if provider == "ali_fc"
    then seed_services append uid (services_of bundle) no_seeds
    else no_seeds
