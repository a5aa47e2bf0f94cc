-- ===== src/State.antt =====
-- StateRuntime of atsuite_sdk/state.py: the variables of registered objects, kept for each session as
-- a snapshot, in memory or in a storage. The storage, the JSON text of a snapshot and the files of a
-- session are a parameter. An object is known by a number, since it may be registered under several
-- names. A list or dict that an object takes from a snapshot in memory is the snapshot's own: the
-- field `lent` names the sessions whose stored snapshot is shared in this way, or with a caller of
-- `prime_snapshot`, and may therefore be changed in place until it is replaced.
pub mod Values
pub mod Saved
pub mod Steps
pub mod Sessions
use atsuite.Base.{
  ℕ, String, Bool, Option, none, some, List, [], ◌∷◌, ◌++◌, true, false, not, ◌&&◌, ◌||◌, nat_eq,
  string_eq, ◌==◌, if◌then◌else◌,
}
use atsuite.Base.Dict.{Dict, get, get_or, put}
use atsuite.Base.Sets.{add, discard}
use atsuite.Base.Int.{ℤ, pos}
use atsuite.Base.Json.{Value, null, int, obj, Fields, end, field, find, assign}
use atsuite.Base.Convert.{value_of, truthy}
use atsuite.Base.Text.{◌&◌, is_empty}
use atsuite.Result.{Result, ok, err, ◌>>=◌, wrong_type}
use atsuite.Pipeline.Configs.{fields_of}
use atsuite.State.Values.{Attributes, safe_uid, extract_object_state, apply_object_state}

-- What the module asks of the storage, of `json` and of the files of a session.
pub record Backend : Type 1 where
  pub Storage : Type 0
  pub Files : Type 0
  pub read : Storage → String → String
  pub clear : Storage → String → Storage
  pub append : Storage → String → String → Storage
  pub dumps : Fields → String
  pub loads : String → Option Value
  pub capture : Files → String → Fields
  pub restore : Files → String → Fields → Files

-- A registered object: its module, its name and its number.
pub record Entry : Type 0 where
  pub module_name : String
  pub name : String
  pub object : ℕ

abbrev pub Registry : Type 0
Registry = Dict String (Dict String ℕ)

unfoldable pub entries_of : String → Dict String ℕ → List Entry
entries_of m [] = []
entries_of m ((name, o) ∷ named) =
    record { module_name = m; name = name; object = o } ∷ entries_of m named

-- The pairs of the two nested loops over the registry.
unfoldable pub registered : Registry → List Entry
unfolding entries_of
registered [] = []
registered ((m, named) ∷ registry) = entries_of m named ++ registered registry

-- `vars(obj)` of an object
unfoldable pub attributes_of : Dict ℕ Attributes → ℕ → Attributes
unfolding get
attributes_of objects o = get_or objects o []

-- The variables of a module, by name.
unfoldable pub named_state : Dict ℕ Attributes → Dict String ℕ → Fields
unfolding attributes_of extract_object_state
named_state objects [] = end
named_state objects ((name, o) ∷ named) =
    field name (obj (extract_object_state (attributes_of objects o))) (named_state objects named)

-- `vars_by_module`
unfoldable pub state_by_module : Dict ℕ Attributes → Registry → Fields
unfolding named_state
state_by_module objects [] = end
state_by_module objects ((m, named) ∷ registry) =
    field m (obj (named_state objects named)) (state_by_module objects registry)

-- `v` if it is not None
unfoldable pub not_null : Option Value → Option Value
not_null (some null) = none
not_null v = v

-- The first module but `m` with a variable of this name.
unfoldable pub in_other_module : String → String → Fields → Option Value
unfolding find not_null
in_other_module m name end = none
in_other_module m name (field other (obj vars) all_vars) =
    let rest = in_other_module m name all_vars in
    if other == m then rest else elim (not_null (find vars name)) [ none ↦ rest | some v ↦ some v ]
in_other_module m name (field other v all_vars) = in_other_module m name all_vars

-- `module_vars.get(name)`, or what another module has, or the default
unfoldable pub chosen_state : Option Value → Option Value → Fields → Result Fields
chosen_state (some (obj vars)) other default = ok vars
chosen_state (some v) other default = err wrong_type
chosen_state none (some (obj vars)) default = ok vars
chosen_state none (some v) default = err wrong_type
chosen_state none none default = ok default

unfoldable pub state_for : Fields → Dict String (Dict String Fields) → Entry → Result Fields
unfolding value_of find not_null in_other_module get
state_for all_vars defaults e = do
  module_vars ← fields_of (value_of all_vars e.module_name null)
  chosen_state (not_null (find module_vars e.name)) (in_other_module e.module_name e.name all_vars)
      (get_or (get_or defaults e.module_name []) e.name end)

-- The loop of load_for_tool.
unfoldable pub load_objects :
    Fields
    → Dict String (Dict String Fields)
    → List Entry
    → Dict ℕ Attributes
    → Result (Dict ℕ Attributes)
unfolding attributes_of apply_object_state put
load_objects all_vars defaults [] objects = ok objects
load_objects all_vars defaults (e ∷ entries) objects = do
  vars ← state_for all_vars defaults e
  load_objects all_vars defaults entries
      (put objects e.object (apply_object_state vars (attributes_of objects e.object)))

module _ (b : Backend) where
  open b use {Storage, Files}

  pub record StateRuntime : Type 0 where
    pub runtime : String
    pub has_storage : Bool
    pub service_name : String
    pub current_uid : String
    pub registry : Registry
    pub defaults : Dict String (Dict String Fields)
    pub memory_snapshots : Dict String Fields
    pub storage : Storage
    pub files : Files
    pub objects : Dict ℕ Attributes
    pub lent : List String

  -- From here on something else holds values of the stored snapshot.
  unfoldable pub lend : Option String → StateRuntime → StateRuntime
  unfolding add safe_uid
  lend uid r = record r { lent = add r.lent (safe_uid uid) }

  -- register_object; the module is that of the service if none is given
  unfoldable pub register_object : String → ℕ → Option String → StateRuntime → StateRuntime
  unfolding put get attributes_of extract_object_state
  register_object name o module_name r =
      let m : String = elim module_name [ none ↦ r.service_name | some m ↦ m ] in
      record r {
        registry = put r.registry m (put (get_or r.registry m []) name o);
        defaults =
            put r.defaults m (
              put (get_or r.defaults m []) name (extract_object_state (attributes_of r.objects o)));
      }

  -- _resolve_uid: the uid of the context, if none is given
  unfoldable pub resolve_uid : StateRuntime → Option String → String
  unfolding safe_uid
  resolve_uid r none = safe_uid (some r.current_uid)
  resolve_uid r (some uid) = safe_uid (some uid)

  -- _snapshot_key
  unfoldable pub snapshot_key : StateRuntime → Option String → String
  unfolding safe_uid
  snapshot_key r uid = r.service_name & "/" & safe_uid uid & ".json"

  -- What was read of the storage.
  unfoldable pub parsed_snapshot : String → Fields
  parsed_snapshot content =
      if is_empty content then end else elim (b.loads content) [ some (obj fs) ↦ fs | _ ↦ end ]

  -- _get_snapshot
  unfoldable pub get_snapshot : StateRuntime → Option String → Fields
  unfolding get safe_uid snapshot_key parsed_snapshot
  get_snapshot r uid =
      if r.runtime == "mcp"
      then get_or r.memory_snapshots (safe_uid uid) end
      else if r.has_storage
      then parsed_snapshot (b.read r.storage (snapshot_key r uid))
      else end

  -- _set_snapshot; the dict in memory is a new one
  unfoldable pub set_snapshot : Option String → Fields → StateRuntime → StateRuntime
  unfolding put discard safe_uid snapshot_key
  set_snapshot uid snapshot r =
      if r.runtime == "mcp"
      then record r {
        memory_snapshots = put r.memory_snapshots (safe_uid uid) snapshot;
        lent = discard r.lent (safe_uid uid);
      }
      else if r.has_storage
      then record r {
        storage =
            b.append (b.clear r.storage (snapshot_key r uid)) (snapshot_key r uid)
              (b.dumps snapshot);
      }
      else r

  -- prime_snapshot, of a dict, which stays that of the caller
  unfoldable pub prime_snapshot : Option String → Value → StateRuntime → StateRuntime
  unfolding set_snapshot lend
  prime_snapshot uid (obj snapshot) r = lend uid (set_snapshot uid snapshot r)
  prime_snapshot uid v r = r

  -- The snapshot that save_after_tool makes.
  unfoldable pub snapshot_of : Option String → StateRuntime → Fields
  unfolding state_by_module resolve_uid
  snapshot_of uid r = field "version" (int (pos 1)) (
      field "vars" (obj (state_by_module r.objects r.registry))
        (field "files" (obj (b.capture r.files (resolve_uid r uid))) end))

  unfoldable pub save_if : Registry → Option String → StateRuntime → StateRuntime
  unfolding set_snapshot snapshot_of
  save_if [] uid r = r
  save_if (x ∷ registry) uid r = set_snapshot uid (snapshot_of uid r) r

  -- save_after_tool; nothing is done if nothing is registered
  unfoldable pub save_after_tool : Option String → StateRuntime → StateRuntime
  unfolding save_if
  save_after_tool uid r = save_if r.registry uid r

  -- load_for_tool, with the snapshot that was found; the objects share its values from here on
  unfoldable pub load_snapshot : Option String → Fields → StateRuntime → Result StateRuntime
  unfolding value_of resolve_uid registered load_objects lend
  load_snapshot uid snapshot r = do
    files ← fields_of (value_of snapshot "files" null)
    all_vars ← fields_of (value_of snapshot "vars" null)
    objects ← load_objects all_vars r.defaults (registered r.registry) r.objects
    ok (record (lend uid r) {
      files = b.restore r.files (resolve_uid r uid) files;
      objects = objects;
    })

  unfoldable pub load_if : Registry → Option String → StateRuntime → Result StateRuntime
  unfolding get_snapshot load_snapshot
  load_if [] uid r = ok r
  load_if (x ∷ registry) uid r = load_snapshot uid (get_snapshot r uid) r

  -- load_for_tool
  unfoldable pub load_for_tool : Option String → StateRuntime → Result StateRuntime
  unfolding load_if
  load_for_tool uid r = load_if r.registry uid r
