-- ===== src/State/Values.antt =====
-- The values of attributes, and what of them a snapshot keeps (atsuite_sdk/state.py). White space and
-- letters are those of ASCII.
use atsuite.Base.{
  String, Bool, Option, none, some, [], ◌∷◌, ◌&&◌, ◌||◌, string_eq, if◌then◌else◌, leb,
}
use Prim.Native.Char.{Char, code}
use mathlib.Core.Option as Option
use atsuite.Base.Dict.{Dict, put}
use atsuite.Base.Int.{ℤ}
use atsuite.Base.Json.{
  Value, null, bool, int, float, str, arr, obj, Items, nil, cons, Fields, end, field,
}
use atsuite.Base.Convert.{both}
use atsuite.Base.Text.{or_else, starts_with, char_at}

mutual
  -- A value of Python as far as the module tells values apart; a key that is no text is `none`.
  pub data PyValue : Type 0 where
    absent : PyValue
    truth : Bool → PyValue
    integer : ℤ → PyValue
    real : ℤ → PyValue
    text : String → PyValue
    path : String → PyValue
    list : PyItems → PyValue
    tuple : PyItems → PyValue
    dict : PyEntries → PyValue
    function : PyValue
    other : PyValue

  pub data PyItems : Type 0 where
    empty : PyItems
    item : PyValue → PyItems → PyItems

  pub data PyEntries : Type 0 where
    done : PyEntries
    text_key : String → PyValue → PyEntries → PyEntries
    other_key : PyValue → PyEntries → PyEntries

abbrev pub Attributes : Type 0
Attributes = Dict String PyValue

-- `ch if ch.isalnum() or ch in ("-", "_") else "_"`
unfoldable pub safe_char : Char → Char
safe_char c =
    if (leb 48 (code c) && leb (code c) 57)
      || (leb 65 (code c) && leb (code c) 90)
      || (leb 97 (code c) && leb (code c) 122)
      || (leb 45 (code c) && leb (code c) 45)
    then c
    else char_at "_" 0

unfoldable pub clean : String → String
unfolding safe_char
clean String.[] = String.[]
clean (String.◌∷◌ c s) = String.◌∷◌ (safe_char c) (clean s)

-- _safe_uid
unfoldable pub safe_uid : Option String → String
unfolding clean
safe_uid none = "default"
safe_uid (some uid) = clean (or_else uid "default")

unfoldable mutual
  unfolding both

  -- _to_json_compatible; `none` is _SKIP
  pub to_json_compatible : PyValue → Option Value
  to_json_compatible absent = some null
  to_json_compatible (truth b) = some (bool b)
  to_json_compatible (integer z) = some (int z)
  to_json_compatible (real z) = some (float z)
  to_json_compatible (text s) = some (str s)
  to_json_compatible (path s) = some (str s)
  to_json_compatible (list vs) = Option.map arr (to_json_items vs)
  to_json_compatible (tuple vs) = Option.map arr (to_json_items vs)
  to_json_compatible (dict es) = Option.map obj (to_json_entries es)
  to_json_compatible function = none
  to_json_compatible other = none

  pub to_json_items : PyItems → Option Items
  to_json_items empty = some nil
  to_json_items (item v vs) = both cons (to_json_compatible v) (to_json_items vs)

  pub to_json_entries : PyEntries → Option Fields
  to_json_entries done = some end
  to_json_entries (text_key k v es) = both (field k) (to_json_compatible v) (to_json_entries es)
  to_json_entries (other_key v es) = none

unfoldable mutual
  -- A JSON value as Python has it.
  pub from_json : Value → PyValue
  from_json null = absent
  from_json (bool b) = truth b
  from_json (int z) = integer z
  from_json (float z) = real z
  from_json (str s) = text s
  from_json (arr vs) = list (from_items vs)
  from_json (obj fs) = dict (from_fields fs)

  pub from_items : Items → PyItems
  from_items nil = empty
  from_items (cons v vs) = item (from_json v) (from_items vs)

  pub from_fields : Fields → PyEntries
  from_fields end = done
  from_fields (field k v fs) = text_key k (from_json v) (from_fields fs)

-- `callable(value)` is skipped too, by _to_json_compatible.
unfoldable pub kept_value : String → PyValue → Option Value
unfolding starts_with to_json_compatible
kept_value k v = if starts_with "_" k then none else to_json_compatible v

-- _extract_object_state
unfoldable pub extract_object_state : Attributes → Fields
unfolding kept_value
extract_object_state [] = end
extract_object_state ((k, v) ∷ attributes) = elim (kept_value k v) [
  | none ↦ extract_object_state attributes
  | some x ↦ field k x (extract_object_state attributes)
]

-- _apply_object_state; that the object shares the values with `vars` afterwards is told by `lent`
-- of StateRuntime
unfoldable pub apply_object_state : Fields → Attributes → Attributes
unfolding put from_json
apply_object_state end attributes = attributes
apply_object_state (field k v vars) attributes =
    apply_object_state vars (put attributes k (from_json v))
