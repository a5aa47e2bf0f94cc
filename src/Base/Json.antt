-- ===== src/Base/Json.antt =====
-- JSON values as `json.load` gives them, and the `dict` operations on objects. A float is counted in
-- millionths.
use mathlib.Core.Path.{◌≡◌}
use mathlib.Core.Bool.{Bool}
use mathlib.Core.Option.{Option, none, some}
use Prim.Native.String.{String}
use atsuite.Base.Tests.{if◌then◌else◌}
use atsuite.Base.Keys.{◌==◌, string_eq}
use atsuite.Base.Int.{ℤ}

mutual
  pub data Value : Type 0 where
    null : Value
    bool : Bool → Value
    int : ℤ → Value
    float : ℤ → Value
    str : String → Value
    obj : Fields → Value
    arr : Items → Value

  pub data Fields : Type 0 where
    end : Fields
    field : String → Value → Fields → Fields

  pub data Items : Type 0 where
    nil : Items
    cons : Value → Items → Items

-- `d.get(k)`
unfoldable pub find : Fields → String → Option Value
find end k = none
find (field j v fs) k = if j == k then some v else find fs k

-- `d[k] = v`
unfoldable pub assign : Fields → String → Value → Fields
assign end k v = field k v end
assign (field j w fs) k v = if j == k then field j v fs else field j w (assign fs k v)

-- `d.update(other)`
unfoldable pub update : Fields → Fields → Fields
unfolding assign
update d end = d
update d (field k v other) = update (assign d k v) other

-- The keys of an object are distinct.
abbrev pub Distinct : Fields → Type 0
Distinct end = Unit
Distinct (field k v fs) = (find fs k ≡ none) × Distinct fs
