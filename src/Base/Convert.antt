-- ===== src/Base/Convert.antt =====
-- What Python does with JSON values: truth, `str`, `int`, and `dict.get` with a default. `str` of an
-- array or an object prints the quotes and backslashes inside a string as they are; `int` of a
-- string reads an optional sign and digits, with no underscores, and `float` of one also a point and
-- the digits after it, with no exponent and no infinities.
use Prim.Native.Nat.{ℕ, zero, suc, ◌+◌, ◌-◌, ◌*◌, ◌/◌, ◌%◌, ◌^◌}
use Prim.Native.Char.{code}
use Prim.Native.String.{String}
use mathlib.Core.Bool.{Bool, true, false, not, ◌&&◌, ◌||◌}
use mathlib.Core.Option.{Option, none, some}
use mathlib.Core.List.{List, [], ◌∷◌}
use atsuite.Base.Tests.{if◌then◌else◌, leb}
use atsuite.Base.Keys.{◌==◌, string_eq, nat_eq}
use atsuite.Base.Int.{ℤ, pos, negsuc, is_zero}
use atsuite.Base.Text.{◌&◌, is_empty, strip, show}
use atsuite.Base.Json.{
  Value, null, bool, int, float, str, arr, obj, Items, nil, cons, Fields, end, field, find,
}

-- `-n`
unfoldable pub minus : ℕ → ℤ
minus zero = pos 0
minus (suc n) = negsuc n

-- `d.get(k, default)`
unfoldable pub value_of : Fields → String → Value → Value
unfolding find
value_of d k default = elim (find d k) [ none ↦ default | some v ↦ v ]

-- `bool(v)`
unfoldable pub truthy : Value → Bool
unfolding is_zero
truthy null = false
truthy (bool b) = b
truthy (int z) = not (is_zero z)
truthy (float z) = not (is_zero z)
truthy (str s) = not (is_empty s)
truthy (obj end) = false
truthy (obj (field k v fs)) = true
truthy (arr nil) = false
truthy (arr (cons v vs)) = true

-- `v or default`
unfoldable pub or_value : Value → Value → Value
unfolding truthy
or_value v default = if truthy v then v else default

unfoldable pub show_ℤ : ℤ → String
unfolding show
show_ℤ (pos n) = show n
show_ℤ (negsuc n) = "-" & show (suc n)

-- The digits behind the point of `n` units of the place `unit`, without zeros at the end.
show_fraction : ℕ → ℕ → ℕ → String
unfolding show
show_fraction zero unit n = ""
show_fraction (suc f) unit n =
    let rest = show_fraction f (unit / 10) (n % unit) in
    show (n / unit) & (if leb (n % unit) 0 then "" else rest)

show_millionths : ℕ → String
unfolding show_fraction show
show_millionths n = show (n / 1000000) & "." & show_fraction 6 100000 (n % 1000000)

show_float : ℤ → String
unfolding show_millionths
show_float (pos n) = show_millionths n
show_float (negsuc n) = "-" & show_millionths (suc n)

mutual
  -- `repr(v)`
  repr : Value → String
  repr null = "None"
  repr (bool true) = "True"
  repr (bool false) = "False"
  repr (int z) = show_ℤ z
  repr (float z) = show_float z
  repr (str s) = "'" & s & "'"
  repr (arr vs) = "[" & repr_items "" vs & "]"
  repr (obj fs) = "{" & repr_fields "" fs & "}"

  repr_items : String → Items → String
  repr_items separator nil = ""
  repr_items separator (cons v vs) = separator & repr v & repr_items ", " vs

  repr_fields : String → Fields → String
  repr_fields separator end = ""
  repr_fields separator (field k v fs) = separator & "'" & k & "': " & repr v & repr_fields ", " fs

-- `str(v)`
unfoldable pub text_of : Value → String
unfolding repr show_ℤ show_float
text_of (str s) = s
text_of v = repr v

-- `str(d.get(k, default))`
unfoldable pub text_field : Fields → String → String → String
unfolding value_of text_of
text_field d k default = text_of (value_of d k (str default))

-- `str(d.get(k, "")).strip()`
unfoldable pub stripped_field : Fields → String → String
unfolding text_field strip
stripped_field d k = strip (text_field d k "")

digits_from : ℕ → String → Option ℕ
digits_from n String.[] = some n
digits_from n (String.◌∷◌ c s) =
    let rest = digits_from (n * 10 + (code c - 48)) s in
    if leb 48 (code c) && leb (code c) 57 then rest else none

digits : String → Option ℕ
unfolding digits_from
digits s = if is_empty s then none else digits_from 0 s

signed : (ℕ → ℤ) → Option ℕ → Option ℤ
signed sign none = none
signed sign (some n) = some (sign n)

parse_int : String → Option ℤ
unfolding digits signed minus
parse_int String.[] = none
parse_int (String.◌∷◌ c s) =
    if code c == 45
    then signed minus (digits s)
    else if code c == 43
    then signed pos (digits s)
    else signed pos (digits (String.◌∷◌ c s))

-- `int(v)`; `none` where Python raises
unfoldable pub int_of : Value → Option ℤ
unfolding parse_int minus strip
int_of (int z) = some z
int_of (bool true) = some (pos 1)
int_of (bool false) = some (pos 0)
int_of (float (pos n)) = some (pos (n / 1000000))
int_of (float (negsuc n)) = some (minus (suc n / 1000000))
int_of (str s) = parse_int (strip s)
int_of v = none

-- The elements of an array and the entries of an object.
unfoldable pub elements : Items → List Value
elements nil = []
elements (cons v vs) = v ∷ elements vs

unfoldable pub entries : Fields → List (String × Value)
entries end = []
entries (field k v fs) = (k, v) ∷ entries fs

characters : String → List Value
characters String.[] = []
characters (String.◌∷◌ c s) = str (String.◌∷◌ c String.[]) ∷ characters s

key_values : Fields → List Value
key_values end = []
key_values (field k v fs) = str k ∷ key_values fs

-- What `for x in v` runs over; `none` where Python raises
unfoldable pub iterate : Value → Option (List Value)
unfolding elements characters key_values
iterate (arr vs) = some (elements vs)
iterate (str s) = some (characters s)
iterate (obj fs) = some (key_values fs)
iterate v = none

-- The digits behind a point, as millionths; those after the sixth are dropped.
fraction_from : ℕ → ℕ → String → Option ℕ
fraction_from left n String.[] = some (n * 10 ^ left)
fraction_from zero n (String.◌∷◌ c s) =
    let rest = fraction_from zero n s in if leb 48 (code c) && leb (code c) 57 then rest else none
fraction_from (suc left) n (String.◌∷◌ c s) =
    let rest = fraction_from left (n * 10 + (code c - 48)) s in
    if leb 48 (code c) && leb (code c) 57 then rest else none

decimal_from : ℕ → String → Option ℕ
unfolding fraction_from
decimal_from n String.[] = some (n * 1000000)
decimal_from n (String.◌∷◌ c s) =
    let rest = decimal_from (n * 10 + (code c - 48)) s in
    if leb 48 (code c) && leb (code c) 57
    then rest
    else if code c == 46
    then elim (fraction_from 6 0 s) [ none ↦ none | some f ↦ some (n * 1000000 + f) ]
    else none

decimal : String → Option ℕ
unfolding decimal_from
decimal s = if is_empty s || s == "." then none else decimal_from 0 s

parse_float : String → Option ℤ
unfolding decimal signed minus
parse_float String.[] = none
parse_float (String.◌∷◌ c s) =
    if code c == 45
    then signed minus (decimal s)
    else if code c == 43
    then signed pos (decimal s)
    else signed pos (decimal (String.◌∷◌ c s))

scale : ℤ → ℤ
unfolding minus
scale (pos n) = pos (n * 1000000)
scale (negsuc n) = minus (suc n * 1000000)

-- `float(v)` in millionths; `none` where Python raises
unfoldable pub float_of : Value → Option ℤ
unfolding scale parse_float strip
float_of (float z) = some z
float_of (int z) = some (scale z)
float_of (bool true) = some (pos 1000000)
float_of (bool false) = some (pos 0)
float_of (str s) = parse_float (strip s)
float_of v = none

-- Two results, if both are there.
unfoldable pub both {ℓ} : {A B : Type ℓ} → (Value → A → B) → Option Value → Option A → Option B
both f (some x) (some out) = some (f x out)
both f none _ = none
both f (some x) none = none
