-- ===== src/Arguments.antt =====
-- `parse_arguments` of atsuite/utils.py: the arguments of a recorded tool call. `json.loads` is a
-- parameter, `none` where it raises. A round of fuel is used where a text is read as JSON.
pub mod Coerced
use atsuite.Base.{
  ℕ, zero, suc, ◌+◌, ◌≤◌, String, Bool, Option, none, some, true, false, not, ◌&&◌, ◌||◌, string_eq,
  ◌==◌, if◌then◌else◌, leb, max,
}
use Prim.Native.Char.{code}
use mathlib.Core.Option as Option
use atsuite.Base.Json.{
  Value, null, bool, int, float, str, arr, obj, Items, nil, cons, Fields, end, field, assign,
}
use atsuite.Base.Text.{is_empty, strip}
use atsuite.Base.Convert.{both, int_of, truthy}
use atsuite.Result.{Result, ok, err, ◌>>=◌, wrong_type, exhausted}

-- `len(s)`
unfoldable pub text_length : String → ℕ
text_length String.[] = 0
text_length (String.◌∷◌ c s) = suc (text_length s)

unfoldable mutual
  -- The length of the longest text in a value.
  pub longest : Value → ℕ
  longest null = 0
  longest (bool b) = 0
  longest (int z) = 0
  longest (float z) = 0
  longest (str s) = text_length s
  longest (obj fs) = longest_field fs
  longest (arr vs) = longest_item vs

  pub longest_field : Fields → ℕ
  longest_field end = 0
  longest_field (field k v fs) = max (longest v) (longest_field fs)

  pub longest_item : Items → ℕ
  longest_item nil = 0
  longest_item (cons v vs) = max (longest v) (longest_item vs)

all_digits : String → Bool
all_digits String.[] = true
all_digits (String.◌∷◌ c s) = leb 48 (code c) && leb (code c) 57 && all_digits s

-- `s.isdigit() or (s.startswith("-") and len(s) > 1 and s[1:].isdigit())`
unfoldable pub is_number : String → Bool
unfolding all_digits
is_number String.[] = false
is_number (String.◌∷◌ c s) =
    if leb 45 (code c) && leb (code c) 45
    then not (is_empty s) && all_digits s
    else all_digits (String.◌∷◌ c s)

-- `s[0] in "[{"`
unfoldable pub opens_json : String → Bool
opens_json String.[] = false
opens_json (String.◌∷◌ c s) =
    (leb 91 (code c) && leb (code c) 91) || (leb 123 (code c) && leb (code c) 123)

-- What a text that is no JSON container stands for: a literal, a number or itself.
unfoldable pub scalar : String → String → Value
unfolding is_number int_of
scalar s t =
    if t == "true"
    then bool true
    else if t == "false"
    then bool false
    else if t == "null"
    then null
    else if is_number t
    then (elim (int_of (str t)) [ none ↦ str s | some z ↦ int z ])
    else str s

-- The text case of `_coerce_trace_value`; `again` reads what the text was parsed to.
unfoldable pub coerce_text :
    (String → Option Value) → (Value → Option Value) → String → Option Value
unfolding strip opens_json scalar
coerce_text loads again s =
    let t = strip s in
    if is_empty t
    then some (str s)
    else if opens_json t
    then (elim (loads t) [ none ↦ some (str s) | some v ↦ again v ])
    else some (scalar s t)

unfoldable mutual
  unfolding coerce_text both

  pub coerce_value : (String → Option Value) → (Value → Option Value) → Value → Option Value
  coerce_value loads again null = some null
  coerce_value loads again (bool b) = some (bool b)
  coerce_value loads again (int z) = some (int z)
  coerce_value loads again (float z) = some (float z)
  coerce_value loads again (str s) = coerce_text loads again s
  coerce_value loads again (obj fs) = Option.map obj (coerce_fields loads again fs)
  coerce_value loads again (arr vs) = Option.map arr (coerce_items loads again vs)

  pub coerce_fields : (String → Option Value) → (Value → Option Value) → Fields → Option Fields
  coerce_fields loads again end = some end
  coerce_fields loads again (field k v fs) =
      both (field k) (coerce_value loads again v) (coerce_fields loads again fs)

  pub coerce_items : (String → Option Value) → (Value → Option Value) → Items → Option Items
  coerce_items loads again nil = some nil
  coerce_items loads again (cons v vs) =
      both cons (coerce_value loads again v) (coerce_items loads again vs)

-- _coerce_trace_value
unfoldable pub coerce_trace_value : ℕ → (String → Option Value) → Value → Option Value
unfolding coerce_value
coerce_trace_value zero loads v = none
coerce_trace_value (suc f) loads v = coerce_value loads (coerce_trace_value f loads) v

unfoldable pub or_exhausted : Option Value → Result Value
or_exhausted none = err exhausted
or_exhausted (some v) = ok v

-- `out[k] = ...` of one argument: containers are coerced, all else stays. What is parsed from a text
-- has shorter texts, so the length of the longest and one more are enough.
unfoldable pub argument : (String → Option Value) → Value → Result Value
unfolding coerce_trace_value longest longest_field longest_item or_exhausted
argument loads (obj fs) = or_exhausted (coerce_trace_value (suc (longest_field fs)) loads (obj fs))
argument loads (arr vs) = or_exhausted (coerce_trace_value (suc (longest_item vs)) loads (arr vs))
argument loads v = ok v

unfoldable pub arguments_from : (String → Option Value) → Fields → Fields → Result Fields
unfolding assign argument ◌>>=◌
arguments_from loads end out = ok out
arguments_from loads (field k v input) out = do
  x ← argument loads v
  arguments_from loads input (assign out k x)

-- parse_arguments
unfoldable pub parse_arguments : (String → Option Value) → Value → String → Result Fields
unfolding truthy assign ◌>>=◌
parse_arguments loads input uid =
    if not (truthy input) then ok (field "uid" (str uid) end) else elim input [
      | obj fs ↦ arguments_from loads fs end >>= λ out. ok (assign out "uid" (str uid))
      | _ ↦ err wrong_type
    ]
