-- ===== src/Arguments/Coerced.antt =====
-- The rounds of `_coerce_trace_value` (atsuite/utils.py), and what `parse_arguments` returns.
use mathlib.Core.Option as Option
use atsuite.Base.{
  ℕ, zero, suc, ◌≤◌, ◌<◌, ◌≡◌, refl, ap, String, Option, some, string_eq, arith, Bool-cases,
  Option-cases, inl, inr,
}
use atsuite.Base.Json.{
  Value, null, bool, int, float, str, arr, obj, Items, nil, cons, Fields, end, field, assign, find,
}
use atsuite.Base.Text.{is_empty, lstrip, rstrip, strip}
use atsuite.Base.Convert.{both, truthy}
use atsuite.Result.{ok, ◌>>=◌}
use atsuite.Arguments.{
  text_length, longest, longest_field, longest_item, opens_json, scalar, coerce_text, coerce_value,
  coerce_fields, coerce_items, coerce_trace_value, or_exhausted, argument, arguments_from,
  parse_arguments,
}

text_length-lstrip : (s : String) → text_length (lstrip s) ≤ text_length s
unfolding text_length lstrip
text_length-lstrip String.[] = omega arith
text_length-lstrip (String.◌∷◌ c s) = ground (arith, text_length-lstrip s)

text_length-rstrip : (s : String) → text_length (rstrip s) ≤ text_length s
unfolding text_length rstrip
text_length-rstrip String.[] = omega arith
text_length-rstrip (String.◌∷◌ c s) = ground (arith, text_length-rstrip s)

text_length-strip : (s : String) → text_length (strip s) ≤ text_length s
unfolding strip
text_length-strip s = omega (arith, text_length-rstrip (lstrip s), text_length-lstrip s)

-- The texts of a parsed value stand in quotes in the text that it is parsed from.
abbrev pub Shrinks : (String → Option Value) → Type 0
Shrinks loads = (s : String) (v : Value) → loads s ≡ some v → longest v < text_length s

both-some {ℓ} :
    {A B : Type ℓ} (g : Value → A → B) {o : Option Value} {p : Option A} {x : Value} {out : A}
    → o ≡ some x
    → p ≡ some out
    → both g o p ≡ some (g x out)
unfolding both
both-some g e e' = rw (e, e') refl

module _ (loads : String → Option Value) (again : Value → Option Value) (f : ℕ)
    (shrinks : Shrinks loads)
    (ih : (v : Value) → longest v < f → (x : Value) × (again v ≡ some x)) where
  coerce_text-total :
      (s : String) → text_length s ≤ f → (x : Value) × (coerce_text loads again s ≡ some x)
  unfolding coerce_text
  coerce_text-total s h = elim (Bool-cases (is_empty (strip s))) [
    | inl blank ↦ (str s, rw blank refl)
    | inr some_text ↦ elim (Bool-cases (opens_json (strip s))) [
      | inr other ↦ (scalar s (strip s), rw (some_text, other) refl)
      | inl opens ↦ elim (Option-cases (loads (strip s))) [
        | inl bad ↦ (str s, rw (some_text, opens, bad) refl)
        | inr (v, parsed) ↦
            let less = shrinks (strip s) v parsed in
            let (x, e) = ih v (omega (arith, text_length-strip s)) in
            (x, rw (some_text, opens, parsed) e)
      ]
    ]
  ]

  mutual
    unfolding coerce_value coerce_fields coerce_items longest longest_field longest_item

    coerce_value-total :
        (v : Value) → longest v ≤ f → (x : Value) × (coerce_value loads again v ≡ some x)
    coerce_value-total null h = (null, refl)
    coerce_value-total (bool b) h = (bool b, refl)
    coerce_value-total (int z) h = (int z, refl)
    coerce_value-total (float z) h = (float z, refl)
    coerce_value-total (str s) h = coerce_text-total s h
    coerce_value-total (obj fs) h =
        let (out, e) = coerce_fields-total fs h in (obj out, ap (Option.map obj) e)
    coerce_value-total (arr vs) h =
        let (out, e) = coerce_items-total vs h in (arr out, ap (Option.map arr) e)

    coerce_fields-total :
        (fs : Fields)
        → longest_field fs ≤ f
        → (out : Fields) × (coerce_fields loads again fs ≡ some out)
    coerce_fields-total end h = (end, refl)
    coerce_fields-total (field k v fs) h =
        let (x, e) = coerce_value-total v (omega arith) in
        let (out, e') = coerce_fields-total fs (omega arith) in
        (field k x out, both-some (field k) e e')

    coerce_items-total :
        (vs : Items)
        → longest_item vs ≤ f
        → (out : Items) × (coerce_items loads again vs ≡ some out)
    coerce_items-total nil h = (nil, refl)
    coerce_items-total (cons v vs) h =
        let (x, e) = coerce_value-total v (omega arith) in
        let (out, e') = coerce_items-total vs (omega arith) in (cons x out, both-some cons e e')

-- If the texts in a value that `json.loads` returns are shorter than the text it was read from,
-- then `_coerce_trace_value` returns for every value whose texts are shorter than the number of
-- rounds.
pub coerce_trace_value-total :
    (loads : String → Option Value) (f : ℕ) (v : Value)
    → Shrinks loads
    → longest v < f
    → (x : Value) × (coerce_trace_value f loads v ≡ some x)
unfolding coerce_trace_value
coerce_trace_value-total loads zero v shrinks h = elim h [ ]
coerce_trace_value-total loads (suc f) v shrinks h =
    coerce_value-total loads (coerce_trace_value f loads) f shrinks
      (λ w less. coerce_trace_value-total loads f w shrinks less) v (omega arith)

argument-total :
    (loads : String → Option Value) (v : Value)
    → Shrinks loads
    → (x : Value) × (argument loads v ≡ ok x)
unfolding argument or_exhausted longest
argument-total loads null shrinks = (null, refl)
argument-total loads (bool b) shrinks = (bool b, refl)
argument-total loads (int z) shrinks = (int z, refl)
argument-total loads (float z) shrinks = (float z, refl)
argument-total loads (str s) shrinks = (str s, refl)
argument-total loads (obj fs) shrinks =
    let (x, e) =
      coerce_trace_value-total loads (suc (longest_field fs)) (obj fs) shrinks (omega arith) in
    (x, ap or_exhausted e)
argument-total loads (arr vs) shrinks =
    let (x, e) =
      coerce_trace_value-total loads (suc (longest_item vs)) (arr vs) shrinks (omega arith) in
    (x, ap or_exhausted e)

arguments_from-total :
    (loads : String → Option Value) (fs out : Fields)
    → Shrinks loads
    → (result : Fields) × (arguments_from loads fs out ≡ ok result)
unfolding arguments_from ◌>>=◌
arguments_from-total loads end out shrinks = (out, refl)
arguments_from-total loads (field k v fs) out shrinks =
    let (x, e) = argument-total loads v shrinks in
    let (result, e') = arguments_from-total loads fs (assign out k x) shrinks in
    (result, rw (e, e') refl)

find-assign_self : (d : Fields) (k : String) (v : Value) → find (assign d k v) k ≡ some v
unfolding find assign
find-assign_self end k v = ground arith
find-assign_self (field j w d) k v = ground (arith, find-assign_self d k v)

-- If the texts in a value that `json.loads` returns are shorter than the text it was read from,
-- then `parse_arguments` of a dict returns, and the `uid` of what it returns is that of the replay,
-- whatever the recorded arguments hold.
pub parse_arguments-uid :
    (loads : String → Option Value) (fs : Fields) (uid : String)
    → Shrinks loads
    → (out : Fields) × (parse_arguments loads (obj fs) uid ≡ ok out)
      × (find out "uid" ≡ some (str uid))
unfolding parse_arguments truthy ◌>>=◌ find string_eq
parse_arguments-uid loads end uid shrinks = (field "uid" (str uid) end, refl, refl)
parse_arguments-uid loads (field k v fs) uid shrinks =
    let (out, e) = arguments_from-total loads (field k v fs) end shrinks in
    (assign out "uid" (str uid), rw e refl, find-assign_self out "uid" (str uid))
