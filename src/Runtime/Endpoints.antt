-- ===== src/Runtime/Endpoints.antt =====
-- The two readings of an endpoint map: `connect` of atsuite/runtime.py and `_runtime_targets` of
-- atsuite/invoker.py.
use atsuite.Base.{
  String, ◌≡◌, refl, sym, subst, ap, ◌∙◌, false, Option, none, some, [], ◌∷◌, string_eq, ◌==◌,
  arith,
}
use atsuite.Base.Dict.{Dict, get, get-put}
use atsuite.Base.Json.{
  Value, null, bool, int, float, arr, str, obj, Fields, end, field, find, Distinct,
}
use atsuite.Result.{ok, >>=-eq-ok, ok_injective}
use atsuite.Pipeline.Data.{ResolvedTarget}
use atsuite.Runtime.{
  RuntimeTarget, family_or, connect_target, store_target, connect_targets, raw_targets, connect,
  runtime_target, runtime_targets_from, runtime_targets,
}

-- The same target, the same endpoint and the same manifest.
pub record Agree (t t' : RuntimeTarget) : Type 0 where
  pub target_id : t'.target_id ≡ t.target_id
  pub endpoint : t'.endpoint ≡ t.endpoint
  pub tool_manifest : t'.tool_manifest ≡ t.tool_manifest

get-store_target :
    (k j : String) (t : Option RuntimeTarget) (d : Dict String RuntimeTarget)
    → (k == j) ≡ false
    → get (store_target k t d) j ≡ get d j
unfolding store_target
get-store_target k j none d h = refl
get-store_target k j (some t) d h = get-put d k j t ∙ rw h refl

get-stored :
    (k j : String) (t : Option RuntimeTarget) (d : Dict String RuntimeTarget) (x : RuntimeTarget)
    → k ≡ j
    → t ≡ some x
    → get (store_target k t d) j ≡ some x
unfolding store_target
get-stored k j none d x same at = cc
get-stored k j (some y) d x same at = ground (arith, get-put d k j y)

-- A name that the map lacks keeps what it had.
connect_targets-other :
    (family : String) (raw : Fields) (d : Dict String RuntimeTarget) (name : String)
    {out : Dict String RuntimeTarget}
    → find raw name ≡ none
    → connect_targets family raw d ≡ ok out
    → get out name ≡ get d name
unfolding connect_targets find
connect_targets-other family end d name absent h = ap (λ x. get x name) (sym (ok_injective h))
connect_targets-other family (field k v raw) d name absent h =
    let (t, e, rest) = >>=-eq-ok _ _ h in
    let differ : (k == name) ≡ false = ground arith in
    let later_absent : find raw name ≡ none = ground arith in
    connect_targets-other family raw (store_target k t d) name later_absent rest
    ∙ get-store_target k name t d differ

connect_targets-found :
    (family : String) (raw : Fields) (d : Dict String RuntimeTarget) (name : String) (v : Value)
    {out : Dict String RuntimeTarget}
    → Distinct raw
    → find raw name ≡ some v
    → connect_targets family raw d ≡ ok out
    → (t : Option RuntimeTarget) × (connect_target family name v ≡ ok t)
      × ((x : RuntimeTarget) → t ≡ some x → get out name ≡ some x)
unfolding connect_targets find store_target
connect_targets-found family end d name v u found h = cc
connect_targets-found family (field k w raw) d name v u found h = elim (string_eq.dec k name) [
  | yes same ↦
      let (t, e, rest) = >>=-eq-ok _ _ h in
      let value : w ≡ v = ground arith in
      let absent = subst (λ j. find raw j ≡ none) same u.0 in
      (
        t,
        subst (λ j. connect_target family j v ≡ ok t) same
            (subst (λ x. connect_target family k x ≡ ok t) value e),
        λ x at.
            connect_targets-other family raw (store_target k t d) name absent rest
            ∙ get-stored k name t d x same at,
      )
  | no differ ↦
      let (t, e, rest) = >>=-eq-ok _ _ h in
      connect_targets-found family raw (store_target k t d) name v u.1 (ground arith) rest
]

-- A target of `_runtime_targets` comes from the entry of the map with its name.
runtime_targets_from-found :
    (raw : Fields) (targets : Dict String ResolvedTarget) (name : String) (t : RuntimeTarget)
    {ts : Dict String RuntimeTarget}
    → runtime_targets_from raw targets ≡ ok ts
    → get ts name ≡ some t
    → (target : ResolvedTarget) × (runtime_target name target (find raw name) ≡ ok t)
unfolding runtime_targets_from get
runtime_targets_from-found raw [] name t h found =
    let nothing : ◌≡◌ {A = Option RuntimeTarget} none (some t) =
      ap (λ ts. get ts name) (ok_injective h) ∙ found in
    cc nothing
runtime_targets_from-found raw ((k, target) ∷ targets) name t {ts} h found =
    let (x, e, h') = >>=-eq-ok _ _ h in
    let (rest, e', h'') = >>=-eq-ok _ _ h' in
    let at : get ((k, x) ∷ rest) name ≡ some t =
      ap (λ ts. get ts name) (ok_injective h'') ∙ found in
    elim (string_eq.dec k name) [
      | yes same ↦
          let value : x ≡ t = ground arith in
          (
            target,
            subst (λ j. runtime_target j target (find raw j) ≡ ok t) same
                (subst (λ y. runtime_target k target (find raw k) ≡ ok y) value e),
          )
      | no differ ↦ runtime_targets_from-found raw targets name t e' (ground arith)
    ]

-- An entry that both readings take.
Agree-on :
    (family name : String) (target : ResolvedTarget) (v : Value) (t : RuntimeTarget)
    (c : Option RuntimeTarget)
    → runtime_target name target (some v) ≡ ok t
    → connect_target family name v ≡ ok c
    → (t' : RuntimeTarget) × (c ≡ some t') × Agree t t'
unfolding runtime_target connect_target
Agree-on family name target (str endpoint) t c h h' =
    let e = ok_injective h in
    (
      _,
      sym (ok_injective h'),
      record {
        target_id = ap (λ x. x.target_id) e;
        endpoint = ap (λ x. x.endpoint) e;
        tool_manifest = ap (λ x. x.tool_manifest) e;
      },
    )
Agree-on family name target (obj raw) t c h h' =
    let (resources, e1, h1) = >>=-eq-ok _ _ h in
    let (manifest, e2, h2) = >>=-eq-ok _ _ h1 in
    let (resources', e1', h1') = >>=-eq-ok _ _ h' in
    let (manifest', e2', h2') = >>=-eq-ok _ _ h1' in
    let same : manifest' ≡ manifest = ok_injective (sym e2' ∙ e2) in
    let e = ok_injective h2 in
    (
      _,
      sym (ok_injective h2'),
      record {
        target_id = ap (λ x. x.target_id) e;
        endpoint = ap (λ x. x.endpoint) e;
        tool_manifest = same ∙ ap (λ x. x.tool_manifest) e;
      },
    )
Agree-on family name target null t c h h' = cc
Agree-on family name target (bool b) t c h h' = cc
Agree-on family name target (int z) t c h h' = cc
Agree-on family name target (float z) t c h h' = cc
Agree-on family name target (arr vs) t c h h' = cc

found_value :
    (name : String) (target : ResolvedTarget) (v : Option Value) (t : RuntimeTarget)
    → runtime_target name target v ≡ ok t
    → (x : Value) × (v ≡ some x)
unfolding runtime_target
found_value name target none t h = cc
found_value name target (some x) t h = (x, refl)

-- If the targets of the endpoint map have distinct ids, and both `_runtime_targets` and the
-- adapter's `connect` return for it, then for a target that the first has under a name the second
-- has one under that name too, with the same target id, endpoint and tool manifest.
pub runtime_targets-Agree :
    (targets : Dict String ResolvedTarget) (url_map : Fields) (family : String)
    {ts out : Dict String RuntimeTarget}
    → ((raw : Fields) → raw_targets url_map ≡ ok raw → Distinct raw)
    → runtime_targets targets url_map ≡ ok ts
    → connect family url_map ≡ ok out
    → (name : String) (t : RuntimeTarget) → get ts name ≡ some t
    → (t' : RuntimeTarget) × (get out name ≡ some t') × Agree t t'
unfolding runtime_targets connect
runtime_targets-Agree targets url_map family {ts} {out} distinct h h' name t found =
    let (raw, e, rest) = >>=-eq-ok _ _ h in
    let (raw', e', rest') = >>=-eq-ok _ _ h' in
    let same : raw' ≡ raw = ok_injective (sym e' ∙ e) in
    let connected =
      subst (λ r. connect_targets (family_or url_map family) r [] ≡ ok out) same rest' in
    let (target, made) = runtime_targets_from-found raw targets name t rest found in
    let (v, at) = found_value name target (find raw name) t made in
    let (c, read, stored) =
      connect_targets-found (family_or url_map family) raw [] name v (distinct raw e) at
        connected in
    let (t', is_some, agree) =
      Agree-on (family_or url_map family) name target v t c
        (subst (λ x. runtime_target name target x ≡ ok t) at made) read in
    (t', stored t' is_some, agree)
