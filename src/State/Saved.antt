-- ===== src/State/Saved.antt =====
-- Sessions of the state runtime in one process (atsuite_sdk/state.py).
use atsuite.Base.{
  ℕ, String, ◌≡◌, ◌≢◌, refl, sym, ap, subst, ◌∙◌, Option, none, some, List, [], ◌∷◌, nat_eq,
  string_eq, ◌==◌, if◌then◌else◌, arith, All, All-map,
}
use atsuite.Base.Dict.{Dict, get, get_or, put, get-put}
use atsuite.Base.Json.{Value, null, obj, Fields, end, field, find, Distinct}
use atsuite.Base.Convert.{value_of}
use atsuite.Result.{ok, ◌>>=◌, ok_injective}
use atsuite.Pipeline.Configs.{fields_of}
use atsuite.State.{
  Backend, Entry, Registry, registered, attributes_of, named_state, state_by_module, not_null,
  in_other_module, chosen_state, state_for, load_objects, StateRuntime, get_snapshot, snapshot_of,
  lend, load_snapshot, load_if, resolve_uid,
}
use atsuite.State.Values.{Attributes, from_json, extract_object_state, apply_object_state}

-- What a snapshot keeps of an object.
abbrev pub kept_state : Dict ℕ Attributes → ℕ → Fields
kept_state objects o = extract_object_state (attributes_of objects o)

-- The object has every variable of `vars`.
abbrev pub Holds : Attributes → Fields → Type 0
Holds attributes vars =
    (k : String) (v : Value) → find vars k ≡ some v → get attributes k ≡ some (from_json v)

apply-other :
    (vars : Fields) (attributes : Attributes) (k : String)
    → find vars k ≡ none
    → get (apply_object_state vars attributes) k ≡ get attributes k
unfolding apply_object_state find
apply-other end attributes k h = refl
apply-other (field j v vars) attributes k h = elim (string_eq.dec j k) [
  | yes same ↦ absurd (ground arith)
  | no differ ↦
      apply-other vars (put attributes j (from_json v)) k (ground arith)
      ∙ ground (arith, get-put attributes j k (from_json v))
]

-- Applying a state leaves the object with it.
apply-Holds :
    (vars : Fields) (attributes : Attributes)
    → Distinct vars
    → Holds (apply_object_state vars attributes) vars
unfolding apply_object_state find
apply-Holds end attributes d k v h = cc
apply-Holds (field j w vars) attributes d k v h = elim (string_eq.dec j k) [
  | yes same ↦
      let value : w ≡ v = ground arith in
      apply-other vars (put attributes j (from_json w)) k (subst (λ x. find vars x ≡ none) same d.0)
      ∙ ground (arith, get-put attributes j k (from_json w))
  | no differ ↦ apply-Holds vars (put attributes j (from_json w)) d.1 k v (ground arith)
]

attributes-put :
    (objects : Dict ℕ Attributes) (o p : ℕ) (a : Attributes)
    → attributes_of (put objects o a) p ≡ (if o == p then a else attributes_of objects p)
unfolding attributes_of
attributes-put objects o p a = ground (arith, get-put objects o p a)

module _ (saved : Dict ℕ Attributes) (all_vars : Fields)
    (defaults : Dict String (Dict String Fields)) where
  -- The snapshot has the object's state under its module and name.
  abbrev Finds : Entry → Type 0
  Finds e = state_for all_vars defaults e ≡ ok (kept_state saved e.object)

  stored-Holds :
      (objects : Dict ℕ Attributes) (p o : ℕ) (a : Attributes)
      → p ≡ o
      → Holds a (kept_state saved p)
      → Holds (attributes_of (put objects p a) o) (kept_state saved o)
  stored-Holds objects p o a same holds =
      let at : attributes_of (put objects p a) o ≡ a =
        ground (arith, attributes-put objects p o a) in
      subst (λ x. Holds x (kept_state saved o)) (sym at)
        (subst (λ q. Holds a (kept_state saved q)) same holds)

  step-Holds :
      (objects : Dict ℕ Attributes) (p o : ℕ)
      → ((q : ℕ) → Distinct (kept_state saved q))
      → Holds (attributes_of objects o) (kept_state saved o)
      → Holds
          (attributes_of
            (put objects p (apply_object_state (kept_state saved p) (attributes_of objects p)))
            o)
          (kept_state saved o)
  step-Holds objects p o d holds =
      let a = apply_object_state (kept_state saved p) (attributes_of objects p) in
      elim (nat_eq.dec p o) [
        | yes same ↦
            stored-Holds objects p o a same
              (apply-Holds (kept_state saved p) (attributes_of objects p) (d p))
        | no differ ↦
            let at : attributes_of (put objects p a) o ≡ attributes_of objects o =
              ground (arith, attributes-put objects p o a) in
            subst (λ x. Holds x (kept_state saved o)) (sym at) holds
      ]

  -- What holds of an object is kept when states are loaded.
  load_objects-keeps :
      (entries : List Entry) (objects : Dict ℕ Attributes) (o : ℕ)
      → All Finds entries
      → ((p : ℕ) → Distinct (kept_state saved p))
      → Holds (attributes_of objects o) (kept_state saved o)
      → (out : Dict ℕ Attributes) → load_objects all_vars defaults entries objects ≡ ok out
      → Holds (attributes_of out o) (kept_state saved o)
  unfolding load_objects ◌>>=◌
  load_objects-keeps [] objects o finds d holds out h =
      subst (λ x. Holds (attributes_of x o) (kept_state saved o)) (ok_injective h) holds
  load_objects-keeps (e ∷ entries) objects o finds d holds out h =
      let next =
        put objects e.object
          (apply_object_state (kept_state saved e.object) (attributes_of objects e.object)) in
      let h' : load_objects all_vars defaults entries next ≡ ok out = (rw finds.0 at h) in
      let holds' = step-Holds objects e.object o d holds in
      load_objects-keeps entries next o finds.1 d holds' out h'

  load_objects-Holds :
      (entries : List Entry) (objects : Dict ℕ Attributes)
      → All Finds entries
      → ((p : ℕ) → Distinct (kept_state saved p))
      → (out : Dict ℕ Attributes) × (load_objects all_vars defaults entries objects ≡ ok out)
        × All (λ e. Holds (attributes_of out e.object) (kept_state saved e.object)) entries
  unfolding load_objects ◌>>=◌
  load_objects-Holds [] objects finds d = (objects, refl, tt)
  load_objects-Holds (e ∷ entries) objects finds d =
      let a = apply_object_state (kept_state saved e.object) (attributes_of objects e.object) in
      let next = put objects e.object a in
      let (out, h, rest) = load_objects-Holds entries next finds.1 d in
      let holds =
        stored-Holds objects e.object e.object a refl
          (apply-Holds (kept_state saved e.object) (attributes_of objects e.object) (d e.object)) in
      (out, rw finds.0 h, (load_objects-keeps entries next e.object finds.1 d holds out h, rest))

value_of-found : (d : Fields) (k : String) (v : Value) → find d k ≡ some v → value_of d k null ≡ v
unfolding value_of
value_of-found d k v h = rw (value_of, h)

find-named_state :
    (objects : Dict ℕ Attributes) (named : Dict String ℕ) (name : String) (o : ℕ)
    → get named name ≡ some o
    → find (named_state objects named) name ≡ some (obj (kept_state objects o))
unfolding named_state find get
find-named_state objects [] name o h = cc
find-named_state objects ((k, p) ∷ named) name o h =
    ground (arith, find-named_state objects named name o)

find-state_by_module :
    (objects : Dict ℕ Attributes) (registry : Registry) (m : String) (named : Dict String ℕ)
    → get registry m ≡ some named
    → find (state_by_module objects registry) m ≡ some (obj (named_state objects named))
unfolding state_by_module find get
find-state_by_module objects [] m named h = cc
find-state_by_module objects ((k, x) ∷ registry) m named h =
    ground (arith, find-state_by_module objects registry m named)

-- The registry leads to an entry by its module and its name.
abbrev pub Leads : Registry → Entry → Type 0
Leads registry e =
    (named : Dict String ℕ) × (get registry e.module_name ≡ some named)
    × (get named e.name ≡ some e.object)

state_for-saved :
    (saved : Dict ℕ Attributes) (registry : Registry) (defaults : Dict String (Dict String Fields))
    (e : Entry)
    → Leads registry e
    → state_for (state_by_module saved registry) defaults e ≡ ok (kept_state saved e.object)
unfolding state_for not_null chosen_state ◌>>=◌ fields_of
state_for-saved saved registry defaults e (named, at, there) =
    let found = find-state_by_module saved registry e.module_name named at in
    let found' = find-named_state saved named e.name e.object there in
    let default = get_or (get_or defaults e.module_name []) e.name end in
    let other = in_other_module e.module_name e.name (state_by_module saved registry) in
    ap (λ v. fields_of v >>= λ vars. chosen_state (not_null (find vars e.name)) other default)
      (value_of-found (state_by_module saved registry) e.module_name _ found)
    ∙ ap (λ o. chosen_state (not_null o) other default) found'

module _ (b : Backend) where
  pub load_if-nonempty :
      (registry : Registry) (uid : Option String) (r : StateRuntime b)
      → registered registry ≢ []
      → load_if b registry uid r ≡ load_snapshot b uid (get_snapshot b r uid) r
  unfolding load_if registered
  load_if-nonempty [] uid r some_entry = absurd (some_entry refl)
  load_if-nonempty (x ∷ registry) uid r some_entry = refl

  -- What is loaded from the snapshot of `r` has the state of the objects of `r`.
  pub load_snapshot-Holds :
      (uid : Option String) (r s : StateRuntime b)
      → s.registry ≡ r.registry
      → All (Leads r.registry) (registered r.registry)
      → ((o : ℕ) → Distinct (kept_state r.objects o))
      → (out : StateRuntime b) × (load_snapshot b uid (snapshot_of b uid r) s ≡ ok out)
        × All
            (λ e. Holds (attributes_of out.objects e.object) (kept_state r.objects e.object))
            (registered r.registry)
  unfolding load_snapshot lend snapshot_of ◌>>=◌ fields_of value_of find string_eq
  load_snapshot-Holds uid r s same leads d =
      let finds =
        All-map (λ e h. state_for-saved r.objects r.registry s.defaults e h) (registered r.registry)
          leads in
      let (objects, loaded, holds) =
        load_objects-Holds r.objects (state_by_module r.objects r.registry) s.defaults
          (registered r.registry) s.objects finds d in
      let loaded' =
        subst
          (λ g.
            load_objects (state_by_module r.objects r.registry) s.defaults (registered g) s.objects
            ≡ ok objects)
          (sym same) loaded in
      (
        record (lend b uid s) {
          files = b.restore s.files (resolve_uid b s uid) (b.capture r.files (resolve_uid b r uid));
          objects = objects;
        },
        rw loaded' refl,
        holds,
      )
