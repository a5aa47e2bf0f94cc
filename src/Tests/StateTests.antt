-- ===== src/Tests/StateTests.antt =====
-- Tests of the state runtime (atsuite_sdk/state.py), with one registered object and two sessions.
use atsuite.Base.{
  ℕ, String, ◌≡◌, ◌≢◌, ◌⊎◌, inl, inr, refl, sym, subst, ap, arith, ◌==◌, true, some, [], ◌∷◌,
  nat_eq, string_eq, All, false,
}
use atsuite.Base.Dict.{Dict, get}
use atsuite.Base.Int.{pos}
use atsuite.Base.Json.{obj, end, find, Distinct}
use atsuite.Result.{ok}
use atsuite.State.{Backend, registered, attributes_of, StateRuntime, save_after_tool, load_for_tool}
use atsuite.State.Values.{integer, function, Attributes, safe_uid, extract_object_state}
use atsuite.State.Saved.{kept_state, Holds, Leads}
use atsuite.State.Steps.{worked, saved, Others, nothing, further}
use atsuite.State.Sessions.{load_for_tool-Holds}

-- A storage of one text, and no files.
abbrev backend : Backend
backend = record {
  Storage = String;
  Files = Unit;
  read = λ storage key. storage;
  clear = λ storage key. "";
  append = λ storage key content. content;
  dumps = λ fields. "{}";
  loads = λ content. some (obj end);
  capture = λ files uid. end;
  restore = λ files uid fields. files;
}

abbrev counter : Attributes
counter = ("count", integer (pos 3)) ∷ ("_lock", function) ∷ []

abbrev session_state : StateRuntime backend
session_state = record {
  runtime = "mcp";
  has_storage = false;
  service_name = "disk";
  current_uid = "u";
  registry = ("disk", ("counter", 7) ∷ []) ∷ [];
  defaults = ("disk", ("counter", end) ∷ []) ∷ [];
  memory_snapshots = [];
  storage = "";
  files = tt;
  objects = (7, counter) ∷ [];
  lent = [];
}

abbrev changed : Dict ℕ Attributes
changed = (7, ("count", integer (pos 40)) ∷ []) ∷ []

-- The first session is saved, a tool of another counts on, and the other is saved.
abbrev other_state : StateRuntime backend
other_state =
    save_after_tool backend (some "v") (record (save_after_tool backend (some "u") session_state) {
      objects = changed;
      files = tt;
      defaults = [];
      memory_snapshots = (save_after_tool backend (some "u") session_state).memory_snapshots;
    })

safe_uid-differ : safe_uid (some "v") ≢ safe_uid (some "u")
unfolding safe_uid string_eq
safe_uid-differ h = let e : false ≡ true = ap (λ s. s == "u") h in cc

others : Others backend (some "u") (save_after_tool backend (some "u") session_state) other_state
others =
    further
      (further nothing (
        worked (save_after_tool backend (some "u") session_state) changed tt []
          (save_after_tool backend (some "u") session_state).memory_snapshots (λ k h. refl)))
      (saved _ (some "v") safe_uid-differ)

registered_some : registered session_state.registry ≢ []
unfolding registered
registered_some h = cc

counter-Leads : All (Leads session_state.registry) (registered session_state.registry)
unfolding registered get string_eq
counter-Leads = ((("counter", 7) ∷ [], refl, refl), tt)

object_cases :
    (o : ℕ)
    → (attributes_of session_state.objects o ≡ counter)
      ⊎ (attributes_of session_state.objects o ≡ [])
unfolding attributes_of get
object_cases o = elim (nat_eq.dec 7 o) [ yes e ↦ inl (ground arith) | no e ↦ inr (ground arith) ]

kept_counter : Distinct (extract_object_state counter)
unfolding extract_object_state find
kept_counter = (refl, tt)

kept_nothing : Distinct (extract_object_state [])
unfolding extract_object_state
kept_nothing = tt

counter-Distinct : (o : ℕ) → Distinct (kept_state session_state.objects o)
counter-Distinct o = elim (object_cases o) [
  | inl e ↦ subst (λ a. Distinct (extract_object_state a)) (sym e) kept_counter
  | inr e ↦ subst (λ a. Distinct (extract_object_state a)) (sym e) kept_nothing
]

load_for_tool-Holds_example :
    (out : StateRuntime backend) × (load_for_tool backend (some "u") other_state ≡ ok out)
    × All
        (λ e.
          Holds (attributes_of out.objects e.object) (kept_state session_state.objects e.object))
        (registered session_state.registry)
load_for_tool-Holds_example =
    load_for_tool-Holds backend (some "u") session_state other_state refl registered_some
      counter-Leads counter-Distinct others
