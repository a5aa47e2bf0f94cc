-- ===== src/Pipeline/Faas/Coherent.antt =====
-- The targets and routes of a FaaS deployment (`_resolve_faas_targets` of atsuite/pipeline.py).
use atsuite.Base.{
  String, true, false, List, [], ◌∷◌, ◌≡◌, refl, string_eq, arith, All, some, none, subst, All-map,
  Option-cases, inl, inr, Bool-cases, ◌∙◌,
}
use atsuite.Base.Dict.{Dict, get, put, has, get-put, All-put, All-get}
use atsuite.Base.Json.{Value, null, obj, Fields}
use atsuite.Base.Convert.{stripped_field, value_of}
use atsuite.Base.Sets.{elem}
use atsuite.Result.{ok, >>=-eq-ok, >>-eq-ok, exit_if-eq-ok}
use atsuite.Pipeline.Data.{NodeDefinition, ResolvedTarget, TraceRoute, CliOverrides}
use atsuite.Pipeline.Nodes.Valid.{HasValidAccess, AllValid}
use atsuite.Pipeline.Configs.{cli_runtime}
use atsuite.Pipeline.Faas.{
  Routing, no_routing, check_unit, route_unit, place_unit, resolve_unit, resolve_units,
  resolve_faas_targets,
}
use atsuite.Pipeline.Routing.{
  IsRoute, LeadsTo, IsServed, IsCoherent, IsRoute-put, route_of-IsRoute, route_of-target,
}

check_unit-fresh :
    (file target_name node_name : String) (node : NodeDefinition) (routes : Dict String TraceRoute)
    (names : List String) {u : Unit {0}}
    → check_unit file target_name node_name node routes names ≡ ok u
    → (k : String) → elem names k ≡ true
    → has routes k ≡ false
unfolding check_unit elem
check_unit-fresh file target_name node_name node routes [] h k m = cc
check_unit-fresh file target_name node_name node routes (t ∷ names) h k m =
    let (_, _, h₁) = >>-eq-ok _ _ h in
    let (_, free, h₂) = >>-eq-ok _ _ h₁ in
    let fresh = exit_if-eq-ok _ _ free in
    elim (string_eq.dec t k) [
      | yes p ↦ subst (λ j. has routes j ≡ false) p fresh
      | no n ↦ check_unit-fresh file target_name node_name node routes names h₂ k (ground arith)
    ]

route_unit-IsRoute :
    (targets : Dict String ResolvedTarget) (t : ResolvedTarget) (target_name node_name : String)
    (node : NodeDefinition) (names : List String) (routes routes' : Dict String TraceRoute)
    → route_unit target_name node_name node names routes ≡ ok routes'
    → get targets target_name ≡ some t
    → ((k : String) → elem names k ≡ true → elem t.trace_names k ≡ true)
    → t.family ≡ "faas"
    → HasValidAccess node
    → All (IsRoute targets) routes
    → All (IsRoute targets) routes'
unfolding route_unit elem
route_unit-IsRoute targets t target_name node_name node [] routes routes' h found sub same valid
      all =
    let equal : routes ≡ routes' = ground arith in subst (All (IsRoute targets)) equal all
route_unit-IsRoute targets t target_name node_name node (k ∷ names) routes routes' h found sub same
      valid all =
    let (route, made, rest) = >>=-eq-ok _ _ h in
    let new =
      route_of-IsRoute targets t "faas" target_name node_name node k route made found
        (sub k (ground arith)) same valid in
    route_unit-IsRoute targets t target_name node_name node names (put routes k route) routes' rest
      found (λ j m. sub j (ground arith)) same valid
      (All-put (IsRoute targets) routes k route all new)

route_unit-get :
    (target_name node_name : String) (node : NodeDefinition) (names : List String)
    (routes routes' : Dict String TraceRoute) (k : String)
    → route_unit target_name node_name node names routes ≡ ok routes'
    → (elem names k ≡ false → get routes' k ≡ get routes k)
      × (elem names k ≡ true → LeadsTo routes' target_name k)
unfolding route_unit elem
route_unit-get target_name node_name node [] routes routes' k h = ((λ m. ground arith), λ m. cc)
route_unit-get target_name node_name node (j ∷ names) routes routes' k h =
    let (route, made, rest) = >>=-eq-ok _ _ h in
    let (keeps, leads) =
      route_unit-get target_name node_name node names (put routes j route) routes' k rest in
    let put_here = get-put routes j k route in
    (
      (λ m. ground (arith, keeps, put_here)),
      λ m. elim (Bool-cases (elem names k)) [
        | inl later ↦ leads later
        | inr last ↦ record {
          route = route;
          found = ground (arith, keeps, put_here);
          same_target = route_of-target "faas" target_name node_name node j route made;
        }
      ],
    )

-- An old target keeps its routes, since a unit takes only trace names that are not routed.
IsServed-route_unit :
    (target_name node_name : String) (node : NodeDefinition) (names : List String)
    (routes routes' : Dict String TraceRoute) (x : String × ResolvedTarget)
    → route_unit target_name node_name node names routes ≡ ok routes'
    → ((k : String) → elem names k ≡ true → has routes k ≡ false)
    → IsServed routes x
    → IsServed routes' x
IsServed-route_unit target_name node_name node names routes routes' (name, t) h fresh served k m =
    let old = served k m in
    let free : elem names k ≡ false = elim (Bool-cases (elem names k)) [
      | inl taken ↦ let gone = fresh k taken in let here = old.found in ground arith
      | inr free ↦ free
    ] in
    record {
      route = old.route;
      found =
          (route_unit-get target_name node_name node names routes routes' k h).0 free ∙ old.found;
      same_target = old.same_target;
    }

place_unit-IsCoherent :
    (file : String) (cli : CliOverrides) (family_build : Value) (raw : Fields)
    (target_name node_name : String) (node : NodeDefinition) (names : List String) (r r' : Routing)
    → place_unit file cli family_build raw target_name node_name node names r ≡ ok r'
    → has r.targets target_name ≡ false
    → HasValidAccess node
    → IsCoherent r
    → IsCoherent r'
unfolding place_unit
place_unit-IsCoherent file cli family_build raw target_name node_name node names r r' h new valid
      c =
    let (_, checked, h₁) = >>-eq-ok _ _ h in
    let (build, _, h₂) = >>=-eq-ok _ _ h₁ in
    let (_, _, h₃) = >>-eq-ok _ _ h₂ in
    let (runtime, _, h₄) = >>=-eq-ok _ _ h₃ in
    let (tools, _, h₅) = >>=-eq-ok _ _ h₄ in
    let (routes, routed, h₆) = >>=-eq-ok _ _ h₅ in
    let target : ResolvedTarget = record {
      name = target_name;
      family = "faas";
      node_names = node_name ∷ [];
      trace_names = names;
      build = build;
      runtime = cli_runtime cli runtime;
      allowed_tools = tools;
    } in
    let targets = put r.targets target_name target in
    let same : (record { targets = targets; routes = routes }) ≡ r' = ground arith in
    let fresh : get r.targets target_name ≡ none = ground arith in
    let free = check_unit-fresh file target_name node_name node r.routes names checked in
    subst IsCoherent same (record {
      routed =
          route_unit-IsRoute targets target target_name node_name node names r.routes routes routed
            (ground (arith, get-put r.targets target_name target_name target)) (λ k m. m) refl valid
            (All-map (λ x. IsRoute-put r.targets target_name target x fresh) r.routes c.routed);
      served =
          All-put (IsServed routes) r.targets target_name target
            (All-map
              (λ x.
                IsServed-route_unit target_name node_name node names r.routes routes x routed free)
              r.targets c.served)
            (λ k m. (route_unit-get target_name node_name node names r.routes routes k routed).1 m);
    })

resolve_unit-IsCoherent :
    (file : String) (nodes : Dict String NodeDefinition) (cli : CliOverrides)
    (family_build v : Value) (r r' : Routing)
    → resolve_unit file nodes cli family_build v r ≡ ok r'
    → AllValid nodes
    → IsCoherent r
    → IsCoherent r'
unfolding resolve_unit
resolve_unit-IsCoherent file nodes cli family_build (obj raw) r r' h valid c =
    let target_name = stripped_field raw "name" in
    let node_name = stripped_field raw "node" in
    let (names, _, h₁) = >>=-eq-ok _ _ h in
    let (_, _, h₂) = >>-eq-ok _ _ h₁ in
    let (_, new, h₃) = >>-eq-ok _ _ h₂ in
    elim (Option-cases (get nodes node_name)) [
      | inl missing ↦ absurd (ground arith)
      | inr (node, found) ↦
          place_unit-IsCoherent file cli family_build raw target_name node_name node names r r'
            (ground arith) (exit_if-eq-ok _ _ new)
            (All-get (λ (x : String × NodeDefinition). HasValidAccess x.1) nodes node_name node
              valid found)
            c
    ]
resolve_unit-IsCoherent file nodes cli family_build v r r' h valid c = cc

resolve_units-IsCoherent :
    (file : String) (nodes : Dict String NodeDefinition) (cli : CliOverrides) (family_build : Value)
    (vs : List Value) (r r' : Routing)
    → resolve_units file nodes cli family_build vs r ≡ ok r'
    → AllValid nodes
    → IsCoherent r
    → IsCoherent r'
unfolding resolve_units
resolve_units-IsCoherent file nodes cli family_build [] r r' h valid c =
    let same : r ≡ r' = ground arith in subst IsCoherent same c
resolve_units-IsCoherent file nodes cli family_build (v ∷ vs) r r' h valid c =
    let (m, one, rest) = >>=-eq-ok _ _ h in
    resolve_units-IsCoherent file nodes cli family_build vs m r' rest valid
      (resolve_unit-IsCoherent file nodes cli family_build v r m one valid c)

-- If `_resolve_faas_targets` returns, over nodes whose accesses are valid, then every route is
-- stored under its trace name, has a valid access and leads to a target of its family that lists
-- the name, and every trace name of a target is routed to that target.
pub resolve_faas_targets-IsCoherent :
    (file : String) (nodes : Dict String NodeDefinition) (payload : Value) (cli : CliOverrides)
    (r : Routing)
    → resolve_faas_targets file nodes payload cli ≡ ok r
    → AllValid nodes
    → IsCoherent r
unfolding resolve_faas_targets
resolve_faas_targets-IsCoherent file nodes (obj payload) cli r h valid =
    let (_, _, h₁) = >>-eq-ok _ _ h in
    let (units, _, h₂) = >>=-eq-ok _ _ h₁ in
    resolve_units-IsCoherent file nodes cli (value_of payload "build" null) units no_routing r h₂
      valid (record { routed = tt; served = tt })
resolve_faas_targets-IsCoherent file nodes v cli r h valid = cc
