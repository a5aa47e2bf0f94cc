-- ===== src/Pipeline/Session/Coherent.antt =====
-- The targets and routes of a session deployment (`_resolve_mcp_targets` of atsuite/pipeline.py).
use atsuite.Base.{
  String, false, List, [], ◌∷◌, ◌≡◌, refl, string_eq, arith, none, subst, All-map, inl, inr,
  Bool-cases, ◌∙◌,
}
use atsuite.Base.Dict.{Dict, get, put, has, get-put, All-put}
use atsuite.Base.Json.{Value, null, obj, Fields}
use atsuite.Base.Convert.{stripped_field, value_of}
use atsuite.Base.Sets.{elem}
use atsuite.Result.{ok, >>=-eq-ok, >>-eq-ok, exit_if-eq-ok}
use atsuite.Pipeline.Data.{NodeDefinition, ResolvedTarget, TraceRoute, CliOverrides, BuildConfig}
use atsuite.Pipeline.Configs.{cli_runtime}
use atsuite.Pipeline.Nodes.Valid.{AllValid}
use atsuite.Pipeline.Faas.{Routing}
use atsuite.Pipeline.Session.{
  Servers, no_servers, place_server, resolve_server, resolve_servers, resolve_mcp_targets,
}
use atsuite.Pipeline.Routing.{IsServed, IsCoherent, IsRoute-put}
use atsuite.Pipeline.Session.Routes.{
  names_of, Routes, route_server-Routes, route_server-IsRoute, claim_nodes-names,
}

abbrev routing : Servers → Routing
routing s = record { targets = s.targets; routes = s.routes }

IsServed-Routes :
    (routes routes' : Dict String TraceRoute) (target_name : String) (names : List String)
    (x : String × ResolvedTarget)
    → Routes routes routes' target_name names
    → IsServed routes x
    → IsServed routes' x
IsServed-Routes routes routes' target_name names (name, t) h served k m =
    let old = served k m in
    let free : elem names k ≡ false = elim (Bool-cases (elem names k)) [
      | inl taken ↦ let gone = ((h k).1 taken).0 in let here = old.found in absurd (ground arith)
      | inr free ↦ free
    ] in
    record { route = old.route; found = (h k).0 free ∙ old.found; same_target = old.same_target }

place_server-IsCoherent :
    (file : String) (nodes : Dict String NodeDefinition) (cli : CliOverrides)
    (family_payload : Value) (family_build : BuildConfig) (raw : Fields) (target_name : String)
    (node_names : List String) (s s' : Servers)
    → place_server file nodes cli family_payload family_build raw target_name node_names s ≡ ok s'
    → has s.targets target_name ≡ false
    → AllValid nodes
    → IsCoherent (routing s)
    → IsCoherent (routing s')
unfolding place_server elem
place_server-IsCoherent file nodes cli family_payload family_build raw target_name node_names s s' h
      new valid co =
    let (c, claimed, h₁) = >>=-eq-ok _ _ h in
    let (build, _, h₂) = >>=-eq-ok _ _ h₁ in
    let (_, _, h₃) = >>-eq-ok _ _ h₂ in
    let (runtime, _, h₄) = >>=-eq-ok _ _ h₃ in
    let (routes, routed, h₅) = >>=-eq-ok _ _ h₄ in
    let target : ResolvedTarget = record {
      name = target_name;
      family = "session";
      node_names = node_names;
      trace_names = c.trace_names;
      build = build;
      runtime = cli_runtime cli runtime;
      allowed_tools = [];
    } in
    let result : Routing = record { targets = put s.targets target_name target; routes = routes } in
    let same : result ≡ routing s' = ground arith in
    let fresh : get s.targets target_name ≡ none = ground arith in
    let listed = claim_nodes-names nodes target_name node_names _ c claimed in
    let anew = route_server-Routes file nodes target_name node_names s.routes routes routed in
    subst IsCoherent same (record {
      routed =
          route_server-IsRoute file nodes result.targets target target_name node_names s.routes
            routes routed (ground (arith, get-put s.targets target_name target_name target))
            (λ k m. ground (arith, listed k)) refl valid
            (All-map (λ x. IsRoute-put s.targets target_name target x fresh) s.routes co.routed);
      served =
          All-put (IsServed routes) s.targets target_name target
            (All-map
              (λ x. IsServed-Routes s.routes routes target_name (names_of nodes node_names) x anew)
              s.targets co.served)
            (λ k m. ((anew k).1 (ground (arith, listed k))).1);
    })

resolve_server-IsCoherent :
    (file : String) (nodes : Dict String NodeDefinition) (cli : CliOverrides)
    (family_payload : Value) (family_build : BuildConfig) (v : Value) (s s' : Servers)
    → resolve_server file nodes cli family_payload family_build v s ≡ ok s'
    → AllValid nodes
    → IsCoherent (routing s)
    → IsCoherent (routing s')
unfolding resolve_server
resolve_server-IsCoherent file nodes cli family_payload family_build (obj raw) s s' h valid c =
    let (names, _, h₁) = >>=-eq-ok _ _ h in
    let (_, _, h₂) = >>-eq-ok _ _ h₁ in
    let (_, new, h₃) = >>-eq-ok _ _ h₂ in
    place_server-IsCoherent file nodes cli family_payload family_build raw
      (stripped_field raw "name") names s s' h₃ (exit_if-eq-ok _ _ new) valid c
resolve_server-IsCoherent file nodes cli family_payload family_build v s s' h valid c = cc

resolve_servers-IsCoherent :
    (file : String) (nodes : Dict String NodeDefinition) (cli : CliOverrides)
    (family_payload : Value) (family_build : BuildConfig) (vs : List Value) (s s' : Servers)
    → resolve_servers file nodes cli family_payload family_build vs s ≡ ok s'
    → AllValid nodes
    → IsCoherent (routing s)
    → IsCoherent (routing s')
unfolding resolve_servers
resolve_servers-IsCoherent file nodes cli family_payload family_build [] s s' h valid c =
    let same : s ≡ s' = ground arith in subst (λ (x : Servers). IsCoherent (routing x)) same c
resolve_servers-IsCoherent file nodes cli family_payload family_build (v ∷ vs) s s' h valid c =
    let (m, one, rest) = >>=-eq-ok _ _ h in
    resolve_servers-IsCoherent file nodes cli family_payload family_build vs m s' rest valid
      (resolve_server-IsCoherent file nodes cli family_payload family_build v s m one valid c)

-- If `_resolve_mcp_targets` returns, over nodes whose accesses are valid, then every route is
-- stored under its trace name, has a valid access and leads to a target of its family that lists
-- the name, and every trace name of a target is routed to that target.
pub resolve_mcp_targets-IsCoherent :
    (file : String) (nodes : Dict String NodeDefinition) (payload : Value) (cli : CliOverrides)
    (r : Routing)
    → resolve_mcp_targets file nodes payload cli ≡ ok r
    → AllValid nodes
    → IsCoherent r
unfolding resolve_mcp_targets
resolve_mcp_targets-IsCoherent file nodes (obj payload) cli r h valid =
    let (family_build, _, h₁) = >>=-eq-ok _ _ h in
    let (servers, _, h₂) = >>=-eq-ok _ _ h₁ in
    let (s, resolved, h₃) = >>=-eq-ok _ _ h₂ in
    let same : routing s ≡ r = ground arith in
    subst IsCoherent same (
      resolve_servers-IsCoherent file nodes cli (value_of payload "build" null) family_build servers
        no_servers s resolved valid (record { routed = tt; served = tt }))
resolve_mcp_targets-IsCoherent file nodes v cli r h valid = cc
