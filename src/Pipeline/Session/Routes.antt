-- ===== src/Pipeline/Session/Routes.antt =====
-- What one server of a session deployment routes (`_resolve_mcp_targets` of atsuite/pipeline.py).
use atsuite.Base.{
  String, true, false, List, [], ◌∷◌, ◌++◌, ◌≡◌, ◌||◌, string_eq, arith, All, Option, some, none,
  subst, sym, Option-cases, inl, inr, Bool-cases, ◌∙◌,
}
use atsuite.Base.Dict.{Dict, get, put, get-put, All-put, All-get}
use atsuite.Base.Sets.{elem, elem-append}
use atsuite.Result.{ok, ◌>>=◌, >>=-eq-ok, >>-eq-ok, exit_if-eq-ok}
use atsuite.Pipeline.Data.{NodeDefinition, ResolvedTarget, TraceRoute}
use atsuite.Pipeline.Nodes.Valid.{HasValidAccess, AllValid}
use atsuite.Pipeline.Session.{Claims, claim_node, claim_nodes, route_names, route_server}
use atsuite.Pipeline.Routing.{IsRoute, LeadsTo, route_of-IsRoute, route_of-target}

-- A name that is routed anew: it had no route, and now leads to the target.
abbrev pub Routes : Dict String TraceRoute → Dict String TraceRoute → String → List String → Type 0
Routes routes routes' target_name names =
    (k : String)
    → (elem names k ≡ false → get routes' k ≡ get routes k)
      × (elem names k ≡ true → (get routes k ≡ none) × LeadsTo routes' target_name k)

route_names-Routes :
    (file target_name node_name : String) (node : NodeDefinition) (names : List String)
    (routes routes' : Dict String TraceRoute)
    → route_names file target_name node_name node names routes ≡ ok routes'
    → Routes routes routes' target_name names
unfolding route_names elem
route_names-Routes file target_name node_name node [] routes routes' h k =
    ((λ m. ground arith), λ m. absurd (ground arith))
route_names-Routes file target_name node_name node (j ∷ names) routes routes' h k =
    let (_, unrouted, h₁) = >>-eq-ok _ _ h in
    let (route, made, rest) = >>=-eq-ok _ _ h₁ in
    let (keeps, leads) =
      route_names-Routes file target_name node_name node names (put routes j route) routes' rest
        k in
    let free = exit_if-eq-ok _ _ unrouted in
    let put_here = get-put routes j k route in
    (
      (λ m. ground (arith, keeps, put_here)),
      λ m. elim (Bool-cases (elem names k)) [
        | inl later ↦ let (none_yet, led) = leads later in (ground (arith, put_here), led)
        | inr last ↦ (
          ground arith,
          record {
            route = route;
            found = ground (arith, keeps, put_here);
            same_target = route_of-target "session" target_name node_name node j route made;
          },
        )
      ],
    )

route_names-IsRoute :
    (file : String) (targets : Dict String ResolvedTarget) (t : ResolvedTarget)
    (target_name node_name : String) (node : NodeDefinition) (names : List String)
    (routes routes' : Dict String TraceRoute)
    → route_names file target_name node_name node names routes ≡ ok routes'
    → get targets target_name ≡ some t
    → ((k : String) → elem names k ≡ true → elem t.trace_names k ≡ true)
    → t.family ≡ "session"
    → HasValidAccess node
    → All (IsRoute targets) routes
    → All (IsRoute targets) routes'
unfolding route_names elem
route_names-IsRoute file targets t target_name node_name node [] routes routes' h found sub same
      valid all =
    let equal : routes ≡ routes' = ground arith in subst (All (IsRoute targets)) equal all
route_names-IsRoute file targets t target_name node_name node (k ∷ names) routes routes' h found sub
      same valid all =
    let (_, _, h₁) = >>-eq-ok _ _ h in
    let (route, made, rest) = >>=-eq-ok _ _ h₁ in
    let new =
      route_of-IsRoute targets t "session" target_name node_name node k route made found
        (sub k (ground arith)) same valid in
    route_names-IsRoute file targets t target_name node_name node names (put routes k route) routes'
      rest found (λ j m. sub j (ground arith)) same valid
      (All-put (IsRoute targets) routes k route all new)

-- The trace names of a server's nodes.
abbrev pub names_of_node : Option NodeDefinition → List String
names_of_node none = []
names_of_node (some node) = node.trace_names

unfoldable pub names_of : Dict String NodeDefinition → List String → List String
names_of nodes [] = []
names_of nodes (n ∷ names) = names_of_node (get nodes n) ++ names_of nodes names

pub route_server-Routes :
    (file : String) (nodes : Dict String NodeDefinition) (target_name : String)
    (names : List String) (routes routes' : Dict String TraceRoute)
    → route_server file nodes target_name names routes ≡ ok routes'
    → Routes routes routes' target_name (names_of nodes names)
unfolding route_server names_of elem
route_server-Routes file nodes target_name [] routes routes' h k =
    ((λ m. ground arith), λ m. absurd (ground arith))
route_server-Routes file nodes target_name (n ∷ names) routes routes' h k =
    elim (Option-cases (get nodes n)) [
      | inl missing ↦ absurd (ground arith)
      | inr (node, found) ↦
          let step : (route_names file target_name n node node.trace_names routes
                >>= route_server file nodes target_name names)
              ≡ ok routes' =
            ground arith in
          let (mid, one, rest) = >>=-eq-ok _ _ step in
          let (keeps, leads) =
            route_names-Routes file target_name n node node.trace_names routes mid one k in
          let (keeps', leads') =
            route_server-Routes file nodes target_name names mid routes' rest k in
          let split = elem-append node.trace_names (names_of nodes names) k in
          (
            (λ m. ground (arith, keeps, keeps', split)),
            λ m. elim (Bool-cases (elem (names_of nodes names) k)) [
              | inl later ↦
                  let (none_mid, led) = leads' later in
                  let none_yet : get routes k ≡ none = elim (Bool-cases (elem node.trace_names k)) [
                    | inl here ↦ (leads here).0
                    | inr gone ↦ sym (keeps gone) ∙ none_mid
                  ] in
                  (none_yet, led)
              | inr last ↦
                  let here : elem node.trace_names k ≡ true = ground (arith, split) in
                  let (none_yet, led) = leads here in
                  (
                    none_yet,
                    record {
                      route = led.route;
                      found = keeps' last ∙ led.found;
                      same_target = led.same_target;
                    },
                  )
            ],
          )
    ]

pub route_server-IsRoute :
    (file : String) (nodes : Dict String NodeDefinition) (targets : Dict String ResolvedTarget)
    (t : ResolvedTarget) (target_name : String) (names : List String)
    (routes routes' : Dict String TraceRoute)
    → route_server file nodes target_name names routes ≡ ok routes'
    → get targets target_name ≡ some t
    → ((k : String) → elem (names_of nodes names) k ≡ true → elem t.trace_names k ≡ true)
    → t.family ≡ "session"
    → AllValid nodes
    → All (IsRoute targets) routes
    → All (IsRoute targets) routes'
unfolding route_server names_of elem
route_server-IsRoute file nodes targets t target_name [] routes routes' h at sub same valid all =
    let equal : routes ≡ routes' = ground arith in subst (All (IsRoute targets)) equal all
route_server-IsRoute file nodes targets t target_name (n ∷ names) routes routes' h at sub same valid
      all =
    elim (Option-cases (get nodes n)) [
      | inl missing ↦ absurd (ground arith)
      | inr (node, found) ↦
          let step : (route_names file target_name n node node.trace_names routes
                >>= route_server file nodes target_name names)
              ≡ ok routes' =
            ground arith in
          let (mid, one, rest) = >>=-eq-ok _ _ step in
          let split = elem-append node.trace_names (names_of nodes names) in
          route_server-IsRoute file nodes targets t target_name names mid routes' rest at
            (λ k m. sub k (ground (arith, split k))) same valid
            (route_names-IsRoute file targets t target_name n node node.trace_names routes mid one
              at (λ k m. sub k (ground (arith, split k))) same
              (All-get (λ (x : String × NodeDefinition). HasValidAccess x.1) nodes n node valid
                found)
              all)
    ]

pub claim_nodes-names :
    (nodes : Dict String NodeDefinition) (target_name : String) (names : List String)
    (c c' : Claims)
    → claim_nodes nodes target_name names c ≡ ok c'
    → (k : String) → elem c'.trace_names k ≡ (elem c.trace_names k || elem (names_of nodes names) k)
unfolding claim_nodes claim_node names_of elem
claim_nodes-names nodes target_name [] c c' h k = ground arith
claim_nodes-names nodes target_name (n ∷ names) c c' h k = elim (Option-cases (get nodes n)) [
  | inl missing ↦ absurd (ground arith)
  | inr (node, found) ↦
      let step : (claim_node target_name n node c >>= claim_nodes nodes target_name names) ≡ ok c' =
        ground arith in
      let (mid, one, rest) = >>=-eq-ok _ _ step in
      let (_, _, claimed) = >>-eq-ok _ _ one in
      let more : mid.trace_names ≡ c.trace_names ++ node.trace_names = ground arith in
      let later = claim_nodes-names nodes target_name names mid c' rest k in
      let split = elem-append c.trace_names node.trace_names k in
      let split' = elem-append node.trace_names (names_of nodes names) k in
      ground (arith, more, later, split, split')
]
