-- ===== src/Pipeline/Routing.antt =====
-- The relation between the routes and the targets of a benchmark (atsuite/pipeline.py).
use atsuite.Base.{String, true, ◌≡◌, string_eq, arith, All, some, none, subst}
use atsuite.Base.Dict.{Dict, get, put, get-put}
use atsuite.Base.Sets.{elem}
use atsuite.Scheduler.{valid_access_modes}
use atsuite.Result.{ok, >>=-eq-ok}
use atsuite.Pipeline.Data.{NodeDefinition, ResolvedTarget, TraceRoute, access_for_trace}
use atsuite.Pipeline.Nodes.Valid.{HasValidAccess, access_for_trace-IsValidAccess}
use atsuite.Pipeline.Faas.{Routing, route_of}

pub record IsRoute (targets : Dict String ResolvedTarget) (x : String × TraceRoute) : Type 0 where
  pub named : x.1.trace_name ≡ x.0
  pub valid : elem valid_access_modes x.1.access ≡ true
  pub target : ResolvedTarget
  pub found : get targets x.1.target_name ≡ some target
  pub listed : elem target.trace_names x.0 ≡ true
  pub same_family : target.family ≡ x.1.family

-- The name is routed to the target.
pub record LeadsTo (routes : Dict String TraceRoute) (target_name k : String) : Type 0 where
  pub route : TraceRoute
  pub found : get routes k ≡ some route
  pub same_target : route.target_name ≡ target_name

abbrev pub IsServed : Dict String TraceRoute → String × ResolvedTarget → Type 0
IsServed routes (target_name, t) =
    (k : String) → elem t.trace_names k ≡ true → LeadsTo routes target_name k

pub record IsCoherent (r : Routing) : Type 0 where
  pub routed : All (IsRoute r.targets) r.routes
  pub served : All (IsServed r.routes) r.targets

-- A new target keeps the routes to the old ones.
pub IsRoute-put :
    (targets : Dict String ResolvedTarget) (name : String) (t : ResolvedTarget)
    (x : String × TraceRoute)
    → get targets name ≡ none
    → IsRoute targets x
    → IsRoute (put targets name t) x
IsRoute-put targets name t (k, route) fresh h = record {
  named = h.named;
  valid = h.valid;
  target = h.target;
  found = ground (arith, fresh, h.found, get-put targets name route.target_name t);
  listed = h.listed;
  same_family = h.same_family;
}

-- The route that the code makes for a trace name of the target.
pub route_of-IsRoute :
    (targets : Dict String ResolvedTarget) (t : ResolvedTarget)
    (family target_name node_name : String) (node : NodeDefinition) (k : String)
    (route : TraceRoute)
    → route_of family target_name node_name node k ≡ ok route
    → get targets target_name ≡ some t
    → elem t.trace_names k ≡ true
    → t.family ≡ family
    → HasValidAccess node
    → IsRoute targets (k, route)
unfolding route_of
route_of-IsRoute targets t family target_name node_name node k route h found listed same valid =
    let (tool, _, rest) = >>=-eq-ok _ _ h in
    let here : (access_for_trace node k).access ≡ route.access = ground arith in
    record {
      named = ground arith;
      valid =
          subst (λ a. elem valid_access_modes a ≡ true) here
            (access_for_trace-IsValidAccess node k valid);
      target = t;
      found = ground arith;
      listed = listed;
      same_family = ground arith;
    }

pub route_of-target :
    (family target_name node_name : String) (node : NodeDefinition) (k : String)
    (route : TraceRoute)
    → route_of family target_name node_name node k ≡ ok route
    → route.target_name ≡ target_name
unfolding route_of
route_of-target family target_name node_name node k route h =
    let (tool, _, rest) = >>=-eq-ok _ _ h in ground arith
