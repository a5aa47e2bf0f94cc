-- ===== src/Viewer/Display.antt =====
-- _build_display_edges of atsuite/cli/trace_viewer_metadata.py: the edges that the viewer draws. Tools
-- that no tool precedes are grouped by the node that leads to them; in a group the stateful ones
-- follow one another, and the stateless ones fan out. Modes and start times are found by numeric id.
use atsuite.Base.{
  ℕ, String, Bool, Option, none, some, List, [], ◌∷◌, ◌++◌, true, false, not, ◌&&◌, ◌||◌, nat_eq,
  string_eq, ◌==◌, if◌then◌else◌, ltb,
}
use atsuite.Base.Dict.{Dict, get, get_or, has, put, values}
use atsuite.Base.Sets.{elem, add}
use atsuite.Base.Sets.Sorted.{sorted}
use atsuite.Base.Text.{◌&◌, show}
use atsuite.Viewer.{ViewNode, ViewGraph, is_tool_node, build_node_by_id}

-- `incoming_by_id.setdefault(n, [])`
unfoldable pub set_default : ℕ → Dict ℕ (List ℕ) → Dict ℕ (List ℕ)
unfolding get put
set_default n d = if has d n then d else put d n []

unfoldable pub set_defaults : List ViewNode → Dict ℕ (List ℕ) → Dict ℕ (List ℕ)
unfolding set_default
set_defaults [] d = d
set_defaults (node ∷ nodes) d = set_defaults nodes (set_default node.node_id d)

-- The inner loop over the edges of a node.
unfoldable pub add_sources : ℕ → List ℕ → Dict ℕ (List ℕ) → Dict ℕ (List ℕ)
unfolding get put
add_sources source [] d = d
add_sources source (target ∷ targets) d =
    add_sources source targets (put d target (get_or d target [] ++ source ∷ []))

unfoldable pub add_all_sources : List ViewNode → Dict ℕ (List ℕ) → Dict ℕ (List ℕ)
unfolding add_sources
add_all_sources [] d = d
add_all_sources (node ∷ nodes) d = add_all_sources nodes (add_sources node.node_id node.targets d)

-- _build_incoming_by_id; of an incoming edge only its source is read
unfoldable pub build_incoming_by_id : List ViewNode → Dict ℕ (List ℕ)
unfolding set_defaults add_all_sources
build_incoming_by_id nodes = add_all_sources nodes (set_defaults nodes [])

-- `float(start_time_by_id.get(str(node_id), 0.0))`
unfoldable pub start_of : Dict ℕ ℕ → ℕ → ℕ
unfolding get
start_of starts n = get_or starts n 0

-- The key `(start, id)` of one node comes before that of another.
unfoldable pub starts_before : Dict ℕ ℕ → ℕ → ℕ → Bool
unfolding start_of
starts_before starts n m =
    if ltb (start_of starts n) (start_of starts m)
    then true
    else if ltb (start_of starts m) (start_of starts n)
    then false
    else ltb n m

unfoldable pub insert_by_start : Dict ℕ ℕ → ℕ → List ℕ → List ℕ
unfolding starts_before
insert_by_start starts n [] = n ∷ []
insert_by_start starts n (m ∷ ids) =
    if starts_before starts m n then m ∷ insert_by_start starts n ids else n ∷ m ∷ ids

-- _sort_node_ids_by_schedule
unfoldable pub sort_node_ids_by_schedule : Dict ℕ ℕ → List ℕ → List ℕ
unfolding insert_by_start
sort_node_ids_by_schedule starts [] = []
sort_node_ids_by_schedule starts (n ∷ ids) =
    insert_by_start starts n (sort_node_ids_by_schedule starts ids)

-- `_is_tool_node(node_by_id.get(n, {}))`
unfoldable pub is_tool_at : ViewGraph → ℕ → Bool
unfolding get is_tool_node
is_tool_at g n = elim (get g n) [ none ↦ false | some node ↦ is_tool_node node ]

-- The last to start of the sources that are no tools: the first in the order by falling keys.
unfoldable pub last_source : ViewGraph → Dict ℕ ℕ → List ℕ → Option ℕ
unfolding is_tool_at starts_before
last_source g starts [] = none
last_source g starts (n ∷ sources) =
    let rest = last_source g starts sources in
    if is_tool_at g n
    then rest
    else elim rest [ none ↦ some n | some m ↦ if starts_before starts n m then some m else some n ]

-- _choose_display_anchor_id
unfoldable pub choose_display_anchor_id : List ℕ → ViewGraph → Dict ℕ ℕ → Option ℕ
unfolding last_source
choose_display_anchor_id sources g starts = last_source g starts sources

unfoldable pub any_tool : ViewGraph → List ℕ → Bool
unfolding is_tool_at
any_tool g [] = false
any_tool g (n ∷ ids) = is_tool_at g n || any_tool g ids

-- The tools that no tool precedes, of the entries of `node_by_id`.
unfoldable pub root_tool_ids : ViewGraph → Dict ℕ (List ℕ) → Dict ℕ ViewNode → List ℕ
unfolding is_tool_node any_tool get
root_tool_ids g incoming [] = []
root_tool_ids g incoming ((n, node) ∷ entries) =
    let rest = root_tool_ids g incoming entries in
    if is_tool_node node && not (any_tool g (get_or incoming n [])) then n ∷ rest else rest

pub record Group : Type 0 where
  pub anchor_id : Option ℕ
  pub stateful : List ℕ
  pub stateless : List ℕ
  pub root_tools : List ℕ
  pub downstream : List ℕ

-- `target_node is not None and not _is_tool_node(target_node)`
unfoldable pub is_other_node : ViewGraph → ℕ → Bool
unfolding get is_tool_node
is_other_node g n = elim (get g n) [ none ↦ false | some node ↦ not (is_tool_node node) ]

unfoldable pub add_downstream : ViewGraph → List ℕ → List ℕ → List ℕ
unfolding is_other_node add
add_downstream g [] ids = ids
add_downstream g (target ∷ targets) ids =
    add_downstream g targets (if is_other_node g target then add ids target else ids)

-- `f"none:{node_id}" if anchor_id is None else str(anchor_id)`
unfoldable pub group_key : Option ℕ → ℕ → String
unfolding show
group_key none n = "none:" & show n
group_key (some anchor) n = show anchor

unfoldable pub targets_at : ViewGraph → ℕ → List ℕ
unfolding get
targets_at g n = elim (get g n) [ none ↦ [] | some node ↦ node.targets ]

-- A root tool joins its group.
unfoldable pub join_group : ViewGraph → Dict ℕ String → ℕ → Group → Group
unfolding add add_downstream targets_at get
join_group g modes n group =
    let is_stateful = get_or modes n "stateless" == "stateful" in
    record {
      anchor_id = group.anchor_id;
      stateful = if is_stateful then group.stateful ++ n ∷ [] else group.stateful;
      stateless = if is_stateful then group.stateless else group.stateless ++ n ∷ [];
      root_tools = add group.root_tools n;
      downstream = add_downstream g (targets_at g n) group.downstream;
    }

unfoldable pub group_roots :
    ViewGraph
    → Dict ℕ (List ℕ)
    → Dict ℕ String
    → Dict ℕ ℕ
    → List ℕ
    → Dict String Group
    → Dict String Group
unfolding choose_display_anchor_id get group_key join_group put
group_roots g incoming modes starts [] groups = groups
group_roots g incoming modes starts (n ∷ ids) groups =
    let anchor = choose_display_anchor_id (get_or incoming n []) g starts in
    let empty : Group = record {
      anchor_id = anchor;
      stateful = [];
      stateless = [];
      root_tools = [];
      downstream = [];
    } in
    let key = group_key anchor n in
    group_roots g incoming modes starts ids
      (put groups key (join_group g modes n (get_or groups key empty)))

-- `(source_id, target_id) in suppressed_raw_edges`
unfoldable pub is_suppressed : List Group → ℕ → ℕ → Bool
unfolding elem
is_suppressed [] source target = false
is_suppressed (group ∷ groups) source target =
    (elem group.root_tools source && elem group.downstream target)
    || is_suppressed groups source target

-- The edges of the trace that stay, for one node.
unfoldable pub kept_edges : ViewGraph → List ℕ → List Group → ℕ → List ℕ → List (ℕ × ℕ)
unfolding is_suppressed is_tool_at elem
kept_edges g roots groups source [] = []
kept_edges g roots groups source (target ∷ targets) =
    let rest = kept_edges g roots groups source targets in
    if is_suppressed groups source target || (is_tool_at g target && elem roots target)
    then rest
    else (source, target) ∷ rest

unfoldable pub all_kept_edges : ViewGraph → List ℕ → List Group → List ViewNode → List (ℕ × ℕ)
unfolding kept_edges
all_kept_edges g roots groups [] = []
all_kept_edges g roots groups (node ∷ nodes) =
    kept_edges g roots groups node.node_id node.targets ++ all_kept_edges g roots groups nodes

-- `zip(ids, ids[1:])`
unfoldable pub chain : List ℕ → List (ℕ × ℕ)
chain [] = []
chain (n ∷ []) = []
chain (n ∷ m ∷ ids) = (n, m) ∷ chain (m ∷ ids)

unfoldable pub fan_out : ℕ → List ℕ → List (ℕ × ℕ)
fan_out source [] = []
fan_out source (n ∷ ids) = (source, n) ∷ fan_out source ids

unfoldable pub from_anchor : Option ℕ → List ℕ → List (ℕ × ℕ)
unfolding fan_out
from_anchor none ids = []
from_anchor (some anchor) ids = fan_out anchor ids

-- `ids[-1]` of `n ∷ ids`
unfoldable pub last_of : ℕ → List ℕ → ℕ
last_of n [] = n
last_of n (m ∷ ids) = last_of m ids

-- The edges among the tools of a group.
unfoldable pub tool_edges : Option ℕ → List ℕ → List ℕ → List (ℕ × ℕ)
unfolding from_anchor chain fan_out last_of
tool_edges anchor [] stateless = from_anchor anchor stateless
tool_edges anchor (n ∷ stateful) stateless =
    from_anchor anchor (n ∷ []) ++ (chain (n ∷ stateful) ++ fan_out (last_of n stateful) stateless)

unfoldable pub terminal_tools : List ℕ → List ℕ → List ℕ
unfolding last_of
terminal_tools stateful (n ∷ stateless) = n ∷ stateless
terminal_tools (n ∷ stateful) [] = last_of n stateful ∷ []
terminal_tools [] [] = []

unfoldable pub to_downstream : List ℕ → List ℕ → List (ℕ × ℕ)
unfolding fan_out
to_downstream [] targets = []
to_downstream (n ∷ ids) targets = fan_out n targets ++ to_downstream ids targets

unfoldable pub group_edges : Dict ℕ ℕ → Group → List (ℕ × ℕ)
unfolding sort_node_ids_by_schedule tool_edges terminal_tools to_downstream sorted
group_edges starts group =
    let stateful = sort_node_ids_by_schedule starts group.stateful in
    let stateless = sort_node_ids_by_schedule starts group.stateless in
    tool_edges group.anchor_id stateful stateless
    ++ to_downstream (terminal_tools stateful stateless) (sorted group.downstream)

unfoldable pub all_group_edges : Dict ℕ ℕ → List Group → List (ℕ × ℕ)
unfolding group_edges
all_group_edges starts [] = []
all_group_edges starts (group ∷ groups) = group_edges starts group ++ all_group_edges starts groups

-- _build_display_edges
unfoldable pub build_display_edges : List ViewNode → Dict ℕ String → Dict ℕ ℕ → List (ℕ × ℕ)
unfolding build_node_by_id build_incoming_by_id root_tool_ids group_roots all_kept_edges
    all_group_edges
build_display_edges nodes modes starts =
    let g = build_node_by_id nodes in
    let incoming = build_incoming_by_id nodes in
    let roots = root_tool_ids g incoming g in
    let groups = values (group_roots g incoming modes starts roots []) in
    all_kept_edges g roots groups nodes ++ all_group_edges starts groups
