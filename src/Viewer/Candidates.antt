-- ===== src/Viewer/Candidates.antt =====
-- Which configuration belongs to a trace, of those beside it (atsuite/cli/trace_viewer_metadata.py).
use atsuite.Base.{
  ℕ, ◌+◌, String, Bool, Option, none, some, List, [], ◌∷◌, true, false, not, ◌&&◌, ◌||◌, string_eq,
  nat_eq, ◌==◌, if◌then◌else◌, ltb, length,
}
use atsuite.Base.Json.{Value, obj, Fields}
use atsuite.Base.Sets.{elem}
use atsuite.Base.Text.{is_empty}
use atsuite.Result.{Result, ok, err, ◌>>=◌, wrong_type}
use atsuite.Analysis.Timeline.Metadata.{text_le}
use atsuite.Viewer.{ViewNode}
use atsuite.Viewer.Config.{
  Tree, try_json, trimmed, safe_resolve, tool_names_in_trace, collect_config_trace_metadata,
  declared_names,
}

-- The payload of the trace file of a configuration, against the trace: 1 if it names it as its source.
unfoldable pub matches_source : Tree → String → Value → Result ℕ
unfolding trimmed
matches_source t trace_path (obj d) =
    let source = trimmed d "source_trace_path" in
    ok (
      if not (is_empty source) && t.files.resolve source == t.files.resolve trace_path
      then 1
      else 0)
matches_source t trace_path v = err wrong_type

-- _config_matches_trace_file
unfoldable pub config_matches_trace_file : Tree → String → Value → String → String → Result ℕ
unfolding trimmed safe_resolve try_json matches_source
config_matches_trace_file t config_path (obj config) trace_path root =
    let trace_file = trimmed config "trace_file" in
    if is_empty trace_file
    then ok 0
    else elim (safe_resolve t (t.files.parent config_path) trace_file root) [
      | none ↦ ok 0
      | some path ↦
          if not (t.files.exists path)
          then ok 0
          else if path == t.files.resolve trace_path
          then ok 2
          else elim (try_json t path) [
            | none ↦ ok 0
            | some payload ↦ matches_source t trace_path payload
          ]
    ]
config_matches_trace_file t config_path v trace_path root = err wrong_type

-- `len(names & others)` and `len(names - others)`
unfoldable pub count_common : List String → List String → ℕ
unfolding elem
count_common [] others = 0
count_common (name ∷ names) others = (if elem others name then 1 else 0) + count_common names others

unfoldable pub count_missing : List String → List String → ℕ
unfolding elem
count_missing [] others = 0
count_missing (name ∷ names) others =
    (if elem others name then 0 else 1) + count_missing names others

pub record Candidate : Type 0 where
  pub trace_file_match : ℕ
  pub matched : ℕ
  pub unmatched : ℕ
  pub entries : ℕ
  pub stateful : ℕ
  pub path : String

-- `a` before `b` in an order of two numbers, else by what is left.
abbrev higher_first : ℕ → ℕ → Bool → Bool
higher_first a b rest = if ltb b a then true else if ltb a b then false else rest

-- The order of `candidates.sort`.
unfoldable pub comes_first : Candidate → Candidate → Bool
unfolding text_le
comes_first a b = higher_first a.trace_file_match b.trace_file_match (
    higher_first a.matched b.matched (
      higher_first b.unmatched a.unmatched (
        higher_first a.entries b.entries
          (higher_first a.stateful b.stateful (text_le a.path b.path)))))

-- `candidates[0]` after the sort
unfoldable pub best_candidate : List Candidate → Option Candidate
unfolding comes_first
best_candidate [] = none
best_candidate (c ∷ candidates) = elim (best_candidate candidates) [
  | none ↦ some c
  | some d ↦ if comes_first c d then some c else some d
]

-- One configuration of the loop: its candidate, if it names a tool of the trace.
unfoldable pub candidate_at :
    Tree → List String → String → String → String → Result (Option Candidate)
unfolding ◌>>=◌ try_json collect_config_trace_metadata count_common count_missing
    config_matches_trace_file
candidate_at t tools trace_path root config_path = elim (try_json t config_path) [
  | none ↦ ok none
  | some config ↦ do
    found ← collect_config_trace_metadata config
    let rated = do
      trace_file_match ← config_matches_trace_file t config_path config trace_path root
      ok (
          some (record {
            trace_file_match = trace_file_match;
            matched = count_common tools found.names;
            unmatched = count_missing tools found.names;
            entries = found.explicit_stateful_entries;
            stateful = found.explicit_stateful_true;
            path = config_path;
          }))
    if count_common tools found.names == 0 then ok none else rated
]

unfoldable pub candidates_at :
    Tree → List String → String → String → List String → Result (List Candidate)
unfolding ◌>>=◌ candidate_at
candidates_at t tools trace_path root [] = ok []
candidates_at t tools trace_path root (path ∷ paths) = do
  candidate ← candidate_at t tools trace_path root path
  rest ← candidates_at t tools trace_path root paths
  ok (elim candidate [ none ↦ rest | some c ↦ c ∷ rest ])

-- _infer_config_path_from_trace_location
unfoldable pub infer_config_path_from_trace_location :
    Tree → List ViewNode → String → String → Result (Option String)
unfolding ◌>>=◌ tool_names_in_trace candidates_at best_candidate
infer_config_path_from_trace_location t nodes trace_path root =
    let folder = t.files.parent trace_path in
    let config_dir = t.files.join (t.files.parent folder) "config" in
    let tools = tool_names_in_trace nodes in
    let found = candidates_at t tools trace_path root (t.json_files config_dir) >>= λ candidates.
    ok (elim (best_candidate candidates) [ none ↦ none | some c ↦ some c.path ]) in
    if not (t.files.name folder == "trace") || not (t.files.exists config_dir) || length tools == 0
    then ok none
    else found

-- The `deploy_config` of the trace, if it has one that is within the repository.
unfoldable pub deploy_config_path : Tree → Fields → String → String → Option String
unfolding trimmed safe_resolve
deploy_config_path t payload trace_path root =
    let deploy_config = trimmed payload "deploy_config" in
    if is_empty deploy_config
    then none
    else safe_resolve t (t.files.parent trace_path) deploy_config root

-- resolve_stateful_tool_names
unfoldable pub resolve_stateful_tool_names :
    Tree → Fields → List ViewNode → String → String → Result (List String)
unfolding ◌>>=◌ deploy_config_path infer_config_path_from_trace_location declared_names
resolve_stateful_tool_names t payload nodes trace_path root =
    elim (deploy_config_path t payload trace_path root) [
      | some config_path ↦ declared_names t (some config_path)
      | none ↦ infer_config_path_from_trace_location t nodes trace_path root >>= declared_names t
    ]
