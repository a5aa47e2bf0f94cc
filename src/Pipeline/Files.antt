-- ===== src/Pipeline/Files.antt =====
-- Paths and JSON files, as atsuite/utils.py and atsuite/pipeline.py use them.
use atsuite.Base.{ℕ, String, Bool, if◌then◌else◌, ◌==◌, string_eq}
use atsuite.Base.Json.{Value, obj, Fields}
use atsuite.Base.Text.{◌&◌, is_empty, strip, show, starts_with, drop}
use atsuite.Result.{Result, ok, err, ◌>>=◌, ◌>>◌, exit_with, exit_if, wrong_type}

-- What a path leads to: what `read_text` raises, or what `json.loads` makes of the text.
pub data FileContent : Type 0 where
  missing : FileContent
  directory : FileContent
  unreadable : String → FileContent
  blank : FileContent
  malformed : String → ℕ → ℕ → FileContent
  json : Value → FileContent

-- What the code asks of the file system and of pathlib; paths are texts.
pub record FileSystem : Type 0 where
  pub content : String → FileContent
  pub exists : String → Bool
  pub join : String → String → String
  pub resolve : String → String
  pub is_absolute : String → Bool
  pub parent : String → String
  pub name : String → String

-- load_json
unfoldable pub load_json : FileSystem → String → Result Value
unfolding show
load_json fs path = elim (fs.content path) [
  | missing ↦ err (exit_with ("JSON file not found: " & path))
  | directory ↦ err (exit_with ("Expected JSON file but found directory: " & path))
  | unreadable reason ↦ err (exit_with ("Failed to read JSON file " & path & ": " & reason))
  | blank ↦ err (exit_with ("Invalid JSON in " & path & ": file is empty"))
  | malformed message line column ↦ err (
      exit_with (
        "Invalid JSON in "
        & path
        & ": "
        & message
        & " at line "
        & show line
        & " column "
        & show column))
  | json v ↦ ok v
]

-- `load_json` where the code goes on with `.get`, which only an object has.
unfoldable pub load_object : FileSystem → String → Result Fields
unfolding load_json
load_object fs path = load_json fs path >>= λ v. elim v [ obj d ↦ ok d | _ ↦ err wrong_type ]

-- resolve_benchmark_root
unfoldable pub resolve_benchmark_root : FileSystem → String → String
resolve_benchmark_root fs config_path =
    let parent = fs.parent config_path in
    if fs.name parent == "config" then fs.parent parent else parent

-- resolve_trace_path
unfoldable pub resolve_trace_path : FileSystem → String → String → Result String
unfolding exit_if strip starts_with drop
resolve_trace_path fs bench_root trace_file = do
  let raw = strip trace_file
  exit_if (is_empty raw) "Missing trace_file in config"
  let path = if starts_with "./" raw then drop 2 raw else raw
  ok (fs.resolve (if fs.is_absolute path then path else fs.join bench_root path))
