-- ===== src/Replay/Benchmark.antt =====
-- The replay that `run_trace` of atsuite/invoker.py makes of the benchmark that it has resolved: from
-- node 0, with no parameters, gated on a FaaS provider.
use atsuite.Base.{ℕ, String, Bool, true, ◌≡◌, List, nat_eq, string_eq, ◌==◌, All}
use atsuite.Base.Dict.{has}
use atsuite.Base.Json.{end}
use atsuite.Result.{Result, ok}
use atsuite.Trace.{node_by_id}
use atsuite.Pipeline.Data.{ResolvedBenchmark, CliOverrides}
use atsuite.Pipeline.Files.{FileSystem}
use atsuite.Pipeline.Resolve.{resolve_benchmark}
use atsuite.Pipeline.Resolve.Routed.{resolve_benchmark-IsCoherent}
use atsuite.Replay.Setup.Total.{HasTargets}
use atsuite.Replay.Loop.{State}
use atsuite.Replay.Loop.Termination.{IsWait}
use atsuite.Replay.Run.{run_node}
use atsuite.Replay.Run.Complete.{RanAll, Rises, run_node-RanAll}

-- The call of run_node in run_trace.
unfoldable pub replay_benchmark :
    ResolvedBenchmark → (ℕ → Bool) → (ℕ → List ℕ → List ℕ) → Result State
replay_benchmark b succeeds wait =
    run_node b.routes (b.provider.family == "faas") (node_by_id b.trace.nodes) 0 end succeeds wait

-- If `resolve_benchmark` returns a benchmark whose trace has node 0, whose edges all lead to nodes
-- of the trace and strictly raise some rank, if every worker succeeds, and if the pool reports at
-- least one pending future each round and never one that is not pending, then its replay returns
-- without an error, and has run the nodes that a path of edges reaches from node 0, each exactly
-- once.
pub replay_benchmark-RanAll :
    (fs : FileSystem) (config_path provider : String) (overrides : CliOverrides)
    (b : ResolvedBenchmark) (succeeds : ℕ → Bool) (wait : ℕ → List ℕ → List ℕ) (rank : ℕ → ℕ)
    → resolve_benchmark fs config_path provider overrides ≡ ok b
    → has (node_by_id b.trace.nodes) 0 ≡ true
    → All (HasTargets (node_by_id b.trace.nodes)) (node_by_id b.trace.nodes)
    → All (Rises rank) (node_by_id b.trace.nodes)
    → ((n : ℕ) → succeeds n ≡ true)
    → IsWait wait
    → (s : State) × (replay_benchmark b succeeds wait ≡ ok s)
      × RanAll (node_by_id b.trace.nodes) 0 s
unfolding replay_benchmark
replay_benchmark-RanAll fs config_path provider overrides b succeeds wait rank resolved started
      targets rises good w =
    run_node-RanAll b.routes (b.provider.family == "faas") b.trace.nodes 0 end succeeds wait rank
      (record {
        started = started;
        targets = targets;
        routed = (resolve_benchmark-IsCoherent fs config_path provider overrides b resolved).1;
        acyclic = rises;
      })
      good w
