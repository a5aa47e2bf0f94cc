-- ===== src/Replay/Run/Start.antt =====
-- The first state of `run_node` (atsuite/invoker.py).
use atsuite.Base.{
  ℕ, ◌≡◌, refl, Bool, some, List, [], ◌∷◌, true, false, ◌&&◌, nat_eq, arith, inl, inr,
}
use atsuite.Base.Dict.{Dict, get, keys}
use atsuite.Base.Json.{Fields}
use atsuite.Base.Int.{ℤ, pos, is_zero}
use atsuite.Base.Sets.{elem, Unique}
use atsuite.Scheduler.{ToolAccess}
use atsuite.Scheduler.Refinement.{init-Agrees}
use atsuite.Trace.{Graph}
use atsuite.Trace.Index.{IsIndex}
use atsuite.Base.Sets.Keys.{has-elem-keys}
use atsuite.Replay.Setup.{zeros, has_no_debt, first_ready}
use atsuite.Replay.Setup.Counts.{Counted, get-zeros}
use atsuite.Replay.Loop.{Plan}
use atsuite.Replay.Loop.Invariant.{edges_to, owed, is_live, Inv, IsClosed}
use atsuite.Replay.Loop.Completion.{Locked}
use atsuite.Replay.Loop.Debts.{edges_to-le-owed}
use atsuite.Replay.Run.{first_state}

elem-first_ready :
    (reachable : List ℕ) (d : Dict ℕ ℤ) (g : Graph) (n : ℕ)
    → elem (first_ready reachable d g) n
      ≡ (elem (keys g) n && (has_no_debt d n && elem reachable n))
unfolding elem first_ready
elem-first_ready reachable d [] n = refl
elem-first_ready reachable d ((k, node) ∷ g) n = ground (arith, elem-first_ready reachable d g n)

Unique-first_ready :
    (reachable : List ℕ) (d : Dict ℕ ℤ) (g : Graph)
    → Unique (keys g)
    → Unique (first_ready reachable d g)
unfolding first_ready
Unique-first_ready reachable d [] u = tt
Unique-first_ready reachable d ((k, node) ∷ g) u =
    ground (arith, Unique-first_ready reachable d g, elem-first_ready reachable d g k)

module _ (g : Graph) (reachable : List ℕ) (node_access : Dict ℕ ToolAccess) (d : Dict ℕ ℤ) where
  abbrev pub the_plan : Plan
  the_plan = record { graph = g; reachable = reachable; node_access = node_access }

  first_degrees :
      Counted reachable (zeros g) (owed reachable [] [] g) d
      → (t : ℕ) → is_live the_plan t ≡ true
      → get d t ≡ some (pos (owed reachable [] [] g t))
  first_degrees c t live = ground (arith, get-zeros g t, c.grown t 0)

  pub first_IsClosed :
      IsIndex g → Counted reachable (zeros g) (owed reachable [] [] g) d → IsClosed the_plan
  unfolding elem
  first_IsClosed x c = record {
    keys_unique = x.unique;
    edges_live = λ m node r e t h q.
        ground (arith, c.there t q, get-zeros g t, edges_to-le-owed reachable [] [] g m t node e r);
  }

  pub first_Inv :
      (gated : Bool) (params : Fields)
      → IsIndex g
      → Counted reachable (zeros g) (owed reachable [] [] g) d
      → Inv the_plan [] (first_state gated the_plan d params)
  unfolding first_state elem edges_to has_no_debt is_zero
  first_Inv gated params x c = record {
    pending_visited = λ n m. m;
    pending_unique = tt;
    visited_unique = tt;
    ready_unique = Unique-first_ready reachable d g x.unique;
    ready_fresh = λ n m. refl;
    ready_live = λ n m. ground (arith, elem-first_ready reachable d g n, has-elem-keys g n);
    ready_free = λ n m.
        ground (arith, elem-first_ready reachable d g n, has-elem-keys g n, first_degrees c n);
    visited_live = λ n m. cc;
    visited_free = λ n m. cc;
    degrees = λ t live. ground (arith, first_degrees c t live);
    noticed = λ t live z.
        ground (arith, elem-first_ready reachable d g t, has-elem-keys g t, first_degrees c t live);
    extra_live = λ t h. absurd (omega arith);
  }

  pub first_Locked :
      (gated : Bool) (params : Fields) → Locked the_plan (first_state gated the_plan d params)
  unfolding first_state
  first_Locked true params = inr init-Agrees
  first_Locked false params = inl refl
