-- ===== src/Replay/Loop/Termination.antt =====
-- The end of the main loop of `run_node` (atsuite/invoker.py).
use atsuite.Base.{
  ℕ, zero, suc, ◌+◌, ◌-◌, ◌≤◌, ◌<◌, ◌≡◌, ◌≢◌, refl, Bool, List, [], ◌∷◌, true, false, ◌&&◌, nat_eq,
  if◌then◌else◌, arith, Bool-cases, inl, inr, length, ap,
}
use atsuite.Base.Sets.{elem, Unique}
use atsuite.Base.Sets.Removal.{length-le_of_subset}
use atsuite.Result.{ok, ◌>>=◌}
use atsuite.Scheduler.{can_start}
use atsuite.Scheduler.Refinement.{can_start-eq-compatible_all, compatible_all}
use atsuite.Replay.Loop.{
  Plan, State, access_of, complete_nodes, schedule_ready_nodes, is_nil, main_loop,
}
use atsuite.Replay.Loop.Invariant.{Inv, IsClosed}
use atsuite.Replay.Loop.Completion.{Locked, IsDone, complete_nodes-Inv}
use atsuite.Replay.Loop.Submission.{Scheduled, schedule_ready_nodes-Scheduled}

-- With no node pending every access may start.
can_start_idle :
    (p : Plan) (n : ℕ) (s : State)
    → s.pending ≡ []
    → Locked p s
    → can_start s.scheduler (access_of p n) ≡ true
unfolding can_start compatible_all
can_start_idle p n s e (inl off) = ground arith
can_start_idle p n s e (inr h) =
    can_start-eq-compatible_all s.scheduler [] (access_of p n) (rw e at h)

-- So what is scheduled leaves a pending node, or no ready one.
no_deadlock : (p : Plan) (s s' : State) → Scheduled p s s' → s'.pending ≡ [] → s'.ready ≡ []
unfolding elem
no_deadlock p s s' k e = go s'.ready refl
  where
    go : (ids : List ℕ) → s'.ready ≡ ids → s'.ready ≡ []
    go [] q = q
    go (n ∷ ids) q = absurd (ground (arith, can_start_idle p n s' e k.locked, k.exhausted_ready n))

-- `concurrent.futures.wait` with FIRST_COMPLETED: some of the pending futures, each once, and at
-- least one where any is pending.
pub record IsWait (wait : ℕ → List ℕ → List ℕ) : Type 0 where
  pub done : (f : ℕ) (pending : List ℕ) → Unique pending → IsDone (wait f pending) pending
  pub wakes : (f : ℕ) (pending : List ℕ) → pending ≢ [] → 0 < length (wait f pending)

-- What is left to do: the nodes that have not been submitted, and those that are pending.
abbrev pub to_do : Plan → State → ℕ
to_do p s = (length p.reachable - length s.visited) + length s.pending

-- The end of the loop.
pub record Finished (p : Plan) (s : State) : Type 0 where
  pub inv : Inv p [] s
  pub locked : Locked p s
  pub none_pending : s.pending ≡ []
  pub none_ready : s.ready ≡ []

visited-le-reachable : (p : Plan) (s : State) → Inv p [] s → length s.visited ≤ length p.reachable
visited-le-reachable p s v =
    length-le_of_subset s.visited p.reachable v.visited_unique
      (λ n m. ground (arith, v.visited_live n m))

is_nil-eq : (ids : List ℕ) → is_nil ids ≡ true → ids ≡ []
unfolding is_nil
is_nil-eq [] h = refl
is_nil-eq (n ∷ ids) h = cc

not_is_nil : (ids : List ℕ) → is_nil ids ≡ false → ids ≢ []
unfolding is_nil
not_is_nil [] h = cc
not_is_nil (n ∷ ids) h = λ e. cc

-- The state in which a round waits.
record Waits (p : Plan) (s s' : State) : Type 0 where
  inv : Inv p [] s'
  locked : Locked p s'
  left : to_do p s' ≡ to_do p s
  no_deadlock : s'.pending ≡ [] → s'.ready ≡ []

pub Scheduled-to_do :
    (p : Plan) (s s' : State) → Inv p [] s → Scheduled p s s' → to_do p s' ≡ to_do p s
Scheduled-to_do p s s' v k = omega (
  arith,
  visited-le-reachable p s v,
  visited-le-reachable p s' k.inv,
  k.pending_count,
  k.visited_count,
)

prepared :
    (p : Plan) (s : State)
    → Inv p [] s
    → Locked p s
    → (s' : State) × ((if is_nil s.pending then schedule_ready_nodes p s else ok s) ≡ ok s')
      × Waits p s s'
prepared p s v l = elim (Bool-cases (is_nil s.pending)) [
  | inl idle ↦
      let (s', ran, k) = schedule_ready_nodes-Scheduled p s v l in
      (
        s',
        rw idle ran,
        record {
          inv = k.inv;
          locked = k.locked;
          left = Scheduled-to_do p s s' v k;
          no_deadlock = no_deadlock p s s' k;
        },
      )
  | inr busy ↦ (
    s,
    rw busy,
    record {
      inv = v;
      locked = l;
      left = refl;
      no_deadlock = λ e. absurd (not_is_nil s.pending busy e);
    },
  )
]

-- One round: `done` completes, and what became ready is scheduled.
round-Scheduled :
    (p : Plan) (succeeds : ℕ → Bool) (done : List ℕ) (s : State)
    → IsClosed p
    → ((n : ℕ) → succeeds n ≡ true)
    → IsDone done s.pending
    → 0 < length done
    → Inv p [] s
    → Locked p s
    → (s' : State) × ((complete_nodes p succeeds done s >>= schedule_ready_nodes p) ≡ ok s')
      × Inv p [] s'
      × Locked p s'
      × (to_do p s' < to_do p s)
unfolding ◌>>=◌
round-Scheduled p succeeds done s c good d some_done v l =
    let (s₁, ran, v₁, l₁, a, b) = complete_nodes-Inv p succeeds done s c good d v l in
    let (s₂, ran₂, k) = schedule_ready_nodes-Scheduled p s₁ v₁ l₁ in
    (s₂, rw ran ran₂, k.inv, k.locked, omega (arith, Scheduled-to_do p s₁ s₂ v₁ k, ap length a))

pub main_loop-Finished :
    (f : ℕ) (p : Plan) (succeeds : ℕ → Bool) (wait : ℕ → List ℕ → List ℕ) (s : State)
    → IsClosed p
    → ((n : ℕ) → succeeds n ≡ true)
    → IsWait wait
    → to_do p s < f
    → Inv p [] s
    → Locked p s
    → (s' : State) × (main_loop f p succeeds wait s ≡ ok s') × Finished p s'
unfolding main_loop
main_loop-Finished zero p succeeds wait s c good w h v l = elim h [ ]
main_loop-Finished (suc f) p succeeds wait s c good w h v l =
    elim (Bool-cases (is_nil s.pending && is_nil s.ready)) [
      | inl over ↦ (
        s,
        rw over,
        record {
          inv = v;
          locked = l;
          none_pending = is_nil-eq s.pending (ground arith);
          none_ready = is_nil-eq s.ready (ground arith);
        },
      )
      | inr more ↦
          let (s₁, ran₁, k) = prepared p s v l in
          elim (Bool-cases (is_nil s₁.pending)) [
            | inl idle ↦
                let e : s₁.pending ≡ [] = is_nil-eq s₁.pending idle in
                (
                  s₁,
                  rw (more, ran₁, idle),
                  record {
                    inv = k.inv;
                    locked = k.locked;
                    none_pending = e;
                    none_ready = k.no_deadlock e;
                  },
                )
            | inr busy ↦
                let (s₂, ran₂, v₂, l₂, less) =
                  round-Scheduled p succeeds (wait f s₁.pending) s₁ c good
                    (w.done f s₁.pending k.inv.pending_unique)
                    (w.wakes f s₁.pending (not_is_nil s₁.pending busy)) k.inv k.locked in
                let (s₃, ran₃, done) =
                  main_loop-Finished f p succeeds wait s₂ c good w (omega (arith, k.left)) v₂ l₂ in
                (s₃, rw (more, ran₁, busy, ran₂) ran₃, done)
          ]
    ]
