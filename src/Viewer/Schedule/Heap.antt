-- ===== src/Viewer/Schedule/Heap.antt =====
-- The heap of running nodes, and the count of nodes that are still to be submitted
-- (atsuite/cli/trace_viewer_metadata.py).
use atsuite.Base.{
  ℕ, suc, ◌+◌, ◌≤◌, ◌<◌, ◌≡◌, refl, true, false, List, [], ◌∷◌, nat_eq, ◌==◌, if◌then◌else◌, length,
  arith, All, Bool-cases, inl, inr,
}
use atsuite.Base.Dict.{has, get}
use atsuite.Base.Sets.{elem}
use atsuite.Viewer.{ViewGraph}
use atsuite.Viewer.Schedule.{Running, runs_before, heappush, pop_at}

-- Entries in the order of their ends.
abbrev pub IsHeap : List Running → Type 0
IsHeap [] = Unit
IsHeap (a ∷ heap) = All (λ b. a.end_time ≤ b.end_time) heap × IsHeap heap

pub All-heappush {ℓ} :
    (P : Running → Type ℓ) (a : Running) (heap : List Running)
    → P a
    → All P heap
    → All P (heappush a heap)
unfolding heappush
All-heappush P a [] h all = (h, tt)
All-heappush P a (b ∷ heap) h all = elim (Bool-cases (runs_before a b)) [
  | inl e ↦ rw e (h, all)
  | inr e ↦ rw e (all.0, All-heappush P a heap h all.1)
]

All-end_trans :
    (a b : Running) (heap : List Running)
    → a.end_time ≤ b.end_time
    → All (λ c. b.end_time ≤ c.end_time) heap
    → All (λ c. a.end_time ≤ c.end_time) heap
All-end_trans a b [] le all = tt
All-end_trans a b (c ∷ heap) le all = (omega arith, All-end_trans a b heap le all.1)

runs_before-le : (a b : Running) → runs_before a b ≡ true → a.end_time ≤ b.end_time
unfolding runs_before
runs_before-le a b h = ground arith

not-runs_before-le : (a b : Running) → runs_before a b ≡ false → b.end_time ≤ a.end_time
unfolding runs_before
not-runs_before-le a b h = ground arith

pub heappush-IsHeap : (a : Running) (heap : List Running) → IsHeap heap → IsHeap (heappush a heap)
unfolding heappush
heappush-IsHeap a [] h = (tt, tt)
heappush-IsHeap a (b ∷ heap) h = elim (Bool-cases (runs_before a b)) [
  | inl e ↦ let le = runs_before-le a b e in rw e ((le, All-end_trans a b heap le h.0), h)
  | inr e ↦ rw e (
    All-heappush (λ c. b.end_time ≤ c.end_time) a heap (not-runs_before-le a b e) h.0,
    heappush-IsHeap a heap h.1,
  )
]

pub length-heappush :
    (a : Running) (heap : List Running) → length (heappush a heap) ≡ suc (length heap)
unfolding heappush
length-heappush a [] = refl
length-heappush a (b ∷ heap) = ground (arith, length-heappush a heap)

-- What is popped at a time, of a heap that has nothing before it.
pub record Popped {ℓ} (P : Running → Type ℓ) (t : ℕ) (ids : List ℕ) (heap : List Running)
    : Type ℓ where
  pub ended : All (λ n. (a : Running) × (a.node ≡ n) × (a.end_time ≡ t) × P a) ids
  pub late : All (λ a. t ≤ a.end_time) heap
  pub is_heap : IsHeap heap
  pub kept : All P heap

pub pop_at-Popped {ℓ} :
    (P : Running → Type ℓ) (t : ℕ) (heap : List Running)
    → IsHeap heap
    → All P heap
    → All (λ a. t ≤ a.end_time) heap
    → Popped P t (pop_at t heap).0 (pop_at t heap).1
unfolding pop_at
pop_at-Popped P t [] h all late = record { ended = tt; late = tt; is_heap = tt; kept = tt }
pop_at-Popped P t (a ∷ heap) h all late =
    let k = pop_at-Popped P t heap h.1 all.1 late.1 in
    elim (nat_eq.dec a.end_time t) [
      | yes e ↦
          let hit : (a.end_time == t) ≡ true = ground arith in
          rw hit (record {
            ended = ((a, refl, e, all.0), k.ended);
            late = k.late;
            is_heap = k.is_heap;
            kept = k.kept;
          })
      | no n ↦
          let other : (a.end_time == t) ≡ false = ground arith in
          rw other (record { ended = tt; late = late; is_heap = h; kept = all })
    ]

pub length-pop_at : (t : ℕ) (heap : List Running) → length (pop_at t heap).1 ≤ length heap
unfolding pop_at
length-pop_at t [] = omega arith
length-pop_at t (a ∷ heap) = ground (arith, length-pop_at t heap)

-- The nodes that have not been submitted.
unfoldable pub unsubmitted : ViewGraph → List ℕ → ℕ
unsubmitted [] done = 0
unsubmitted ((k, node) ∷ g) done = (if elem done k then 0 else 1) + unsubmitted g done

pub unsubmitted-le-length : (g : ViewGraph) (done : List ℕ) → unsubmitted g done ≤ length g
unfolding unsubmitted
unsubmitted-le-length [] done = omega arith
unsubmitted-le-length ((k, node) ∷ g) done = ground (arith, unsubmitted-le-length g done)

unsubmitted_mono :
    (g : ViewGraph) (done : List ℕ) (n : ℕ) → unsubmitted g (n ∷ done) ≤ unsubmitted g done
unfolding unsubmitted elem
unsubmitted_mono [] done n = omega arith
unsubmitted_mono ((k, node) ∷ g) done n = ground (arith, unsubmitted_mono g done n)

pub unsubmitted-submit :
    (g : ViewGraph) (done : List ℕ) (n : ℕ)
    → has g n ≡ true
    → elem done n ≡ false
    → unsubmitted g (n ∷ done) < unsubmitted g done
unfolding unsubmitted elem get
unsubmitted-submit [] done n h new = cc
unsubmitted-submit ((k, node) ∷ g) done n h new =
    ground (arith, unsubmitted-submit g done n, unsubmitted_mono g done n)
