-- ===== src/Replay/Loop/Submission.antt =====
-- submit_node and schedule_ready_nodes: what starts, what stays ready, and that the passes end.
use atsuite.Base.{
  ℕ, zero, suc, ◌+◌, ◌≤◌, ◌<◌, ◌≡◌, refl, Bool, List, [], ◌∷◌, map, true, false, nat_eq, arith,
  Bool-cases, inl, inr, ◌∙◌, length, sym, ap,
}
use atsuite.Base.Sets.{elem, Unique, remove, length-remove}
use atsuite.Base.Sets.Removal.{elem-remove_ne, elem-remove_self, Unique-remove, not_elem-remove}
use atsuite.Result.{ok}
use atsuite.Scheduler.{AccessScheduler, can_start}
use atsuite.Scheduler.Refinement.{start-Agrees, start-can_start, enabled-start}
use atsuite.Base.Sets.Sorted.{sorted, elem-sorted, Unique-sorted}
use atsuite.Replay.Loop.{
  Plan, State, access_of, submit_node, try_node, try_nodes, schedule_passes, schedule_ready_nodes,
}
use atsuite.Replay.Loop.Invariant.{edges_to, is_live, debt, Inv}
use atsuite.Replay.Loop.Completion.{owed-cong, Locked}

unfoldable pub submitted : ℕ → AccessScheduler → State → State
submitted n t s = record s {
  ready = remove s.ready n;
  scheduler = t;
  visited = n ∷ s.visited;
  pending = n ∷ s.pending;
}

pub submitted-Inv :
    (p : Plan) (n : ℕ) (t : AccessScheduler) (s : State)
    → elem s.ready n ≡ true
    → Inv p [] s
    → Inv p [] (submitted n t s)
unfolding submitted elem
submitted-Inv p n t s m v =
    let fresh : elem s.visited n ≡ false = v.ready_fresh n m in
    let same : (k : ℕ) → debt p [] (submitted n t s) k ≡ debt p [] s k = λ k.
      ap (◌+◌ (edges_to [] k)) (
        owed-cong p.reachable (n ∷ s.visited) s.visited (n ∷ s.pending) s.pending p.graph k
          (λ j. ground (arith, fresh, v.pending_visited j))) in
    record {
      pending_visited = λ k h. ground (arith, v.pending_visited k);
      pending_unique = (ground (arith, v.pending_visited n), v.pending_unique);
      visited_unique = (fresh, v.visited_unique);
      ready_unique = Unique-remove s.ready n v.ready_unique;
      ready_fresh = λ k h. ground (
        arith,
        v.ready_fresh k,
        elem-remove_self s.ready n v.ready_unique,
        not_elem-remove s.ready n k,
      );
      ready_live = λ k h. ground (arith, v.ready_live k, not_elem-remove s.ready n k);
      ready_free = λ k h. same k ∙ v.ready_free k (ground (arith, not_elem-remove s.ready n k));
      visited_live = λ k h. ground (arith, v.visited_live k, v.ready_live n m);
      visited_free = λ k h. same k ∙ ground (arith, v.visited_free k, v.ready_free n m);
      degrees = λ k h. rw (same k) (v.degrees k h);
      noticed =
          λ k h z. ground (arith, v.noticed k h (sym (same k) ∙ z), elem-remove_ne s.ready n k);
      extra_live = v.extra_live;
    }

-- What a pass over `ids` from `s`, with the flag `b`, has done when it is at `s'` with the flag `c`.
record Tried (p : Plan) (ids : List ℕ) (s : State) (b : Bool) (s' : State) (c : Bool) : Type 0 where
  inv : Inv p [] s'
  locked : Locked p s'
  pending_count : length s'.pending + length s'.ready ≡ length s.pending + length s.ready
  visited_count : length s'.visited + length s'.ready ≡ length s.visited + length s.ready
  shrinks : length s'.ready ≤ length s.ready
  progress : c ≡ true → b ≡ false → length s'.ready < length s.ready
  flag : c ≡ false → b ≡ false
  idle : c ≡ false → s' ≡ s
  refused : c ≡ false → (n : ℕ) → elem ids n ≡ true → can_start s.scheduler (access_of p n) ≡ false

pub submit_node-ready :
    (p : Plan) (n : ℕ) (s : State)
    → elem s.ready n ≡ true
    → can_start s.scheduler (access_of p n) ≡ true
    → Inv p [] s
    → Locked p s
    → (t : AccessScheduler) × (submit_node p n (record s { ready = remove s.ready n })
        ≡ ok (submitted n t s))
      × Locked p (submitted n t s)
unfolding submit_node submitted
submit_node-ready p n s m h v l =
    let (t, ran) = start-can_start s.scheduler (access_of p n) h in
    let live : is_live p n ≡ true = v.ready_live n m in
    (
      t,
      ground (arith, v.ready_fresh n m),
      elim l [
        | inl off ↦ inl (enabled-start s.scheduler t (access_of p n) ran ∙ off)
        | inr agrees ↦
            inr
              (start-Agrees s.scheduler t (map (access_of p) s.pending) (access_of p n) agrees ran)
      ],
    )

Tried-started :
    (p : Plan) (n : ℕ) (ids : List ℕ) (s : State) (b : Bool) (t : AccessScheduler) (s' : State)
    (c : Bool)
    → elem s.ready n ≡ true
    → Tried p ids (submitted n t s) true s' c
    → Tried p (n ∷ ids) s b s' c
unfolding submitted
Tried-started p n ids s b t s' c m k = record {
  inv = k.inv;
  locked = k.locked;
  pending_count = omega (arith, k.pending_count, length-remove s.ready n m);
  visited_count = omega (arith, k.visited_count, length-remove s.ready n m);
  shrinks = omega (arith, k.shrinks, length-remove s.ready n m);
  progress = λ h f. omega (arith, k.shrinks, length-remove s.ready n m);
  flag = λ h. absurd (ground (arith, k.flag h));
  idle = λ h. absurd (ground (arith, k.flag h));
  refused = λ h. absurd (ground (arith, k.flag h));
}

try_nodes-Tried :
    (p : Plan) (ids : List ℕ) (s : State) (b : Bool)
    → Unique ids
    → ((n : ℕ) → elem ids n ≡ true → elem s.ready n ≡ true)
    → Inv p [] s
    → Locked p s
    → (s' : State) × (c : Bool) × (try_nodes p ids (s, b) ≡ ok (s', c)) × Tried p ids s b s' c
unfolding try_nodes try_node elem
try_nodes-Tried p [] s b u inside v l = (
  s,
  b,
  refl,
  record {
    inv = v;
    locked = l;
    pending_count = refl;
    visited_count = refl;
    shrinks = omega arith;
    progress = λ h k. cc;
    flag = λ h. h;
    idle = λ h. refl;
    refused = λ h n m. cc;
  },
)
try_nodes-Tried p (n ∷ ids) s b u inside v l =
    elim (Bool-cases (can_start s.scheduler (access_of p n))) [
      | inl free ↦
          let m : elem s.ready n ≡ true = inside n (ground arith) in
          let (t, ran, l₁) = submit_node-ready p n s m free v l in
          let (s', c, rest, k) =
            try_nodes-Tried p ids (submitted n t s) true u.1
              (λ j h. unfold submitted in ground (arith, inside j, elem-remove_ne s.ready n j, u.0))
              (submitted-Inv p n t s m v) l₁ in
          (s', c, ground (arith, ran, rest), Tried-started p n ids s b t s' c m k)
      | inr busy ↦
          let (s', c, rest, k) =
            try_nodes-Tried p ids s b u.1 (λ j h. ground (arith, inside j)) v l in
          (
            s',
            c,
            ground (arith, rest),
            record {
              inv = k.inv;
              locked = k.locked;
              pending_count = k.pending_count;
              visited_count = k.visited_count;
              shrinks = k.shrinks;
              progress = k.progress;
              flag = k.flag;
              idle = k.idle;
              refused = λ h j m. ground (arith, k.refused h j);
            },
          )
    ]

-- What schedule_ready_nodes leaves: nothing that is ready could start, and no id is lost.
pub record Scheduled (p : Plan) (s s' : State) : Type 0 where
  pub inv : Inv p [] s'
  pub locked : Locked p s'
  pub pending_count : length s'.pending + length s'.ready ≡ length s.pending + length s.ready
  pub visited_count : length s'.visited + length s'.ready ≡ length s.visited + length s.ready
  pub exhausted_ready :
      (n : ℕ) → elem s'.ready n ≡ true → can_start s'.scheduler (access_of p n) ≡ false

schedule_passes-Scheduled :
    (f : ℕ) (p : Plan) (s : State)
    → length s.ready < f
    → Inv p [] s
    → Locked p s
    → (s' : State) × (schedule_passes f p s ≡ ok s') × Scheduled p s s'
unfolding schedule_passes
schedule_passes-Scheduled zero p s h v l = elim h [ ]
schedule_passes-Scheduled (suc f) p s h v l =
    let (s₁, c, ran, k) =
      try_nodes-Tried p (sorted s.ready) s false (Unique-sorted s.ready v.ready_unique)
        (λ n m. sym (elem-sorted s.ready n) ∙ m) v l in
    elim (Bool-cases c) [
      | inl again ↦
          let (s₂, ran₂, k₂) =
            schedule_passes-Scheduled f p s₁ (omega (arith, k.progress again refl)) k.inv
              k.locked in
          (
            s₂,
            ground (arith, ran, ran₂),
            record {
              inv = k₂.inv;
              locked = k₂.locked;
              pending_count = k₂.pending_count ∙ k.pending_count;
              visited_count = k₂.visited_count ∙ k.visited_count;
              exhausted_ready = k₂.exhausted_ready;
            },
          )
      | inr stop ↦ (
        s₁,
        ground (arith, ran),
        record {
          inv = k.inv;
          locked = k.locked;
          pending_count = k.pending_count;
          visited_count = k.visited_count;
          exhausted_ready = λ n m.
              rw (k.idle stop) (k.refused stop n (elem-sorted s.ready n ∙ (rw (k.idle stop) at m)));
        },
      )
    ]

-- schedule_ready_nodes ends with no exception, and then no ready node could start.
pub schedule_ready_nodes-Scheduled :
    (p : Plan) (s : State)
    → Inv p [] s
    → Locked p s
    → (s' : State) × (schedule_ready_nodes p s ≡ ok s') × Scheduled p s s'
unfolding schedule_ready_nodes
schedule_ready_nodes-Scheduled p s v l =
    schedule_passes-Scheduled (suc (length s.ready)) p s (omega arith) v l
