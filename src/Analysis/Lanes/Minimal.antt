-- ===== src/Analysis/Lanes/Minimal.antt =====
-- The number of lanes in use (`_allocate_lanes` of atsuite/analysis/timeline.py).
use atsuite.Base.{
  All-In, nat_eq, ◌∙◌, ap, ℕ, ◌+◌, ◌≤◌, ◌<◌, In, ◌≡◌, refl, true, false, ◌&&◌, List, [], ◌∷◌, some,
  ltb, leb, if◌then◌else◌, arith, Bool-cases, inl, inr, All, All-map,
}
use atsuite.Base.Dict.{get}
use atsuite.Analysis.Lanes.{
  Interval, key_le, insert_interval, place, assign_lanes, sort_intervals, allocate_lanes,
}
use atsuite.Analysis.Lanes.Placement.{busy_at, lane-le-busy, busy_at-place}
use atsuite.Base.Sets.{Unique}
use atsuite.Analysis.Lanes.Members.{closes, item_ids, assign_lanes-All, lane-In, get-allocate_lanes}

-- Whether an interval runs at `t`; those that start at zero are skipped.
abbrev pub runs_at : ℕ → Interval → ℕ
runs_at t a = if ltb 0 a.start_us && leb a.start_us t && ltb t (closes a) then 1 else 0

abbrev pub running_at : ℕ → List Interval → ℕ
running_at t [] = 0
running_at t (a ∷ rest) = runs_at t a + running_at t rest

abbrev StartsAfter : Interval → Interval → Type 0
StartsAfter a b = a.start_us ≤ b.start_us

abbrev IsSorted : List Interval → Type 0
IsSorted [] = Unit {0}
IsSorted (a ∷ rest) = All (StartsAfter a) rest × IsSorted rest

key_le-StartsAfter : (a b : Interval) → key_le a b ≡ true → StartsAfter a b
unfolding key_le
key_le-StartsAfter a b h = ground arith

not_key_le-StartsAfter : (a b : Interval) → key_le a b ≡ false → StartsAfter b a
unfolding key_le
not_key_le-StartsAfter a b h = ground arith

insert-All :
    (a b : Interval) (xs : List Interval)
    → StartsAfter a b
    → All (StartsAfter a) xs
    → All (StartsAfter a) (insert_interval b xs)
unfolding insert_interval
insert-All a b [] h all = (h, tt)
insert-All a b (c ∷ xs) h all = elim (Bool-cases (key_le b c)) [
  | inl le ↦ rw le (h, all)
  | inr gt ↦ rw gt (all.0, insert-All a b xs h all.1)
]

StartsAfter-trans :
    (a b : Interval) (xs : List Interval)
    → StartsAfter a b
    → All (StartsAfter b) xs
    → All (StartsAfter a) xs
StartsAfter-trans a b xs h all = All-map (λ c le. omega arith) xs all

insert-IsSorted :
    (a : Interval) (xs : List Interval) → IsSorted xs → IsSorted (insert_interval a xs)
unfolding insert_interval
insert-IsSorted a [] h = (tt, tt)
insert-IsSorted a (b ∷ xs) h = elim (Bool-cases (key_le a b)) [
  | inl le ↦
      let before = key_le-StartsAfter a b le in
      rw le ((before, StartsAfter-trans a b xs before h.0), h)
  | inr gt ↦ rw gt (insert-All b a xs (not_key_le-StartsAfter a b gt) h.0, insert-IsSorted a xs h.1)
]

sort-IsSorted : (xs : List Interval) → IsSorted (sort_intervals xs)
unfolding sort_intervals
sort-IsSorted [] = tt
sort-IsSorted (a ∷ xs) = insert-IsSorted a (sort_intervals xs) (sort-IsSorted xs)

running_at-insert :
    (t : ℕ) (a : Interval) (xs : List Interval)
    → running_at t (insert_interval a xs) ≡ runs_at t a + running_at t xs
unfolding insert_interval
running_at-insert t a [] = refl
running_at-insert t a (b ∷ xs) = elim (Bool-cases (key_le a b)) [
  | inl le ↦ rw le refl
  | inr gt ↦ rw (gt, running_at-insert t a xs) (omega arith)
]

running_at-sort : (t : ℕ) (xs : List Interval) → running_at t (sort_intervals xs) ≡ running_at t xs
unfolding sort_intervals
running_at-sort t [] = refl
running_at-sort t (a ∷ xs) =
    running_at-insert t a (sort_intervals xs) ∙ ap (λ n. runs_at t a + n) (running_at-sort t xs)

-- An assigned lane is below the number of intervals that run when it is taken; an interval that
-- closes where it starts does not count itself.
abbrev Bounded : List ℕ → List Interval → Interval × ℕ → Type 0
Bounded ends xs (a, lane) =
    lane + (if ltb a.start_us (closes a) then 1 else 0)
    ≤ busy_at a.start_us ends + running_at a.start_us xs

Bounded-weaken :
    (ends : List ℕ) (xs : List Interval) (a : Interval) (x : Interval × ℕ)
    → Bounded ends xs x
    → Bounded ends (a ∷ xs) x
Bounded-weaken ends xs a (b, lane) h = omega arith

Bounded-place :
    (ends : List ℕ) (xs : List Interval) (a : Interval) (x : Interval × ℕ)
    → leb a.start_us 0 ≡ false
    → StartsAfter a x.0 × Bounded (place ends a.start_us (closes a)).1 xs x
    → Bounded ends (a ∷ xs) x
Bounded-place ends xs a (b, lane) keep (after, h) =
    let kept = busy_at-place ends a.start_us (closes a) b.start_us in ground arith

All-zip {ℓ κ} :
    {A : Type ℓ} (P Q : A → Type κ) (xs : List A) → All P xs → All Q xs → All (λ x. P x × Q x) xs
All-zip P Q [] p q = tt
All-zip P Q (x ∷ xs) p q = ((p.0, q.0), All-zip P Q xs p.1 q.1)

assign_lanes-Bounded :
    (xs : List Interval) (ends : List ℕ)
    → IsSorted xs
    → All (Bounded ends xs) (assign_lanes xs ends)
unfolding assign_lanes
assign_lanes-Bounded [] ends sorted = tt
assign_lanes-Bounded (a ∷ xs) ends sorted = elim (Bool-cases (leb a.start_us 0)) [
  | inl skip ↦
      rw skip (All-map (Bounded-weaken ends xs a) _ (assign_lanes-Bounded xs ends sorted.1))
  | inr keep ↦
      let ends' = (place ends a.start_us (closes a)).1 in
      rw keep (
        (let own = lane-le-busy ends a.start_us (closes a) in ground arith),
        All-map (λ x. Bounded-place ends xs a x keep) _
            (All-zip _ _ (assign_lanes xs ends')
              (assign_lanes-All (StartsAfter a) xs ends' sorted.0)
              (assign_lanes-Bounded xs ends' sorted.1)),
      )
]

-- If the ids of the intervals are distinct, `allocate_lanes` gives every one of them that does not
-- start at zero a lane, whose number is at most the number of intervals that run at its start, and
-- less than it if the interval itself closes after its start.
pub lane-le-running :
    (xs : List Interval) (a : Interval)
    → Unique (item_ids xs)
    → In a xs
    → 0 < a.start_us
    → (lane : ℕ) × (get (allocate_lanes xs) a.item_id ≡ some lane)
      × (lane + (if ltb a.start_us (closes a) then 1 else 0) ≤ running_at a.start_us xs)
lane-le-running xs a u i positive =
    let (lane, h) = get-allocate_lanes xs a i (ground arith) in
    let sorted = sort_intervals xs in
    let bound =
      All-In (Bounded [] sorted) (assign_lanes-Bounded sorted [] (sort-IsSorted xs))
        (lane-In xs a lane u i h) in
    (lane, h, (let same = running_at-sort a.start_us xs in omega arith))
