-- ===== src/Analysis/Lanes/Members.antt =====
-- Which intervals `_allocate_lanes` (atsuite/analysis/timeline.py) gives a lane, and under which id.
use atsuite.Base.{
  In, first, later, All, All-map, All-In, ℕ, ◌≡◌, refl, sym, subst, max, ◌⊎◌, true, false, List, [],
  ◌∷◌, some, none, leb, arith, Bool-cases, inl, inr, nat_eq,
}
use atsuite.Base.Dict.{Dict, get, put, get-put, get-nil}
use atsuite.Base.Sets.{elem, Unique}
use atsuite.Analysis.Lanes.{
  Interval, key_le, insert_interval, place, assign_lanes, lanes_onto, sort_intervals,
  allocate_lanes,
}

-- The end that the code gives an interval.
abbrev pub closes : Interval → ℕ
closes a = max a.start_us a.end_us

abbrev pub item_ids : List Interval → List ℕ
item_ids [] = []
item_ids (a ∷ xs) = a.item_id ∷ item_ids xs

insert_interval-All :
    (P : Interval → Type 0) (a : Interval) (xs : List Interval)
    → P a
    → All P xs
    → All P (insert_interval a xs)
unfolding insert_interval
insert_interval-All P a [] p all = (p, tt)
insert_interval-All P a (b ∷ xs) p all = elim (Bool-cases (key_le a b)) [
  | inl le ↦ rw le (p, all)
  | inr gt ↦ rw gt (all.0, insert_interval-All P a xs p all.1)
]

sort_intervals-All :
    (P : Interval → Type 0) (xs : List Interval) → All P xs → All P (sort_intervals xs)
unfolding sort_intervals
sort_intervals-All P [] all = tt
sort_intervals-All P (a ∷ xs) all =
    insert_interval-All P a (sort_intervals xs) all.0 (sort_intervals-All P xs all.1)

-- What the dictionary says of an item is one of its assignments.
record Assigned (item lane : ℕ) (xs : List (Interval × ℕ)) : Type 0 where
  interval : Interval
  id : interval.item_id ≡ item
  at : In (interval, lane) xs

Assigned-later :
    (item lane : ℕ) (x : Interval × ℕ) (xs : List (Interval × ℕ))
    → Assigned item lane xs
    → Assigned item lane (x ∷ xs)
Assigned-later item lane x xs a = record { interval = a.interval; id = a.id; at = later a.at }

lanes_onto-Assigned :
    (lanes : Dict ℕ ℕ) (xs : List (Interval × ℕ)) (item lane : ℕ)
    → get (lanes_onto lanes xs) item ≡ some lane
    → (get lanes item ≡ some lane) ⊎ Assigned item lane xs
unfolding lanes_onto
lanes_onto-Assigned lanes [] item lane h = inl h
lanes_onto-Assigned lanes ((a, l) ∷ rest) item lane h =
    elim (lanes_onto-Assigned (put lanes a.item_id l) rest item lane h) [
      | inr found ↦ inr (Assigned-later item lane (a, l) rest found)
      | inl old ↦ elim (nat_eq.dec a.item_id item) [
        | yes same ↦
            let lane_same : l ≡ lane = ground (arith, get-put lanes a.item_id item l) in
            inr (record {
              interval = a;
              id = same;
              at = subst (λ m. In (a, m) ((a, l) ∷ rest)) lane_same first;
            })
        | no other ↦ inl (ground (arith, get-put lanes a.item_id item l))
      ]
    ]

-- The assignment behind an entry of the result.
lane-Assigned :
    (xs : List Interval) (item lane : ℕ)
    → get (allocate_lanes xs) item ≡ some lane
    → Assigned item lane (assign_lanes (sort_intervals xs) [])
unfolding allocate_lanes
lane-Assigned xs item lane h =
    elim (lanes_onto-Assigned [] (assign_lanes (sort_intervals xs) []) item lane h) [
      | inl old ↦ let bad : get {V = ℕ} [] item ≡ none = get-nil item in absurd (ground arith)
      | inr found ↦ found
    ]

In-insert_self : (a : Interval) (xs : List Interval) → In a (insert_interval a xs)
unfolding insert_interval
In-insert_self a [] = first
In-insert_self a (b ∷ xs) = elim (Bool-cases (key_le a b)) [
  | inl le ↦ rw le first
  | inr gt ↦ rw gt (later (In-insert_self a xs))
]

In-insert : (a x : Interval) (xs : List Interval) → In x xs → In x (insert_interval a xs)
unfolding insert_interval
In-insert a x [] h = elim h [ ]
In-insert a x (b ∷ xs) first = elim (Bool-cases (key_le a b)) [
  | inl le ↦ rw le (later first)
  | inr gt ↦ rw gt first
]
In-insert a x (b ∷ xs) (later h) = elim (Bool-cases (key_le a b)) [
  | inl le ↦ rw le (later (later h))
  | inr gt ↦ rw gt (later (In-insert a x xs h))
]

In-sort : (x : Interval) (xs : List Interval) → In x xs → In x (sort_intervals xs)
unfolding sort_intervals
In-sort x [] h = elim h [ ]
In-sort x (_ ∷ xs) first = In-insert_self x (sort_intervals xs)
In-sort x (a ∷ xs) (later h) = In-insert a x (sort_intervals xs) (In-sort x xs h)

pub assign_lanes-All :
    (P : Interval → Type 0) (xs : List Interval) (ends : List ℕ)
    → All P xs
    → All (λ (x : Interval × ℕ). P x.0) (assign_lanes xs ends)
unfolding assign_lanes
assign_lanes-All P [] ends all = tt
assign_lanes-All P (a ∷ xs) ends all = elim (Bool-cases (leb a.start_us 0)) [
  | inl skip ↦ rw skip (assign_lanes-All P xs ends all.1)
  | inr keep ↦ rw keep (all.0, assign_lanes-All P xs (place ends a.start_us (closes a)).1 all.1)
]

All-self : (xs : List Interval) → All (λ a. In a xs) xs
All-self [] = tt
All-self (a ∷ xs) = (first, All-map (λ b h. later h) xs (All-self xs))

elem-item_ids : (a : Interval) (xs : List Interval) → In a xs → elem (item_ids xs) a.item_id ≡ true
unfolding elem
elem-item_ids a [] h = elim h [ ]
elem-item_ids a (_ ∷ xs) first = ground arith
elem-item_ids a (b ∷ xs) (later h) = ground (arith, elem-item_ids a xs h)

-- An interval is known by its id.
same_id :
    (a b : Interval) (xs : List Interval)
    → Unique (item_ids xs)
    → In a xs
    → In b xs
    → a.item_id ≡ b.item_id
    → a ≡ b
same_id a b xs u first first e = refl
same_id a b (_ ∷ xs) u first (later j) e =
    let there = elem-item_ids b xs j in
    let absent = subst (λ i. elem (item_ids xs) i ≡ false) e u.0 in absurd (ground arith)
same_id a b (_ ∷ xs) u (later i) first e =
    let there = elem-item_ids a xs i in
    let absent = subst (λ n. elem (item_ids xs) n ≡ false) (sym e) u.0 in absurd (ground arith)
same_id a b (_ ∷ xs) u (later i) (later j) e = same_id a b xs u.1 i j e

-- If the ids are distinct, the entry under the id of an interval is that interval's.
pub lane-In :
    (xs : List Interval) (a : Interval) (lane : ℕ)
    → Unique (item_ids xs)
    → In a xs
    → get (allocate_lanes xs) a.item_id ≡ some lane
    → In (a, lane) (assign_lanes (sort_intervals xs) [])
lane-In xs a lane u i h =
    let p = lane-Assigned xs a.item_id lane h in
    let inside =
      assign_lanes-All (λ b. In b xs) (sort_intervals xs) []
        (sort_intervals-All (λ b. In b xs) xs (All-self xs)) in
    let j = All-In (λ (x : Interval × ℕ). In x.0 xs) inside p.at in
    subst (λ b. In (b, lane) (assign_lanes (sort_intervals xs) []))
      (same_id p.interval a xs u j i p.id) p.at

assign_lanes-In :
    (xs : List Interval) (ends : List ℕ) (a : Interval)
    → In a xs
    → leb a.start_us 0 ≡ false
    → (lane : ℕ) × In (a, lane) (assign_lanes xs ends)
unfolding assign_lanes
assign_lanes-In [] ends a h n = elim h [ ]
assign_lanes-In (_ ∷ xs) ends a first n = rw n ((place ends a.start_us (closes a)).0, first)
assign_lanes-In (b ∷ xs) ends a (later h) n = elim (Bool-cases (leb b.start_us 0)) [
  | inl skip ↦ rw skip (assign_lanes-In xs ends a h n)
  | inr keep ↦
      let (lane, i) = assign_lanes-In xs (place ends b.start_us (closes b)).1 a h n in
      rw keep (lane, later i)
]

lanes_onto-has :
    (lanes : Dict ℕ ℕ) (xs : List (Interval × ℕ)) (item lane : ℕ)
    → get lanes item ≡ some lane
    → (l : ℕ) × (get (lanes_onto lanes xs) item ≡ some l)
unfolding lanes_onto
lanes_onto-has lanes [] item lane h = (lane, h)
lanes_onto-has lanes ((a, l) ∷ xs) item lane h = elim (nat_eq.dec a.item_id item) [
  | yes same ↦
      lanes_onto-has (put lanes a.item_id l) xs item l
        (ground (arith, get-put lanes a.item_id item l))
  | no differ ↦
      lanes_onto-has (put lanes a.item_id l) xs item lane
        (ground (arith, get-put lanes a.item_id item l))
]

lanes_onto-In :
    (lanes : Dict ℕ ℕ) (xs : List (Interval × ℕ)) (a : Interval) (lane : ℕ)
    → In (a, lane) xs
    → (l : ℕ) × (get (lanes_onto lanes xs) a.item_id ≡ some l)
unfolding lanes_onto
lanes_onto-In lanes [] a lane h = elim h [ ]
lanes_onto-In lanes (_ ∷ xs) a lane first =
    lanes_onto-has (put lanes a.item_id lane) xs a.item_id lane
      (ground (arith, get-put lanes a.item_id a.item_id lane))
lanes_onto-In lanes ((b, l) ∷ xs) a lane (later h) =
    lanes_onto-In (put lanes b.item_id l) xs a lane h

-- Every interval that does not start at zero has a lane.
pub get-allocate_lanes :
    (xs : List Interval) (a : Interval)
    → In a xs
    → leb a.start_us 0 ≡ false
    → (lane : ℕ) × (get (allocate_lanes xs) a.item_id ≡ some lane)
unfolding allocate_lanes
get-allocate_lanes xs a i n =
    let (lane, j) = assign_lanes-In (sort_intervals xs) [] a (In-sort a xs i) n in
    lanes_onto-In [] (assign_lanes (sort_intervals xs) []) a lane j
