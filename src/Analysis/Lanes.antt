-- ===== src/Analysis/Lanes.antt =====
-- `TimelineBuilder._allocate_lanes` of atsuite/analysis/timeline.py: intervals of microseconds are
-- dealt to lanes, first fit, in the order of their starts.
pub mod Placement
pub mod Members
pub mod Disjoint
pub mod Minimal
use atsuite.Base.{
  ℕ, zero, suc, Bool, true, false, ◌&&◌, ◌||◌, not, List, [], ◌∷◌, ltb, leb, nat_eq, if◌then◌else◌,
  max, ◌==◌,
}
use atsuite.Base.Dict.{Dict, put}

-- `(item_id, start_us, end_us)`
pub record Interval : Type 0 where
  pub item_id : ℕ
  pub start_us : ℕ
  pub end_us : ℕ

-- `key=lambda item: (item[1], item[2], item[0])`, compared as Python compares tuples
unfoldable pub key_le : Interval → Interval → Bool
key_le a b =
    if ltb a.start_us b.start_us
    then true
    else if ltb b.start_us a.start_us
    then false
    else if ltb a.end_us b.end_us
    then true
    else if ltb b.end_us a.end_us
    then false
    else leb a.item_id b.item_id

unfoldable pub insert_interval : Interval → List Interval → List Interval
unfolding key_le
insert_interval a [] = a ∷ []
insert_interval a (b ∷ rest) = if key_le a b then a ∷ b ∷ rest else b ∷ insert_interval a rest

-- `sorted(intervals, key=…)`
unfoldable pub sort_intervals : List Interval → List Interval
unfolding insert_interval
sort_intervals [] = []
sort_intervals (a ∷ rest) = insert_interval a (sort_intervals rest)

-- The lane of an interval, and the ends of the lanes after it: the first lane that is free at its
-- start, or a new one.
unfoldable pub place : List ℕ → ℕ → ℕ → ℕ × List ℕ
place [] start end_us = (0, end_us ∷ [])
place (lane_end ∷ ends) start end_us =
    let (index, ends') = place ends start end_us in
    if leb lane_end start then (0, end_us ∷ ends) else (suc index, lane_end ∷ ends')

-- The loop over the sorted intervals; `continue` at a start of zero.
unfoldable pub assign_lanes : List Interval → List ℕ → List (Interval × ℕ)
unfolding place
assign_lanes [] ends = []
assign_lanes (a ∷ rest) ends =
    let skipped = assign_lanes rest ends in
    let (lane, ends') = place ends a.start_us (max a.start_us a.end_us) in
    let placed = assign_lanes rest ends' in if leb a.start_us 0 then skipped else (a, lane) ∷ placed

-- `lanes[item_id] = assigned`
unfoldable pub lanes_onto : Dict ℕ ℕ → List (Interval × ℕ) → Dict ℕ ℕ
unfolding put
lanes_onto lanes [] = lanes
lanes_onto lanes ((a, lane) ∷ rest) = lanes_onto (put lanes a.item_id lane) rest

-- TimelineBuilder._allocate_lanes
unfoldable pub allocate_lanes : List Interval → Dict ℕ ℕ
unfolding sort_intervals assign_lanes lanes_onto
allocate_lanes intervals = lanes_onto [] (assign_lanes (sort_intervals intervals) [])
