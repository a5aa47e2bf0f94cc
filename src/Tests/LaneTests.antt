-- ===== src/Tests/LaneTests.antt =====
-- Lanes of atsuite/analysis/timeline.py on concrete intervals.
use atsuite.Base.{first, later, ℕ, some, ◌≡◌, ◌≤◌, ◌+◌, ◌⊎◌, refl, List, [], ◌∷◌, arith, nat_eq}
use atsuite.Base.Dict.{get}
use atsuite.Analysis.Lanes.{Interval, allocate_lanes}
use atsuite.Analysis.Lanes.Disjoint.{one_lane-disjoint}
use atsuite.Analysis.Lanes.Minimal.{lane-le-running}
use atsuite.Analysis.Lanes.Members.{item_ids}
use atsuite.Base.Sets.{elem, Unique}

abbrev calls : List Interval
calls =
    record { item_id = 1; start_us = 50; end_us = 80 }
    ∷ record { item_id = 2; start_us = 10; end_us = 60 }
    ∷ record { item_id = 3; start_us = 60; end_us = 90 }
    ∷ record { item_id = 4; start_us = 0; end_us = 5 }
    ∷ []

lanes_test : allocate_lanes calls ≡ (2, 0) ∷ (1, 1) ∷ (3, 0) ∷ []
unfolding nat_eq allocate_lanes
lanes_test = refl

calls_distinct : Unique (item_ids calls)
unfolding elem nat_eq
calls_distinct = (refl, (refl, (refl, (refl, tt))))

one_lane-disjoint_example : (60 ≤ 60) ⊎ (90 ≤ 10)
unfolding nat_eq allocate_lanes get
one_lane-disjoint_example =
    one_lane-disjoint calls (record { item_id = 2; start_us = 10; end_us = 60 })
      (record { item_id = 3; start_us = 60; end_us = 90 }) 0 calls_distinct (later first)
      (later (later first)) (λ h. absurd (omega arith)) refl refl

lane-le-running_example : (lane : ℕ) × (get (allocate_lanes calls) 1 ≡ some lane) × (lane + 1 ≤ 2)
unfolding nat_eq
lane-le-running_example =
    lane-le-running calls (record { item_id = 1; start_us = 50; end_us = 80 }) calls_distinct first
      (omega arith)
