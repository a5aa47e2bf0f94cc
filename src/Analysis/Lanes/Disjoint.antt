-- ===== src/Analysis/Lanes/Disjoint.antt =====
-- The intervals of one lane of `_allocate_lanes` (atsuite/analysis/timeline.py).
use atsuite.Base.{
  In, first, later, All-In, ℕ, ◌≤◌, ◌≡◌, ◌≢◌, refl, List, [], ◌∷◌, some, leb, arith, Bool-cases,
  inl, inr, ◌⊎◌, All, All-map, max, nat_eq, ap, sym, ◌∙◌,
}
use atsuite.Base.Dict.{get}
use atsuite.Analysis.Lanes.{Interval, place, assign_lanes, sort_intervals, allocate_lanes}
use atsuite.Analysis.Lanes.Members.{closes, item_ids, lane-In}
use atsuite.Base.Sets.{Unique}
use atsuite.Analysis.Lanes.Placement.{get_elem?, place_free, place_end, place_mono}

-- If its lane is open, the interval starts when that lane has ended.
abbrev Fits : List ℕ → Interval × ℕ → Type 0
Fits ends (a, lane) = (last : ℕ) → get_elem? ends lane ≡ some last → last ≤ a.start_us

Fits-place :
    (ends : List ℕ) (s e : ℕ) (x : Interval × ℕ) → s ≤ e → Fits (place ends s e).1 x → Fits ends x
Fits-place ends s e (a, lane) h fits last at =
    let (end_us, at_end, le) = place_mono ends s e lane last h at in
    omega (arith, fits end_us at_end)

assign_lanes-Fits : (xs : List Interval) (ends : List ℕ) → All (Fits ends) (assign_lanes xs ends)
unfolding assign_lanes
assign_lanes-Fits [] ends = tt
assign_lanes-Fits (a ∷ rest) ends = elim (Bool-cases (leb a.start_us 0)) [
  | inl skip ↦ rw skip (assign_lanes-Fits rest ends)
  | inr keep ↦
      let e = max a.start_us a.end_us in
      rw keep (
        (λ last at. place_free ends a.start_us e last at),
        All-map (λ x. Fits-place ends a.start_us e x (omega arith)) _
            (assign_lanes-Fits rest (place ends a.start_us e).1),
      )
]

-- Of two assignments to one lane, the later in the list starts when the earlier has ended.
abbrev pub After : Interval × ℕ → Interval × ℕ → Type 0
After (a, lane) (b, other) = lane ≡ other → closes a ≤ b.start_us

abbrev pub Apart : List (Interval × ℕ) → Type 0
Apart [] = Unit {0}
Apart (x ∷ rest) = All (After x) rest × Apart rest

After-place :
    (ends : List ℕ) (a : Interval) (x : Interval × ℕ)
    → Fits (place ends a.start_us (closes a)).1 x
    → After (a, (place ends a.start_us (closes a)).0) x
After-place ends a (b, other) fits same = fits (closes a) (
    ap (get_elem? (place ends a.start_us (closes a)).1) (sym same)
    ∙ place_end ends a.start_us (closes a))

pub assign_lanes-Apart : (xs : List Interval) (ends : List ℕ) → Apart (assign_lanes xs ends)
unfolding assign_lanes
assign_lanes-Apart [] ends = tt
assign_lanes-Apart (a ∷ rest) ends = elim (Bool-cases (leb a.start_us 0)) [
  | inl skip ↦ rw skip (assign_lanes-Apart rest ends)
  | inr keep ↦
      let ends' = (place ends a.start_us (closes a)).1 in
      rw keep (
        All-map (After-place ends a) _ (assign_lanes-Fits rest ends'),
        assign_lanes-Apart rest ends',
      )
]

Apart-In :
    (x y : Interval × ℕ) {xs : List (Interval × ℕ)}
    → Apart xs
    → In x xs
    → In y xs
    → x.0.item_id ≢ y.0.item_id
    → After x y ⊎ After y x
Apart-In x y h first first n = absurd (n refl)
Apart-In x y h first (later j) n = inl (All-In (After x) h.0 j)
Apart-In x y h (later i) first n = inr (All-In (After y) h.0 i)
Apart-In x y h (later i) (later j) n = Apart-In x y h.1 i j n

-- If the ids of the intervals are distinct and `allocate_lanes` gives two of them the same lane,
-- one of the two is closed by the time the other starts.
pub one_lane-disjoint :
    (xs : List Interval) (a b : Interval) (lane : ℕ)
    → Unique (item_ids xs)
    → In a xs
    → In b xs
    → a.item_id ≢ b.item_id
    → get (allocate_lanes xs) a.item_id ≡ some lane
    → get (allocate_lanes xs) b.item_id ≡ some lane
    → (closes a ≤ b.start_us) ⊎ (closes b ≤ a.start_us)
one_lane-disjoint xs a b lane u i j n h k =
    let apart =
      Apart-In (a, lane) (b, lane) (assign_lanes-Apart (sort_intervals xs) [])
        (lane-In xs a lane u i h) (lane-In xs b lane u j k) n in
    elim apart [ inl before ↦ inl (before refl) | inr after ↦ inr (after refl) ]
