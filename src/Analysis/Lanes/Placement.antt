-- ===== src/Analysis/Lanes/Placement.antt =====
-- One interval put into the first lane that is free.
use atsuite.Base.{
  ℕ, zero, suc, ◌+◌, ◌≤◌, ◌≡◌, refl, List, [], ◌∷◌, Option, none, some, ltb, leb, if◌then◌else◌,
  arith, Bool-cases, inl, inr,
}
use atsuite.Analysis.Lanes.{place}

-- The end of a lane that is open.
abbrev pub get_elem? : List ℕ → ℕ → Option ℕ
get_elem? [] i = none
get_elem? (x ∷ xs) zero = some x
get_elem? (x ∷ xs) (suc i) = get_elem? xs i

-- A lane that was open before has ended by the start.
pub place_free :
    (ends : List ℕ) (s e last : ℕ) → get_elem? ends (place ends s e).0 ≡ some last → last ≤ s
unfolding place
place_free [] s e last h = cc
place_free (x ∷ ends) s e last h = elim (Bool-cases (leb x s)) [
  | inl free ↦ ground arith
  | inr busy ↦ place_free ends s e last (rw (busy, place) at h)
]

-- The lane now ends where the interval does.
pub place_end : (ends : List ℕ) (s e : ℕ) → get_elem? (place ends s e).1 (place ends s e).0 ≡ some e
unfolding place
place_end [] s e = refl
place_end (x ∷ ends) s e = ground (arith, place_end ends s e)

-- Every lane ends no earlier than before.
pub place_mono :
    (ends : List ℕ) (s e i last : ℕ)
    → s ≤ e
    → get_elem? ends i ≡ some last
    → (later : ℕ) × (get_elem? (place ends s e).1 i ≡ some later) × (last ≤ later)
unfolding place
place_mono [] s e i last h g = cc
place_mono (x ∷ ends) s e zero last h g = elim (Bool-cases (leb x s)) [
  | inl free ↦ (e, ground arith, ground arith)
  | inr busy ↦ (last, ground arith, omega arith)
]
place_mono (x ∷ ends) s e (suc i) last h g = elim (Bool-cases (leb x s)) [
  | inl free ↦ (last, ground arith, omega arith)
  | inr busy ↦
      let (later, at, le) = place_mono ends s e i last h g in (later, ground (arith, at), le)
]

-- How many lanes end after `t`.
abbrev pub busy_at : ℕ → List ℕ → ℕ
busy_at t [] = 0
busy_at t (x ∷ ends) = (if ltb t x then 1 else 0) + busy_at t ends

-- First fit: all lanes in front of the one taken are busy at the start.
pub lane-le-busy : (ends : List ℕ) (s e : ℕ) → (place ends s e).0 ≤ busy_at s ends
unfolding place
lane-le-busy [] s e = omega arith
lane-le-busy (x ∷ ends) s e = ground (arith, lane-le-busy ends s e)

pub busy_at-place :
    (ends : List ℕ) (s e t : ℕ)
    → busy_at t (place ends s e).1 ≤ busy_at t ends + (if ltb t e then 1 else 0)
unfolding place
busy_at-place [] s e t = ground arith
busy_at-place (x ∷ ends) s e t = ground (arith, busy_at-place ends s e t)
