-- ===== src/Base/Sets/Sorted.antt =====
-- `sorted` of Python on a set of numbers.
use Prim.Native.Nat.{ℕ, suc}
use mathlib.Core.Path.{◌≡◌, refl, ◌∙◌}
use mathlib.Core.Bool.{◌||◌, false}
use mathlib.Core.List.{List, [], ◌∷◌}
use native.Mathlib.Omega.{arith}
use atsuite.Base.Tests.{leb, if◌then◌else◌}
use atsuite.Base.Keys.{◌==◌, nat_eq}
use atsuite.Base.Lists.{length}
use atsuite.Base.Sets.{elem, Unique}

insert_sorted : ℕ → List ℕ → List ℕ
insert_sorted n [] = n ∷ []
insert_sorted n (m ∷ ids) = if leb n m then n ∷ m ∷ ids else m ∷ insert_sorted n ids

-- `sorted(ids)`
unfoldable pub sorted : List ℕ → List ℕ
unfolding insert_sorted
sorted [] = []
sorted (n ∷ ids) = insert_sorted n (sorted ids)

elem-insert_sorted :
    (n : ℕ) (ids : List ℕ) (a : ℕ) → elem (insert_sorted n ids) a ≡ (n == a || elem ids a)
unfolding elem insert_sorted
elem-insert_sorted n [] a = refl
elem-insert_sorted n (m ∷ ids) a = ground (arith, elem-insert_sorted n ids a)

length-insert_sorted : (n : ℕ) (ids : List ℕ) → length (insert_sorted n ids) ≡ suc (length ids)
unfolding insert_sorted
length-insert_sorted n [] = refl
length-insert_sorted n (m ∷ ids) = ground (arith, length-insert_sorted n ids)

pub length-sorted : (ids : List ℕ) → length (sorted ids) ≡ length ids
unfolding sorted
length-sorted [] = refl
length-sorted (n ∷ ids) = omega (arith, length-insert_sorted n (sorted ids), length-sorted ids)

pub elem-sorted : (ids : List ℕ) (a : ℕ) → elem (sorted ids) a ≡ elem ids a
unfolding elem sorted
elem-sorted [] a = refl
elem-sorted (n ∷ ids) a = ground (arith, elem-insert_sorted n (sorted ids) a, elem-sorted ids a)

Unique-insert_sorted :
    (n : ℕ) (ids : List ℕ) → elem ids n ≡ false → Unique ids → Unique (insert_sorted n ids)
unfolding elem insert_sorted
Unique-insert_sorted n [] h u = (refl, tt)
Unique-insert_sorted n (m ∷ ids) h u =
    ground (arith, Unique-insert_sorted n ids, elem-insert_sorted n ids m)

pub Unique-sorted : (ids : List ℕ) → Unique ids → Unique (sorted ids)
unfolding sorted
Unique-sorted [] u = tt
Unique-sorted (n ∷ ids) u =
    Unique-insert_sorted n (sorted ids) (elem-sorted ids n ∙ u.0) (Unique-sorted ids u.1)
