-- ===== src/Base/Sets.antt =====
-- Python's `set` and `deque` as lists: membership, insertion, removal of one occurrence.
pub mod Removal
pub mod Sorted
pub mod Keys
use Prim.Native.Nat.{ℕ, suc, ◌+◌, ◌≤◌, ◌<◌}
use mathlib.Core.Path.{◌≡◌, refl}
use mathlib.Core.Logic.{ite}
use mathlib.Core.Bool.{Bool, true, false, ◌||◌}
use mathlib.Core.List.{List, [], ◌∷◌, ◌++◌}
use native.Mathlib.Omega.{arith}
use atsuite.Base.Tests.{if◌then◌else◌}
use atsuite.Base.Keys.{Eq, ◌==◌}
use atsuite.Base.Lists.{length, length-append}

module _ {ℓ} {A : Type ℓ} ⦃e : Eq A⦄ where
  -- `a in xs`
  unfoldable pub elem : List A → A → Bool
  elem [] a = false
  elem (x ∷ xs) a = x == a || elem xs a

  -- `xs.add(a)`
  unfoldable pub add : List A → A → List A
  unfolding elem
  add xs a = if elem xs a then xs else a ∷ xs

  -- `xs.discard(a)` on a set
  unfoldable pub discard : List A → A → List A
  discard [] a = []
  discard (x ∷ xs) a = let rest = discard xs a in if x == a then rest else x ∷ rest

  -- `xs.remove(a)` on a deque: the first occurrence goes
  unfoldable pub remove : List A → A → List A
  remove [] a = []
  remove (x ∷ xs) a = if x == a then xs else x ∷ remove xs a

  -- how often `a` occurs
  unfoldable pub count : List A → A → ℕ
  count [] a = 0
  count (x ∷ xs) a = if x == a then suc (count xs a) else count xs a

  -- No item occurs twice.
  abbrev pub Unique : List A → Type 0
  Unique [] = Unit {0}
  Unique (x ∷ xs) = (elem xs x ≡ false) × Unique xs

  pub elem-append : (xs ys : List A) (a : A) → elem (xs ++ ys) a ≡ (elem xs a || elem ys a)
  unfolding elem
  elem-append [] ys a = refl
  elem-append (x ∷ xs) ys a = ground (arith, elem-append xs ys a)

  pub elem-add : (xs : List A) (b a : A) → elem (add xs b) a ≡ (b == a || elem xs a)
  unfolding elem add
  elem-add xs b a = ground arith

  pub elem-discard :
      (xs : List A) (b a : A) → elem (discard xs b) a ≡ (if b == a then false else elem xs a)
  unfolding elem discard
  elem-discard [] b a = ground arith
  elem-discard (x ∷ xs) b a = ground (arith, elem-discard xs b a)

  pub count-append : (xs ys : List A) (a : A) → count (xs ++ ys) a ≡ count xs a + count ys a
  unfolding count
  count-append [] ys a = omega arith
  count-append (x ∷ xs) ys a = ground (arith, count-append xs ys a)

  -- Removal of an item that is there takes away one occurrence of it, and nothing else.
  pub count-remove :
      (xs : List A) (b a : A)
      → elem xs b ≡ true
      → count xs a ≡ count (remove xs b) a + (if b == a then 1 else 0)
  unfolding elem remove count
  count-remove [] b a h = ground arith
  count-remove (x ∷ xs) b a h = ground (arith, count-remove xs b a)

  pub length-remove :
      (xs : List A) (b : A) → elem xs b ≡ true → length xs ≡ suc (length (remove xs b))
  unfolding elem remove
  length-remove [] b h = ground arith
  length-remove (x ∷ xs) b h = ground (arith, length-remove xs b)

  pub elem-count : (xs : List A) (a : A) → elem xs a ≡ true → 0 < count xs a
  unfolding elem count
  elem-count [] a h = ground arith
  elem-count (x ∷ xs) a h = ground (arith, elem-count xs a)

  pub count-not_elem : (xs : List A) (a : A) → elem xs a ≡ false → count xs a ≡ 0
  unfolding elem count
  count-not_elem [] a h = refl
  count-not_elem (x ∷ xs) a h = ground (arith, count-not_elem xs a)
