-- ===== src/Base/Sets/Removal.antt =====
-- Removal of one occurrence, lists without repetition, and their lengths.
use Prim.Native.Nat.{◌≤◌}
use mathlib.Core.Path.{◌≡◌, refl, ap}
use mathlib.Core.Logic.{◌≢◌}
use mathlib.Core.Bool.{true, false}
use mathlib.Core.List.{List, [], ◌∷◌, ◌++◌}
use native.Mathlib.Omega.{arith}
use atsuite.Base.Keys.{Eq}
use atsuite.Base.Lists.{length}
use atsuite.Base.Sets.{elem, remove, Unique, length-remove, elem-append}

module _ {ℓ} {A : Type ℓ} ⦃e : Eq A⦄ where
  pub elem-remove_ne : (xs : List A) (b a : A) → b ≢ a → elem (remove xs b) a ≡ elem xs a
  unfolding elem remove
  elem-remove_ne [] b a h = refl
  elem-remove_ne (x ∷ xs) b a h = ground (arith, elem-remove_ne xs b a)

  pub not_elem-remove : (xs : List A) (b a : A) → elem xs a ≡ false → elem (remove xs b) a ≡ false
  unfolding elem remove
  not_elem-remove [] b a h = refl
  not_elem-remove (x ∷ xs) b a h = ground (arith, not_elem-remove xs b a)

  pub elem-remove_self : (xs : List A) (b : A) → Unique xs → elem (remove xs b) b ≡ false
  unfolding elem remove
  elem-remove_self [] b u = refl
  elem-remove_self (x ∷ xs) b u = ground (arith, elem-remove_self xs b)

  pub Unique-remove : (xs : List A) (b : A) → Unique xs → Unique (remove xs b)
  unfolding elem remove
  Unique-remove [] b u = tt
  Unique-remove (x ∷ xs) b u = ground (arith, Unique-remove xs b, not_elem-remove xs b x)

  pub Unique-append_singleton :
      (xs : List A) (b : A) → Unique xs → elem xs b ≡ false → Unique (xs ++ b ∷ [])
  unfolding elem
  Unique-append_singleton [] b u h = (refl, tt)
  Unique-append_singleton (x ∷ xs) b u h =
      (ground (arith, elem-append xs (b ∷ []) x), Unique-append_singleton xs b u.1 (ground arith))

  -- The place of the first occurrence.
  pub remove-split :
      (xs : List A) (b : A)
      → elem xs b ≡ true
      → (front : List A) × (back : List A) × (xs ≡ front ++ b ∷ back)
        × (remove xs b ≡ front ++ back)
  unfolding elem remove
  remove-split [] b h = cc
  remove-split (x ∷ xs) b h = elim (e.dec x b) [
    | yes p ↦ ([], xs, ap (λ y. y ∷ xs) p, ground arith)
    | no n ↦
        let (front, back, p, q) = remove-split xs b (ground arith) in
        (x ∷ front, back, ap (◌∷◌ x) p, ground arith)
  ]

  -- A set inside another has no more items.
  pub length-le_of_subset :
      (xs ys : List A)
      → Unique xs
      → ((a : A) → elem xs a ≡ true → elem ys a ≡ true)
      → length xs ≤ length ys
  unfolding elem
  length-le_of_subset [] ys u h = omega arith
  length-le_of_subset (x ∷ xs) ys u h =
      let inside : elem ys x ≡ true = h x (ground arith) in
      omega (
        arith,
        length-remove ys x inside,
        length-le_of_subset xs (remove ys x) u.1
            (λ a m. ground (arith, h a, elem-remove_ne ys x a)),
      )
