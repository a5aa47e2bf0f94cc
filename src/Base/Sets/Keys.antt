-- ===== src/Base/Sets/Keys.antt =====
-- The keys of a dict as a set.
use atsuite.Base.{◌≡◌, refl, [], ◌∷◌, ◌==◌, ◌||◌, Eq, arith}
use atsuite.Base.Dict.{Dict, get, put, has, keys}
use atsuite.Base.Sets.{elem, Unique}

module _ {ℓ κ} {K : Type ℓ} {V : Type κ} ⦃e : Eq K⦄ where
  pub elem-keys-put :
      (d : Dict K V) (k j : K) (v : V) → elem (keys (put d k v)) j ≡ (k == j || elem (keys d) j)
  unfolding elem put
  elem-keys-put [] k j v = refl
  elem-keys-put ((i, w) ∷ d) k j v = ground (arith, elem-keys-put d k j v)

  pub Unique-keys-put : (d : Dict K V) (k : K) (v : V) → Unique (keys d) → Unique (keys (put d k v))
  unfolding elem put
  Unique-keys-put [] k v u = (refl, tt)
  Unique-keys-put ((i, w) ∷ d) k v u = ground (arith, Unique-keys-put d k v, elem-keys-put d k i v)

  pub has-elem-keys : (d : Dict K V) (k : K) → has d k ≡ elem (keys d) k
  unfolding get elem
  has-elem-keys [] k = refl
  has-elem-keys ((j, v) ∷ d) k = ground (arith, has-elem-keys d k)
