-- ===== src/Base/Dict.antt =====
-- Python's `dict` in insertion order, as an association list with distinct keys.
use mathlib.Core.Path.{◌≡◌, refl, subst, sym}
use mathlib.Core.Logic.{◌⊎◌, inl, inr}
use mathlib.Core.Bool.{Bool, true, false}
use mathlib.Core.Option.{Option, none, some}
use mathlib.Core.List.{List, [], ◌∷◌}
use native.Mathlib.Omega.{arith}
use atsuite.Base.Tests.{if◌then◌else◌}
use atsuite.Base.Keys.{Eq, ◌==◌}
use atsuite.Base.Lists.{All, length}

abbrev pub Dict {ℓ κ} : Type ℓ → Type κ → Type (ℓ ⊔ κ)
Dict K V = List (K × V)

module _ {ℓ κ} {K : Type ℓ} {V : Type κ} where
  -- `list(d)` and `d.values()`
  abbrev pub keys : Dict K V → List K
  keys [] = []
  keys ((k, v) ∷ d) = k ∷ keys d

  abbrev pub values : Dict K V → List V
  values [] = []
  values ((k, v) ∷ d) = v ∷ values d

module _ {ℓ κ} {K : Type ℓ} {V : Type κ} ⦃e : Eq K⦄ where
  -- `d.get(k)`
  unfoldable pub get : Dict K V → K → Option V
  get [] k = none
  get ((j, w) ∷ d) k = if j == k then some w else get d k

  -- `d[k] = v`: an old key keeps its place
  unfoldable pub put : Dict K V → K → V → Dict K V
  put [] k v = (k, v) ∷ []
  put ((j, w) ∷ d) k v = if j == k then (j, v) ∷ d else (j, w) ∷ put d k v

  -- `d.pop(k, None)`
  unfoldable pub pop : Dict K V → K → Dict K V
  pop [] k = []
  pop ((j, w) ∷ d) k = let rest = pop d k in if j == k then rest else (j, w) ∷ rest

  -- `k in d`
  abbrev pub has : Dict K V → K → Bool
  has d k = elim (get d k) [ none ↦ false | some v ↦ true ]

  -- `d.get(k, default)`
  abbrev pub get_or : Dict K V → K → V → V
  get_or d k default = elim (get d k) [ none ↦ default | some v ↦ v ]

  pub get-put :
      (d : Dict K V) (k j : K) (v : V) → get (put d k v) j ≡ (if k == j then some v else get d j)
  unfolding get put
  get-put [] k j v = refl
  get-put ((i, w) ∷ d) k j v = ground (arith, get-put d k j v)

  pub get-put_old :
      (d : Dict K V) (k j : K) (v w : V)
      → get d k ≡ none
      → get d j ≡ some w
      → get (put d k v) j ≡ some w
  get-put_old d k j v w new found = ground (arith, get-put d k j v)

  pub get-put_self : (d : Dict K V) (k : K) (v : V) → get (put d k v) k ≡ some v
  get-put_self d k v = ground (arith, get-put d k k v)

  -- What is found after a `put` was put, or was there before.
  pub get-put_cases :
      (d : Dict K V) (k j : K) (v w : V)
      → get (put d k v) j ≡ some w
      → ((k ≡ j) × (v ≡ w)) ⊎ (get d j ≡ some w)
  get-put_cases d k j v w found = elim (e.dec k j) [
    | yes same ↦ inl (same, ground (arith, get-put d k j v))
    | no differ ↦ inr (ground (arith, get-put d k j v))
  ]

  pub length-put :
      (d : Dict K V) (k : K) (v w : V) → get d k ≡ some w → length (put d k v) ≡ length d
  unfolding get put
  length-put [] k v w found = cc
  length-put ((j, u) ∷ d) k v w found = ground (arith, length-put d k v w)

  pub get-pop : (d : Dict K V) (k j : K) → get (pop d k) j ≡ (if k == j then none else get d j)
  unfolding get pop
  get-pop [] k j = ground arith
  get-pop ((i, w) ∷ d) k j = ground (arith, get-pop d k j)

  pub get-nil : (k : K) → get [] k ≡ none
  unfolding get
  get-nil k = refl

pub ruleset dict_laws = (get-nil, get-put, get-pop)

-- What holds of every entry holds of the one that is found.
pub All-get {ℓ κ μ} :
    {K : Type ℓ} {V : Type κ} ⦃e : Eq K⦄ (P : K × V → Type μ) (d : Dict K V) (k : K) (v : V)
    → All P d
    → get d k ≡ some v
    → P (k, v)
unfolding get
All-get P [] k v h g = cc
All-get ⦃e⦄ P ((j, w) ∷ d) k v h g = elim (e.dec j k) [
  | yes p ↦ let same : (j, w) ≡ (k, v) = ground arith in subst P same h.0
  | no n ↦ All-get P d k v h.1 (ground arith)
]

-- A `put` keeps what holds of every entry, if it holds of the new one.
pub All-put {ℓ κ μ} :
    {K : Type ℓ} {V : Type κ} ⦃e : Eq K⦄ (P : K × V → Type μ) (d : Dict K V) (k : K) (v : V)
    → All P d
    → P (k, v)
    → All P (put d k v)
unfolding put
All-put P [] k v h new = (new, tt)
All-put ⦃e⦄ P ((j, w) ∷ d) k v h new = elim (e.dec j k) [
  | yes same ↦
      let hit : (j == k) ≡ true = ground arith in rw hit (subst (λ i. P (i, v)) (sym same) new, h.1)
  | no n ↦ let other : (j == k) ≡ false = ground arith in rw other (h.0, All-put P d k v h.1 new)
]
