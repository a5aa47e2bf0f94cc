-- ===== src/Analysis/Number.antt =====
-- The floats of atsuite/analysis/pricing.py and aggregation.py, and the operations that the code uses.
-- No value is NaN, so that `a <= b` is `not b < a`.
use atsuite.Base.{ℕ, String, Bool, Option, none, some, List, [], ◌∷◌, if◌then◌else◌}
use atsuite.Base.Int.{ℤ, pos, negsuc}
use atsuite.Base.Json.{Value, null, Fields, find}

pub record Number : Type 1 where
  pub Float : Type 0
  -- `n / 10 ** k` as a literal
  pub literal : ℕ → ℕ → Float
  pub add : Float → Float → Float
  pub sub : Float → Float → Float
  pub mul : Float → Float → Float
  pub div : Float → Float → Float
  pub lt : Float → Float → Bool
  pub ceil : Float → Float
  -- `float(v)` of a value that is not None; `none` where it raises
  pub float : Value → Option Float
  -- a number of the records, which is counted in millionths
  pub millionths : ℤ → Float
  pub whole : ℤ → Float
  -- `round(x, k)`, `f"{x:.kf}"` and `str(x)`
  pub round : Float → ℕ → Float
  pub fixed : ℕ → Float → String
  pub shown : Float → String

module _ (n : Number) where
  abbrev pub nought : n.Float
  nought = n.literal 0 0

  -- `max(a, b)`
  unfoldable pub larger : n.Float → n.Float → n.Float
  larger a b = if n.lt a b then b else a

  -- _num
  unfoldable pub num : Option Value → n.Float → n.Float
  num none default = default
  num (some null) default = default
  num (some v) default = elim (n.float v) [ none ↦ default | some x ↦ x ]

  -- `_num(f.get(k), default)`
  unfoldable pub num_at : Fields → String → n.Float → n.Float
  unfolding find num
  num_at f k default = num (find f k) default

  -- `sum(xs)`
  unfoldable pub sum_from : n.Float → List n.Float → n.Float
  sum_from total [] = total
  sum_from total (x ∷ xs) = sum_from (n.add total x) xs

  unfoldable pub sum : List n.Float → n.Float
  unfolding sum_from
  sum xs = sum_from nought xs

-- `max(0, int(k or 0))`
unfoldable pub count_of : ℤ → ℤ
count_of (pos k) = pos k
count_of (negsuc k) = pos 0
