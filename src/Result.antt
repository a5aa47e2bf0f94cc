-- ===== src/Result.antt =====
-- Exceptions as values: one constructor for each `raise` of the modelled code.
use mathlib.Core.Logic.{◌⊎◌, inl, inr}
use mathlib.Core.Path.{◌≡◌, refl}
use atsuite.Base.{ℕ, String, Bool, List, true, false, if◌then◌else◌}

pub data Error : Type 0 where
  -- `KeyError` of a subscript, on an integer and on a text
  missing_id : ℕ → Error
  missing_key : String → Error
  -- scheduler.py
  unsupported_access : String → Error
  access_conflict : String → Error
  -- what a worker thread raised in `execute_node`
  node_failed : ℕ → Error
  -- no exception of the source: the fuel of a loop ran out
  exhausted : Error
  -- `SystemExit` and `ValueError` of pipeline.py, with their text; `int` or `float` of what
  -- is no number; the wrong kind of value; what `open` or reading JSON raises; and, in the model
  -- only, a node id below zero
  exit_with : String → Error
  value_error : String → Error
  runtime_error : String → Error
  not_a_number : Error
  wrong_type : Error
  unreadable_file : String → Error
  negative_id : Error
  -- in the model only: a time below zero in a trace that is viewed
  negative_time : Error
  -- `SystemExit` of resolve_benchmark with a set of names in its text
  legacy_node_types : List String → String → Error
  names_missing : List String → String → Error
  names_not_routed : List String → String → String → Error
  -- uid_strategy.py
  missing_uid_fixed : Error
  unsupported_uid_mode : String → Error

-- `err e` has been raised and not caught.
pub data Result {ℓ} (A : Type ℓ) : Type ℓ where
  err : Error → Result A
  ok : A → Result A

infixl 5 ◌>>=◌ ◌>>◌
unfoldable pub ◌>>=◌ {ℓ κ} : {X : Type ℓ} {Y : Type κ} → Result X → (X → Result Y) → Result Y
m >>= k = elim m [ err e ↦ err e | ok x ↦ k x ]

unfoldable pub ◌>>◌ {ℓ κ} : {X : Type ℓ} {Y : Type κ} → Result X → Result Y → Result Y
unfolding ◌>>=◌
m >> next = m >>= λ _. next

-- `if test: raise SystemExit(text)`
unfoldable pub exit_if : Bool → String → Result (Unit {0})
exit_if test text = if test then err (exit_with text) else ok tt

-- A chain that raised nothing did not raise in its first step.
pub >>-eq-ok {ℓ κ} :
    {X : Type ℓ} {Y : Type κ} (m : Result X) (next : Result Y) {y : Y}
    → (m >> next) ≡ ok y
    → (x : X) × (m ≡ ok x) × (next ≡ ok y)
unfolding ◌>>◌
>>-eq-ok (err e) next raised = cc
>>-eq-ok (ok x) next done = (x, refl, done)

pub >>=-eq-ok {ℓ κ} :
    {X : Type ℓ} {Y : Type κ} (m : Result X) (k : X → Result Y) {y : Y}
    → (m >>= k) ≡ ok y
    → (x : X) × (m ≡ ok x) × (k x ≡ ok y)
unfolding ◌>>=◌
>>=-eq-ok (err e) k raised = cc
>>=-eq-ok (ok x) k done = (x, refl, done)

pub Result-cases {ℓ} :
    {A : Type ℓ} (r : Result A) → ((a : A) × (r ≡ ok a)) ⊎ ((e : Error) × (r ≡ err e))
Result-cases (ok a) = inl (a, refl)
Result-cases (err e) = inr (e, refl)

pub exit_if-eq-ok :
    (test : Bool) (text : String) {u : Unit {0}} → exit_if test text ≡ ok u → test ≡ false
unfolding exit_if
exit_if-eq-ok true text h = cc
exit_if-eq-ok false text h = refl

pub ok_injective {ℓ} : {X : Type ℓ} {x y : X} → ok x ≡ ok y → x ≡ y
ok_injective h = cc
