-- ===== src/Analysis/Timeline/Times.antt =====
-- The numbers of atsuite/analysis/timeline.py: `_num`, `_int` and the conversions of units.
use atsuite.Base.{
  ℕ, suc, ◌+◌, ◌*◌, ◌/◌, ◌%◌, String, none, some, List, [], ◌∷◌, ltb, ◌==◌, nat_eq, if◌then◌else◌,
}
use atsuite.Base.Int.{ℤ, pos, negsuc}
use atsuite.Base.Json.{Value, null, Fields}
use atsuite.Base.Convert.{minus, value_of, float_of}

-- `max(0, z)`
unfoldable pub positive : ℤ → ℕ
positive (pos n) = n
positive (negsuc n) = 0

-- `round(n / d)`
unfoldable pub round_div : ℕ → ℕ → ℕ
round_div n d =
    if ltb (2 * (n % d)) d
    then n / d
    else if ltb d (2 * (n % d))
    then n / d + 1
    else if (n / d) % 2 == 0
    then n / d
    else n / d + 1

-- _num, in millionths
unfoldable pub num : Value → ℤ
unfolding float_of
num v = elim (float_of v) [ none ↦ pos 0 | some z ↦ z ]

truncate : ℤ → ℤ
unfolding minus
truncate (pos n) = pos (n / 1000000)
truncate (negsuc n) = minus (suc n / 1000000)

-- _int
unfoldable pub int_num : Value → ℤ
unfolding num truncate
int_num v = truncate (num v)

-- _sec_to_us, of a time in microseconds
unfoldable pub sec_to_us : ℤ → ℕ
unfolding positive
sec_to_us z = positive z

-- _ms_to_us, of millionths of a millisecond
unfoldable pub ms_to_us : ℤ → ℕ
unfolding positive round_div
ms_to_us z = round_div (positive z) 1000

-- _ns_to_us
unfoldable pub ns_to_us : ℕ → ℕ
unfolding round_div
ns_to_us ns = round_div ns 1000

-- _ms_to_ns, of millionths of a millisecond
unfoldable pub ms_to_ns : ℤ → ℕ
unfolding positive
ms_to_ns z = positive z

-- _first_ns
unfoldable pub first_ns : Fields → List String → ℕ
unfolding positive int_num value_of
first_ns fields [] = 0
first_ns fields (name ∷ names) =
    let rest = first_ns fields names in
    let value = positive (int_num (value_of fields name null)) in
    if ltb 0 value then value else rest
