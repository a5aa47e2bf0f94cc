-- ===== src/Tests/LockTests.antt =====
-- Tests of atsuite/scheduler.py.
use atsuite.Base.{true, [], ◌∷◌, ◌≡◌, refl, string_eq}
use atsuite.Base.Dict.{get, put}
use atsuite.Base.Sets.{elem}
use atsuite.Result.{ok, err, unsupported_access, access_conflict}
use atsuite.Scheduler.{
  ToolAccess, AccessScheduler, init, from_values, can_start, start, finish, is_stateful,
}
use atsuite.Scheduler.Refinement.{
  Agrees, Exclusive, compatible_all, init-Agrees, start-Agrees, finish-Agrees, Agrees-Exclusive,
  can_start-eq-compatible_all, start-eq-err,
}

abbrev reader : ToolAccess
reader = record { domain = "disk"; access = "r" }

abbrev writer : ToolAccess
writer = record { domain = "disk"; access = "rw" }

from_values_modes :
    (from_values " disk " " RW" ≡ ok writer)
    × (from_values "disk" "" ≡ ok (record { domain = ""; access = "stateless" }))
    × (from_values "disk" "x" ≡ err (unsupported_access "x"))
unfolding from_values
from_values_modes = (refl, refl, refl)

-- The table while one reader runs.
abbrev one_reader : AccessScheduler
one_reader = record { enabled = true; readers = ("disk", 1) ∷ []; writers = [] }

one_reader_started : start (init true) reader ≡ ok one_reader
unfolding start is_stateful string_eq elem get put
one_reader_started = refl

one_reader-Agrees : Agrees one_reader (reader ∷ [])
one_reader-Agrees = start-Agrees (init true) one_reader [] reader init-Agrees one_reader_started

start-Agrees_example : Agrees one_reader (reader ∷ [])
start-Agrees_example = start-Agrees (init true) one_reader [] reader init-Agrees one_reader_started

can_start_example : can_start one_reader writer ≡ compatible_all writer (reader ∷ [])
can_start_example = can_start-eq-compatible_all one_reader (reader ∷ []) writer one_reader-Agrees

start-eq-err_example : start one_reader writer ≡ err (access_conflict "disk")
unfolding compatible_all is_stateful string_eq
start-eq-err_example = start-eq-err one_reader (reader ∷ []) writer one_reader-Agrees refl

finish-Agrees_example : Agrees (finish one_reader reader) []
finish-Agrees_example = finish-Agrees one_reader [] [] reader one_reader-Agrees

Agrees-Exclusive_example : Exclusive (reader ∷ [])
Agrees-Exclusive_example = Agrees-Exclusive one_reader (reader ∷ []) one_reader-Agrees
