-- ===== src/Scheduler.antt =====
-- atsuite/scheduler.py: access modes, and the read/write lock table that gates FaaS replay.
pub mod Refinement
use atsuite.Base.{
  ℕ, suc, ◌-◌, ◌+◌, leb, String, Bool, true, false, not, ◌&&◌, ◌||◌, Option, none, some, List, [],
  ◌∷◌, ◌==◌, string_eq, if◌then◌else◌,
}
use atsuite.Base.Dict.{Dict, get_or, put, pop}
use atsuite.Base.Sets.{elem, add, discard}
use atsuite.Base.Text.{is_empty, or_else, strip, fold_case}
use atsuite.Result.{Result, ok, err, unsupported_access, access_conflict}

-- STATELESS_ACCESS
abbrev pub stateless_access : String
stateless_access = "stateless"

-- VALID_ACCESS_MODES
abbrev pub valid_access_modes : List String
valid_access_modes = "stateless" ∷ "r" ∷ "w" ∷ "rw" ∷ []

pub record ToolAccess : Type 0 where
  pub domain : String
  pub access : String

-- `ToolAccess()`
abbrev pub default_access : ToolAccess
default_access = record { domain = ""; access = stateless_access }

-- ToolAccess.is_stateful
unfoldable pub is_stateful : ToolAccess → Bool
is_stateful a = not (a.access == stateless_access) && not (is_empty a.domain)

-- ToolAccess.from_values
unfoldable pub from_values : String → String → Result ToolAccess
unfolding elem fold_case strip string_eq
from_values domain access =
    let normalized = fold_case (or_else access stateless_access) in
    if elem valid_access_modes normalized
    then ok (record {
      domain = if normalized == stateless_access then "" else strip domain;
      access = normalized;
    })
    else err (unsupported_access access)

pub record AccessScheduler : Type 0 where
  pub enabled : Bool
  pub readers : Dict String ℕ
  pub writers : List String

-- AccessScheduler.__init__
abbrev pub init : Bool → AccessScheduler
init enabled = record { enabled = enabled; readers = []; writers = [] }

-- The early return `not self.enabled or not access.is_stateful` of each method.
unfoldable pub is_ungated : AccessScheduler → ToolAccess → Bool
is_ungated s a = not s.enabled || not (is_stateful a)

-- AccessScheduler.can_start
unfoldable pub can_start : AccessScheduler → ToolAccess → Bool
unfolding is_ungated
can_start s a =
    if is_ungated s a
    then true
    else if a.access == "r"
    then not (elem s.writers a.domain)
    else not (elem s.writers a.domain) && leb (get_or s.readers a.domain 0) 0

-- AccessScheduler.start
unfoldable pub start : AccessScheduler → ToolAccess → Result AccessScheduler
unfolding can_start
start s a =
    if is_ungated s a
    then ok s
    else if not (can_start s a)
    then err (access_conflict a.domain)
    else if a.access == "r"
    then ok (record s { readers = put s.readers a.domain (get_or s.readers a.domain 0 + 1) })
    else ok (record s { writers = add s.writers a.domain })

-- AccessScheduler.finish
unfoldable pub finish : AccessScheduler → ToolAccess → AccessScheduler
unfolding is_ungated
finish s a =
    if is_ungated s a
    then s
    else if a.access == "r"
    then (let count = get_or s.readers a.domain 0 in
        if leb count 1
        then record s { readers = pop s.readers a.domain }
        else record s { readers = put s.readers a.domain (count - 1) })
    else record s { writers = discard s.writers a.domain }
