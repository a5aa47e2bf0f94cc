-- ===== src/Scheduler/Refinement.antt =====
-- The lock table of atsuite/scheduler.py against the list of accesses that are running.
use atsuite.Base.{
  ℕ, ◌+◌, ◌-◌, ◌≤◌, ◌≡◌, refl, ltb, String, Bool, true, false, not, ◌&&◌, List, [], ◌∷◌, ◌++◌,
  arith, inl, inr, ◌==◌, string_eq, if◌then◌else◌,
}
use atsuite.Base.Dict.{get, get_or, get-put, get-pop}
use atsuite.Base.Sets.{elem, elem-add, elem-discard}
use atsuite.Result.{ok, err, access_conflict, Result-cases}
use atsuite.Scheduler.{ToolAccess, AccessScheduler, init, is_stateful, can_start, start, finish}

-- `a` holds the domain `d` shared, or alone.
unfoldable pub reads_domain : String → ToolAccess → Bool
reads_domain d a = is_stateful a && (a.access == "r" && a.domain == d)

unfoldable pub writes_domain : String → ToolAccess → Bool
writes_domain d a = is_stateful a && (not (a.access == "r") && a.domain == d)

unfoldable pub readers_of : String → List ToolAccess → ℕ
unfolding reads_domain
readers_of d [] = 0
readers_of d (a ∷ held) = (if reads_domain d a then 1 else 0) + readers_of d held

unfoldable pub writers_of : String → List ToolAccess → ℕ
unfolding writes_domain
writers_of d [] = 0
writers_of d (a ∷ held) = (if writes_domain d a then 1 else 0) + writers_of d held

-- Two accesses may run at once: one has no state, or the domains differ, or both only read.
unfoldable pub compatible : ToolAccess → ToolAccess → Bool
compatible a b =
    if is_stateful a && (is_stateful b && a.domain == b.domain)
    then a.access == "r" && b.access == "r"
    else true

unfoldable pub compatible_all : ToolAccess → List ToolAccess → Bool
unfolding compatible
compatible_all a [] = true
compatible_all a (b ∷ held) = compatible a b && compatible_all a held

-- No two accesses of the list are in conflict.
abbrev pub Exclusive : List ToolAccess → Type 0
Exclusive [] = Unit {0}
Exclusive (a ∷ held) = (compatible_all a held ≡ true) × Exclusive held

-- The lock table says of each domain what the running accesses say.
pub record Agrees (s : AccessScheduler) (held : List ToolAccess) : Type 0 where
  pub enabled : s.enabled ≡ true
  pub readers : (d : String) → get_or s.readers d 0 ≡ readers_of d held
  pub writers : (d : String) → elem s.writers d ≡ ltb 0 (writers_of d held)
  pub alone : (d : String) → writers_of d held + (if ltb 0 (readers_of d held) then 1 else 0) ≤ 1

pub init-Agrees : Agrees (init true) []
unfolding get elem readers_of writers_of
init-Agrees = record {
  enabled = refl;
  readers = λ d. refl;
  writers = λ d. refl;
  alone = λ d. omega arith;
}

readers_of-append :
    (d : String) (xs ys : List ToolAccess)
    → readers_of d (xs ++ ys) ≡ readers_of d xs + readers_of d ys
unfolding readers_of
readers_of-append d [] ys = omega arith
readers_of-append d (x ∷ xs) ys = omega (arith, readers_of-append d xs ys)

writers_of-append :
    (d : String) (xs ys : List ToolAccess)
    → writers_of d (xs ++ ys) ≡ writers_of d xs + writers_of d ys
unfolding writers_of
writers_of-append d [] ys = omega arith
writers_of-append d (x ∷ xs) ys = omega (arith, writers_of-append d xs ys)

-- What `compatible_all` asks, read off the two counts of the domain.
compatible_all-counts :
    (a : ToolAccess) (held : List ToolAccess)
    → compatible_all a held ≡ (
        if is_stateful a
        then (if a.access == "r"
            then not (ltb 0 (writers_of a.domain held))
            else not (ltb 0 (writers_of a.domain held)) && not (ltb 0 (readers_of a.domain held)))
        else true)
unfolding compatible_all readers_of writers_of
compatible_all-counts a [] = ground arith
compatible_all-counts a (b ∷ held) = ground (arith, compatible_all-counts a held)

-- If the lock table stands for a list of running accesses, `can_start` answers true exactly if the
-- access is in conflict with none of them.
pub can_start-eq-compatible_all :
    (s : AccessScheduler) (held : List ToolAccess) (a : ToolAccess)
    → Agrees s held
    → can_start s a ≡ compatible_all a held
unfolding can_start
can_start-eq-compatible_all s held a h =
    ground (arith, compatible_all-counts a held, h.readers a.domain, h.writers a.domain)

-- If the lock table stands for a list of running accesses and `start` of another one returns a
-- table, that table stands for the list with the new access.
pub start-Agrees :
    (s t : AccessScheduler) (held : List ToolAccess) (a : ToolAccess)
    → Agrees s held
    → start s a ≡ ok t
    → Agrees t (a ∷ held)
unfolding start readers_of writers_of
start-Agrees s t held a h e = record {
  enabled = ground (arith, h.enabled);
  readers = λ d. ground (
    arith,
    h.enabled,
    h.readers d,
    h.readers a.domain,
    get-put s.readers a.domain d (get_or s.readers a.domain 0 + 1),
  );
  writers = λ d.
      ground (arith, h.enabled, h.writers d, h.writers a.domain, elem-add s.writers a.domain d);
  alone = λ d. ground (arith, h.enabled, h.alone d, h.readers d, h.writers d);
}

-- One access more in the middle of the list counts as one at its front.
readers_of-middle :
    (d : String) (xs ys : List ToolAccess) (a : ToolAccess)
    → readers_of d (xs ++ a ∷ ys) ≡ (if reads_domain d a then 1 else 0) + readers_of d (xs ++ ys)
unfolding readers_of
readers_of-middle d xs ys a =
    omega (arith, readers_of-append d xs (a ∷ ys), readers_of-append d xs ys)

writers_of-middle :
    (d : String) (xs ys : List ToolAccess) (a : ToolAccess)
    → writers_of d (xs ++ a ∷ ys) ≡ (if writes_domain d a then 1 else 0) + writers_of d (xs ++ ys)
unfolding writers_of
writers_of-middle d xs ys a =
    omega (arith, writers_of-append d xs (a ∷ ys), writers_of-append d xs ys)

-- If the lock table stands for a list of running accesses, then after `finish` of one of them,
-- wherever it stands, the table stands for the list without it.
pub finish-Agrees :
    (s : AccessScheduler) (xs ys : List ToolAccess) (a : ToolAccess)
    → Agrees s (xs ++ a ∷ ys)
    → Agrees (finish s a) (xs ++ ys)
unfolding finish reads_domain writes_domain
finish-Agrees s xs ys a h = record {
  enabled = ground (arith, h.enabled);
  readers = λ d. ground (
    arith,
    h.enabled,
    h.readers d,
    h.readers a.domain,
    readers_of-middle d xs ys a,
    get-pop s.readers a.domain d,
    get-put s.readers a.domain d (get_or s.readers a.domain 0 - 1),
  );
  writers = λ d. ground (
    arith,
    h.enabled,
    h.writers d,
    h.alone d,
    writers_of-middle d xs ys a,
    elem-discard s.writers a.domain d,
  );
  alone = λ d. ground (arith, h.alone d, readers_of-middle d xs ys a, writers_of-middle d xs ys a);
}

counts-Exclusive :
    (held : List ToolAccess)
    → ((d : String) → writers_of d held + (if ltb 0 (readers_of d held) then 1 else 0) ≤ 1)
    → Exclusive held
unfolding readers_of writers_of
counts-Exclusive [] h = tt
counts-Exclusive (a ∷ held) h = (
  ground (arith, h a.domain, compatible_all-counts a held),
  counts-Exclusive held (λ d. ground (arith, h d)),
)

-- Accesses that run together are never in conflict: a domain has one writer or any number of readers.
pub Agrees-Exclusive :
    (s : AccessScheduler) (held : List ToolAccess) → Agrees s held → Exclusive held
Agrees-Exclusive s held h = counts-Exclusive held h.alone

-- `start` raises nothing where `can_start` says yes.
pub start-can_start :
    (s : AccessScheduler) (a : ToolAccess)
    → can_start s a ≡ true
    → (t : AccessScheduler) × (start s a ≡ ok t)
unfolding start
start-can_start s a h = elim (Result-cases (start s a)) [
  | inl found ↦ found
  | inr (e, raised) ↦ absurd (ground arith)
]

pub enabled-start :
    (s t : AccessScheduler) (a : ToolAccess) → start s a ≡ ok t → t.enabled ≡ s.enabled
unfolding start
enabled-start s t a h = ground arith

stateful_of_conflict :
    (a : ToolAccess) (held : List ToolAccess) → compatible_all a held ≡ false → is_stateful a ≡ true
unfolding compatible_all
stateful_of_conflict a [] h = cc
stateful_of_conflict a (b ∷ held) h = ground (arith, stateful_of_conflict a held)

-- If the lock table stands for a list of running accesses and the access is in conflict with one of
-- them, `start` raises the conflict error that names the access's domain.
pub start-eq-err :
    (s : AccessScheduler) (held : List ToolAccess) (a : ToolAccess)
    → Agrees s held
    → compatible_all a held ≡ false
    → start s a ≡ err (access_conflict a.domain)
unfolding start
start-eq-err s held a h conflict =
    ground (
      arith,
      h.enabled,
      can_start-eq-compatible_all s held a h,
      stateful_of_conflict a held conflict,
    )
