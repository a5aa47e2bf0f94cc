-- ===== src/State/Sessions.antt =====
-- The sessions of one process (atsuite_sdk/state.py): a save, what other sessions do, and a load.
use atsuite.Base.{
  ℕ, String, ◌≡◌, ◌≢◌, refl, sym, ap, subst, ◌∙◌, true, false, Option, some, [], ◌∷◌, nat_eq,
  string_eq, ◌==◌, arith, All,
}
use atsuite.Base.Dict.{get, get-put_self}
use atsuite.Base.Json.{Fields, Distinct}
use atsuite.Base.Sets.{elem, elem-discard}
use atsuite.Result.{ok}
use atsuite.State.{
  Backend, Registry, registered, attributes_of, StateRuntime, get_snapshot, set_snapshot,
  snapshot_of, save_if, save_after_tool, load_snapshot, load_for_tool,
}
use atsuite.State.Values.{safe_uid}
use atsuite.State.Saved.{kept_state, Holds, Leads, load_if-nonempty, load_snapshot-Holds}
use atsuite.State.Steps.{Others, Others-Still}

module _ (b : Backend) (uid : Option String) where
  -- A save in memory is there afterwards, and nothing else holds it.
  save_if-there :
      (registry : Registry) (r : StateRuntime b)
      → registered registry ≢ []
      → r.runtime ≡ "mcp"
      → ((save_if b registry uid r).registry ≡ r.registry)
        × ((save_if b registry uid r).runtime ≡ "mcp")
        × (get (save_if b registry uid r).memory_snapshots (safe_uid uid)
            ≡ some (snapshot_of b uid r))
        × (elem (save_if b registry uid r).lent (safe_uid uid) ≡ false)
  unfolding save_if set_snapshot registered
  save_if-there [] r some_entry memory = absurd (some_entry refl)
  save_if-there (x ∷ registry) r some_entry memory =
      let test : (r.runtime == "mcp") ≡ true = ground arith in
      rw test (
        refl,
        memory,
        get-put_self r.memory_snapshots (safe_uid uid) (snapshot_of b uid r),
        ground (arith, elem-discard r.lent (safe_uid uid) (safe_uid uid)),
      )

  get_snapshot-found :
      (s : StateRuntime b) (snapshot : Fields)
      → s.runtime ≡ "mcp"
      → get s.memory_snapshots (safe_uid uid) ≡ some snapshot
      → get_snapshot b s uid ≡ snapshot
  unfolding get_snapshot
  get_snapshot-found s snapshot memory found =
      let test : (s.runtime == "mcp") ≡ true = ground arith in ground arith

  -- In MCP mode, if some object is registered, every registered object is found under its module
  -- and name, and no object has two kept variables of one name, then after `save_after_tool` for a
  -- session and any steps of other sessions (saves, loads that return or fail, snapshots primed by
  -- a caller, and work of tools that changes the objects, the files and the defaults and, in place,
  -- any snapshots in memory that objects or callers share), the next `load_for_tool` for the
  -- session returns, and every registered object has each variable that the snapshot keeps, with
  -- the value it had when it was saved, as JSON gives it back.
  pub load_for_tool-Holds :
      (r s : StateRuntime b)
      → r.runtime ≡ "mcp"
      → registered r.registry ≢ []
      → All (Leads r.registry) (registered r.registry)
      → ((o : ℕ) → Distinct (kept_state r.objects o))
      → Others b uid (save_after_tool b uid r) s
      → (out : StateRuntime b) × (load_for_tool b uid s ≡ ok out)
        × All
            (λ e. Holds (attributes_of out.objects e.object) (kept_state r.objects e.object))
            (registered r.registry)
  unfolding save_after_tool load_for_tool
  load_for_tool-Holds r s memory some_entry leads d others =
      let still = Others-Still b uid others in
      let (same, mode, there, own) = save_if-there r.registry r some_entry memory in
      let registry = still.registry ∙ same in
      let (out, result, holds) = load_snapshot-Holds b uid r s registry leads d in
      let found =
        get_snapshot-found s (snapshot_of b uid r) (still.runtime ∙ mode)
          (still.snapshot own ∙ there) in
      let nonempty = subst (λ g. registered g ≢ []) (sym registry) some_entry in
      (
        out,
        load_if-nonempty b s.registry uid s nonempty
            ∙ ap (λ x. load_snapshot b uid x s) found
            ∙ result,
        holds,
      )
