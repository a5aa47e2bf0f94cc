-- ===== src/State/Steps.antt =====
-- What happens to the state runtime between two calls of a session (atsuite_sdk/state.py), and what of
-- the session it leaves alone.
use atsuite.Base.{
  ℕ, String, ◌≡◌, ◌≢◌, refl, subst, ◌∙◌, false, Option, [], ◌∷◌, nat_eq, string_eq, ◌==◌, arith,
  Bool-cases, inl, inr,
}
use atsuite.Base.Dict.{Dict, get, get-put}
use atsuite.Base.Json.{Value, null, bool, int, float, str, arr, obj, Fields}
use atsuite.Base.Sets.{elem, elem-add, elem-discard}
use atsuite.Result.{Error, ok, err, >>=-eq-ok, ok_injective}
use atsuite.State.{
  Backend, Registry, StateRuntime, set_snapshot, prime_snapshot, lend, save_if, save_after_tool,
  load_snapshot, load_if, load_for_tool,
}
use atsuite.State.Values.{Attributes, safe_uid}

module _ (b : Backend) (uid : Option String) where
  -- What may happen between two calls of a session. Another session is saved, loaded or primed; a
  -- load may fail, and what it has changed until then is a `worked` step. A tool changes the objects,
  -- the files and what it shares with the defaults, and with them, in place, any snapshots in memory
  -- that are lent.
  pub data Other : StateRuntime b → StateRuntime b → Type 0 where
    saved :
        (r : StateRuntime b) (uid' : Option String)
        → safe_uid uid' ≢ safe_uid uid
        → Other r (save_after_tool b uid' r)
    loaded :
        (r s : StateRuntime b) (uid' : Option String)
        → safe_uid uid' ≢ safe_uid uid
        → load_for_tool b uid' r ≡ ok s
        → Other r s
    failed :
        (r : StateRuntime b) (uid' : Option String) (e : Error)
        → safe_uid uid' ≢ safe_uid uid
        → load_for_tool b uid' r ≡ err e
        → Other r (lend b uid' r)
    primed :
        (r : StateRuntime b) (uid' : Option String) (v : Value)
        → safe_uid uid' ≢ safe_uid uid
        → Other r (prime_snapshot b uid' v r)
    worked :
        (r : StateRuntime b) (objects : Dict ℕ Attributes) (files : b.Files)
        (defaults : Dict String (Dict String Fields)) (memory : Dict String Fields)
        → ((k : String) → elem r.lent k ≡ false → get memory k ≡ get r.memory_snapshots k)
        → Other r (record r {
          objects = objects;
          files = files;
          defaults = defaults;
          memory_snapshots = memory;
        })

  pub data Others (r : StateRuntime b) : StateRuntime b → Type 0 where
    nothing : Others r r
    further : {s t : StateRuntime b} → Others r s → Other s t → Others r t

  -- The registry and the mode are as they were, and so is the snapshot of the session, not lent, if
  -- it was not lent.
  pub record Still (r s : StateRuntime b) : Type 0 where
    pub registry : s.registry ≡ r.registry
    pub runtime : s.runtime ≡ r.runtime
    pub own : elem r.lent (safe_uid uid) ≡ false → elem s.lent (safe_uid uid) ≡ false
    pub snapshot :
        elem r.lent (safe_uid uid) ≡ false
        → get s.memory_snapshots (safe_uid uid) ≡ get r.memory_snapshots (safe_uid uid)

  Still-refl : (r : StateRuntime b) → Still r r
  Still-refl r = record { registry = refl; runtime = refl; own = λ h. h; snapshot = λ _. refl }

  Still-trans : {r s t : StateRuntime b} → Still r s → Still s t → Still r t
  Still-trans x y = record {
    registry = y.registry ∙ x.registry;
    runtime = y.runtime ∙ x.runtime;
    own = λ h. y.own (x.own h);
    snapshot = λ h. y.snapshot (x.own h) ∙ x.snapshot h;
  }

  lend-Still :
      (uid' : Option String) (r : StateRuntime b)
      → safe_uid uid' ≢ safe_uid uid
      → Still r (lend b uid' r)
  unfolding lend
  lend-Still uid' r differ = record {
    registry = refl;
    runtime = refl;
    own = λ h. ground (arith, elem-add r.lent (safe_uid uid') (safe_uid uid));
    snapshot = λ _. refl;
  }

  set_snapshot-Still :
      (uid' : Option String) (snapshot : Fields) (r : StateRuntime b)
      → safe_uid uid' ≢ safe_uid uid
      → Still r (set_snapshot b uid' snapshot r)
  unfolding set_snapshot
  set_snapshot-Still uid' snapshot r differ = elim (Bool-cases (r.runtime == "mcp")) [
    | inl memory ↦ rw memory (record {
      registry = refl;
      runtime = refl;
      own = λ h. ground (arith, elem-discard r.lent (safe_uid uid') (safe_uid uid));
      snapshot =
          λ _. ground (arith, get-put r.memory_snapshots (safe_uid uid') (safe_uid uid) snapshot);
    })
    | inr stored ↦ elim (Bool-cases r.has_storage) [
      | inl some_storage ↦
          rw (stored, some_storage)
            (record { registry = refl; runtime = refl; own = λ h. h; snapshot = λ _. refl })
      | inr no_storage ↦
          rw (stored, no_storage)
            (record { registry = refl; runtime = refl; own = λ h. h; snapshot = λ _. refl })
    ]
  ]

  save_if-Still :
      (registry : Registry) (uid' : Option String) (r : StateRuntime b)
      → safe_uid uid' ≢ safe_uid uid
      → Still r (save_if b registry uid' r)
  unfolding save_if
  save_if-Still [] uid' r differ = Still-refl r
  save_if-Still (x ∷ registry) uid' r differ = set_snapshot-Still uid' _ r differ

  prime_snapshot-Still :
      (uid' : Option String) (v : Value) (r : StateRuntime b)
      → safe_uid uid' ≢ safe_uid uid
      → Still r (prime_snapshot b uid' v r)
  unfolding prime_snapshot
  prime_snapshot-Still uid' (obj snapshot) r differ =
      Still-trans (set_snapshot-Still uid' snapshot r differ)
        (lend-Still uid' (set_snapshot b uid' snapshot r) differ)
  prime_snapshot-Still uid' null r differ = Still-refl r
  prime_snapshot-Still uid' (bool x) r differ = Still-refl r
  prime_snapshot-Still uid' (int z) r differ = Still-refl r
  prime_snapshot-Still uid' (float z) r differ = Still-refl r
  prime_snapshot-Still uid' (str x) r differ = Still-refl r
  prime_snapshot-Still uid' (arr vs) r differ = Still-refl r

  load_snapshot-Still :
      (uid' : Option String) (snapshot : Fields) (r s : StateRuntime b)
      → safe_uid uid' ≢ safe_uid uid
      → load_snapshot b uid' snapshot r ≡ ok s
      → Still r s
  unfolding load_snapshot
  load_snapshot-Still uid' snapshot r s differ h =
      let (files, e1, h1) = >>=-eq-ok _ _ h in
      let (vars, e2, h2) = >>=-eq-ok _ _ h1 in
      let (objects, e3, h3) = >>=-eq-ok _ _ h2 in
      let still = lend-Still uid' r differ in
      subst (Still r) (ok_injective h3) (record {
        registry = still.registry;
        runtime = still.runtime;
        own = still.own;
        snapshot = still.snapshot;
      })

  load_if-Still :
      (registry : Registry) (uid' : Option String) (r s : StateRuntime b)
      → safe_uid uid' ≢ safe_uid uid
      → load_if b registry uid' r ≡ ok s
      → Still r s
  unfolding load_if
  load_if-Still [] uid' r s differ h = subst (Still r) (ok_injective h) (Still-refl r)
  load_if-Still (x ∷ registry) uid' r s differ h = load_snapshot-Still uid' _ r s differ h

  Other-Still : {r s : StateRuntime b} → Other r s → Still r s
  unfolding save_after_tool load_for_tool
  Other-Still (saved r uid' differ) = save_if-Still r.registry uid' r differ
  Other-Still (loaded r s uid' differ h) = load_if-Still r.registry uid' r s differ h
  Other-Still (failed r uid' e differ h) = lend-Still uid' r differ
  Other-Still (primed r uid' v differ) = prime_snapshot-Still uid' v r differ
  Other-Still (worked r objects files defaults memory agrees) = record {
    registry = refl;
    runtime = refl;
    own = λ h. h;
    snapshot = λ h. agrees (safe_uid uid) h;
  }

  pub Others-Still : {r s : StateRuntime b} → Others r s → Still r s
  Others-Still {r} nothing = Still-refl r
  Others-Still (further os o) = Still-trans (Others-Still os) (Other-Still o)
