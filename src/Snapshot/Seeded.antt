-- ===== src/Snapshot/Seeded.antt =====
-- The snapshots of targets and services (atsuite/state_snapshot.py).
use atsuite.Base.{
  String, true, false, ◌≡◌, Option, some, List, [], ◌∷◌, string_eq, arith, Bool-cases, Option-cases,
  inl, inr, In, first, later, In-append, append-In,
}
use atsuite.Base.Json.{Value, Fields}
use atsuite.Base.Text.{◌&◌, is_empty, strip}
use atsuite.Base.Sets.{elem}
use atsuite.Snapshot.{
  maybe_attach_agentcore_state_snapshot, Seeds, Upload, put_object, append, no_seeds,
  payload_snapshot, seed_service, seed_services, services_of, seed_lambda_state_snapshot_for_uid,
  seed_alifc_state_snapshot_for_uid,
}

-- After a call for a target, a further call for it with the same bundle returns its arguments and
-- the set of seeded targets unchanged.
pub maybe_attach_once :
    (args later_args : Fields) (provider target_name : String) (bundle : Option Fields)
    (seeded : List String)
    → maybe_attach_agentcore_state_snapshot later_args provider target_name bundle
        (maybe_attach_agentcore_state_snapshot args provider target_name bundle seeded).1
      ≡ (
        later_args,
        (maybe_attach_agentcore_state_snapshot args provider target_name bundle seeded).1,
      )
unfolding maybe_attach_agentcore_state_snapshot
maybe_attach_once args later_args provider target_name bundle seeded = ground arith

-- Seeding a service undoes nothing.
seed_service-keeps :
    (upload : String → Fields → Upload) (uid : String) (x : String × Value) (s : Seeds)
    → ((u : Upload) → In u s.uploads → In u (seed_service upload uid x s).uploads)
      × ((k : String)
          → elem s.seeded_services k ≡ true
          → elem (seed_service upload uid x s).seeded_services k ≡ true)
unfolding seed_service elem
seed_service-keeps upload uid (name, payload) s = elim (Bool-cases (is_empty (strip name))) [
  | inl blank ↦ rw blank ((λ u h. h), λ k h. h)
  | inr named ↦ elim (Option-cases (payload_snapshot payload)) [
    | inl missing ↦ rw (named, missing) ((λ u h. h), λ k h. h)
    | inr (snapshot, found) ↦ rw (named, found) ((λ u h. In-append _ h), λ k h. ground arith)
  ]
]

seed_services-keeps :
    (upload : String → Fields → Upload) (uid : String) (services : List (String × Value))
    (s : Seeds)
    → ((u : Upload) → In u s.uploads → In u (seed_services upload uid services s).uploads)
      × ((k : String)
          → elem s.seeded_services k ≡ true
          → elem (seed_services upload uid services s).seeded_services k ≡ true)
unfolding seed_services
seed_services-keeps upload uid [] s = ((λ u h. h), λ k h. h)
seed_services-keeps upload uid (x ∷ services) s =
    let (uploads, seeded) = seed_service-keeps upload uid x s in
    let (uploads', seeded') =
      seed_services-keeps upload uid services (seed_service upload uid x s) in
    ((λ u h. uploads' u (uploads u h)), λ k h. seeded' k (seeded k h))

seed_service-In :
    (upload : String → Fields → Upload) (uid name : String) (payload : Value) (snapshot : Fields)
    (s : Seeds)
    → is_empty (strip name) ≡ false
    → payload_snapshot payload ≡ some snapshot
    → In
        (upload (name & "/" & uid & ".json") snapshot)
        (seed_service upload uid (name, payload) s).uploads
      × (elem (seed_service upload uid (name, payload) s).seeded_services name ≡ true)
unfolding seed_service elem
seed_service-In upload uid name payload snapshot s named found =
    rw (named, found) (append-In s.uploads first, ground arith)

seed_services-In :
    (upload : String → Fields → Upload) (uid : String) (services : List (String × Value))
    (s : Seeds) (name : String) (payload : Value) (snapshot : Fields)
    → In (name, payload) services
    → is_empty (strip name) ≡ false
    → payload_snapshot payload ≡ some snapshot
    → In
        (upload (name & "/" & uid & ".json") snapshot)
        (seed_services upload uid services s).uploads
      × (elem (seed_services upload uid services s).seeded_services name ≡ true)
unfolding seed_services
seed_services-In upload uid [] s name payload snapshot h named found = elim h [ ]
seed_services-In upload uid (x ∷ services) s name payload snapshot first named found =
    let (up, seed) = seed_service-In upload uid name payload snapshot s named found in
    let (uploads, seeded) = seed_services-keeps upload uid services (seed_service upload uid x s) in
    (uploads _ up, seeded name seed)
seed_services-In upload uid (x ∷ services) s name payload snapshot (later h) named found =
    seed_services-In upload uid services (seed_service upload uid x s) name payload snapshot h named
      found

-- For a service of the bundle whose name is not blank and whose payload has a snapshot, seeding for
-- AWS Lambda puts that snapshot under the service's key for the uid, seeding for Ali FC appends it
-- under that key, and both report the service as seeded.
pub seed-In :
    (uid : String) (bundle : Option Fields) (name : String) (payload : Value) (snapshot : Fields)
    → In (name, payload) (services_of bundle)
    → is_empty (strip name) ≡ false
    → payload_snapshot payload ≡ some snapshot
    → (In
          (put_object (name & "/" & uid & ".json") snapshot)
          (seed_lambda_state_snapshot_for_uid "aws_lambda" uid bundle).uploads
        × (elem (seed_lambda_state_snapshot_for_uid "aws_lambda" uid bundle).seeded_services name
            ≡ true))
      × (In
            (append (name & "/" & uid & ".json") snapshot)
            (seed_alifc_state_snapshot_for_uid "ali_fc" uid bundle).uploads
          × (elem (seed_alifc_state_snapshot_for_uid "ali_fc" uid bundle).seeded_services name
              ≡ true))
unfolding seed_lambda_state_snapshot_for_uid seed_alifc_state_snapshot_for_uid string_eq
seed-In uid bundle name payload snapshot h named found = (
  seed_services-In put_object uid (services_of bundle) no_seeds name payload snapshot h named found,
  seed_services-In append uid (services_of bundle) no_seeds name payload snapshot h named found,
)
