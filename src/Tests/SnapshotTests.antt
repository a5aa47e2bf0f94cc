-- ===== src/Tests/SnapshotTests.antt =====
-- State snapshots of atsuite/state_snapshot.py on a small bundle.
use atsuite.Base.{true, some, [], ◌∷◌, ◌≡◌, refl, In, first, string_eq}
use atsuite.Base.Json.{Value, int, obj, Fields, end, field, find}
use atsuite.Base.Int.{pos}
use atsuite.Base.Text.{strip}
use atsuite.Base.Convert.{entries}
use atsuite.Base.Sets.{elem}
use atsuite.Snapshot.{
  put_object, append, object_in, snapshot_in, payload_snapshot, services_of,
  maybe_attach_agentcore_state_snapshot, seed_lambda_state_snapshot_for_uid,
  seed_alifc_state_snapshot_for_uid,
}
use atsuite.Snapshot.Seeded.{maybe_attach_once, seed-In}

abbrev snapshot : Fields
snapshot = field "count" (int (pos 3)) end

abbrev payload : Value
payload = obj (field "snapshot" (obj snapshot) end)

abbrev bundle : Fields
bundle = field "services" (obj (field "files" payload end)) end

maybe_attach_once_example :
    maybe_attach_agentcore_state_snapshot end "aws_agentcore" "files"
      (some bundle)
      (maybe_attach_agentcore_state_snapshot end "aws_agentcore" "files" (some bundle) []).1
    ≡ (end, (maybe_attach_agentcore_state_snapshot end "aws_agentcore" "files" (some bundle) []).1)
maybe_attach_once_example = maybe_attach_once end end "aws_agentcore" "files" (some bundle) []

attach_test :
    maybe_attach_agentcore_state_snapshot end "aws_agentcore" "files" (some bundle) []
    ≡ (field "__atsuite_state_snapshot" (obj snapshot) end, "files" ∷ [])
unfolding maybe_attach_agentcore_state_snapshot snapshot_in object_in find string_eq
attach_test = refl

seed-In_example :
    (In
        (put_object "files/u.json" snapshot)
        (seed_lambda_state_snapshot_for_uid "aws_lambda" "u" (some bundle)).uploads
      × (elem
            (seed_lambda_state_snapshot_for_uid "aws_lambda" "u" (some bundle)).seeded_services
            "files"
          ≡ true))
    × (In
          (append "files/u.json" snapshot)
          (seed_alifc_state_snapshot_for_uid "ali_fc" "u" (some bundle)).uploads
        × (elem
              (seed_alifc_state_snapshot_for_uid "ali_fc" "u" (some bundle)).seeded_services
              "files"
            ≡ true))
unfolding services_of object_in find string_eq entries strip payload_snapshot
seed-In_example = seed-In "u" (some bundle) "files" payload snapshot first refl refl
