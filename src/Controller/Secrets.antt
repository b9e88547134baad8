-- ===== src/Controller/Secrets.antt =====
-- snapshotRunSecrets and updateSecretsResolvedCondition of pkg/k8s/controllers
-- (pipelinerun_controller.go, pipelinerun_status.go). The keys that a pipeline refers to, sorted, are an
-- argument.
use datuplet.Prelude.{
  Assoc, List, Result, Text, [], bytes, err, if◌then◌else◌, is_empty, lookup, none, ok, some,
  text_eq, true, ◌++◌, ◌∷◌,
}
use datuplet.Controller.{Answers, PipelineRunStatus, World, found, get_failed, not_found}
use datuplet.Controller.Jobs.{short_id}

unfoldable pub run_secrets_name : Text → Text
run_secrets_name run_id = bytes "datuplet-runsecrets-" ++ short_id run_id

unfoldable pub missing_keys : List Text → Assoc Text Text → List Text
missing_keys [] project = []
missing_keys (name ∷ refs) project =
    let rest = missing_keys refs project in
    elim (lookup project name) [ none ↦ name ∷ rest | some v ↦ rest ]

unfoldable pub copied_keys : List Text → Assoc Text Text → Assoc Text Text
copied_keys [] project = []
copied_keys (name ∷ refs) project =
    let rest = copied_keys refs project in
    elim (lookup project name) [ none ↦ rest | some v ↦ (name, v) ∷ rest ]

-- the keys that are missing, or an error
abbrev pub Snapshot : Type 0
Snapshot = Result Text (List Text)

-- creates the snapshot of the keys, which all are there
unfoldable pub create_snapshot : Answers → Text → Assoc Text Text → World → World × Snapshot
create_snapshot a name copied w = elim a.set_owner [
  | some e ↦ (w, err e)
  | none ↦ elim a.create_secret [
    | some e ↦ (w, err e)
    | none ↦ (record w { snapshots = (name, copied) ∷ w.snapshots }, ok [])
  ]
]

unfoldable pub read_project :
    List Text → Answers → Text → World → Assoc Text Text → World × Snapshot
unfolding missing_keys copied_keys create_snapshot
read_project refs a name w project =
    let missing = missing_keys refs project in
    if is_empty missing
    then create_snapshot a name (copied_keys refs project) w
    else (w, ok missing)

-- `a.snapshot` is the error of the read of the snapshot, other than IsNotFound
unfoldable pub snapshot_run_secrets : List Text → Answers → Text → World → World × Snapshot
unfolding run_secrets_name read_project
snapshot_run_secrets [] a run_id w = (w, ok [])
snapshot_run_secrets (ref ∷ refs) a run_id w =
    let name = run_secrets_name run_id in
    elim a.snapshot [
      | some e ↦ (w, err e)
      | none ↦ elim (lookup w.snapshots name) [
        | some snap ↦ (w, ok [])
        | none ↦ elim a.project_secret [
          | get_failed e ↦ (w, err e)
          | not_found ↦ read_project (ref ∷ refs) a name w []
          | found project ↦ read_project (ref ∷ refs) a name w project
        ]
      ]
    ]

unfoldable pub update_secrets_resolved_condition : List Text → PipelineRunStatus → PipelineRunStatus
update_secrets_resolved_condition refs s =
    if is_empty refs
    then s
    else record s { secrets_resolved = some (record { status = true; message = [] }) }
