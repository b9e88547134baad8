-- ===== src/Lib.antt =====
-- Datuplet runs data pipelines on Kubernetes and writes their outputs as Iceberg tables. A component
-- of a pipeline talks to a gateway beside it (pkg/datagateway), which parses what the component
-- writes, stores it as files and commits them at the end of the session; the pipeline API
-- (pkg/pipelineapi) keeps a row for each run and mirrors the cluster's state into it; a controller
-- (pkg/k8s/controllers) runs the stages.
--
-- Schema: the tables' schemas and the inference of column types from text
--   (pkg/datagateway/schema/types.go, inference.go). Schema.Inference holds the state of a column and
--   the loop over the rows, Inference.Lexing the two regular expressions, ParseInt and TrimSpace.
-- Format: CSVAdapter.Parse and the appenders it uses (pkg/datagateway/format/csv.go, convert.go).
-- Gateway.RowCap: the row limit of a preview (pkg/datagateway/row_cap.go).
-- Gateway.CommitPool: the pool of inline commits (pkg/datagateway/commit_pool.go) as a step relation:
--   a critical section, and what a goroutine does between two of them, is one step; Key is its
--   idempotency key.
-- Gateway.Session: closing writers and the Commit barrier (pkg/datagateway/server_v2_writing.go,
--   server_v2_commit.go), which dispatches to the pool and reads its results.
-- Runs.Store: a row of runs under UpdateRunPhase (pkg/pipelineapi/store/run.go).
-- Runs.Pages: the listing of runs page by page (run.go, cursor.go in pkg/pipelineapi/store).
-- Runs.Mirror: the observer, the updater, the coalescing decorator and the reaper that write such rows
--   (pkg/pipelineapi/k8s/observer.go, db_updater.go, coalesce.go, reaper.go, run_create.go).
-- Limits: the login rate limiter (pkg/pipelineapi/auth/ratelimit.go), the retries of commits
--   (pkg/catalogwriter/retry.go), the resource clamp (pkg/k8s/controllers/resource_clamp.go).
-- Pipeline: the types of a pipeline (pkg/k8s/api/v1/pipeline_types.go). Pipeline.Validate: ValidateTyped
--   and what it calls (pkg/pipeline/validate/validate.go, policy.go), the registry that resolves a
--   reference (registry.go, pkg/k8s/api/v1/component_types.go) and the syntax of secret references
--   (pkg/lib/secrets/secrets.go): Names, Outputs, Inputs, Components, Registry and Typed hold the
--   checks, Versions the form of a version's text, the other children proofs.
-- Controller: one Reconcile of a run, from Pending to its end, as a function from the answers of the
--   cluster and the world (the status, the retry counters, the Jobs, ConfigMaps, Secrets and pods) to
--   the next world and an outcome (pkg/k8s/controllers/pipelinerun_controller.go, pipelinerun_jobs.go,
--   pipelinerun_status.go, pkg/lib/status/status.go, pkg/k8s/api/v1/pipelinerun_types.go). Admission
--   freezes the pipeline, Stages starts a stage's Jobs, Checks reads them, Secrets copies the secrets,
--   Findings reads the validation, Reconcile composes them; Runs is the step relation of a run under
--   any sequence of answers. It takes the findings of validation and the registry as arguments, which
--   Pipeline.Validate fills. Ordered, Frozen, Finishes, Budget and Collide hold proofs.
-- Prelude holds what these share; Tests has the theorems at concrete inputs.
--
-- A record stands for a struct with its fields' names, a function for a method, with the state it
-- changes as argument and result; a Go map is an association list with each key once. Texts are lists
-- of bytes, instants and durations numbers. Counters are unbounded where the code counts rows or
-- bytes; the session counter of the pool, the backoff and the int32 counts wrap as written. Loops are
-- recursion on the list they walk; the decimal printer takes as fuel the number plus one, which is
-- more than its digits, and a client of the listing takes as fuel a page for each run and one more,
-- since each page but the last has a run.
--
-- A run of reconciles is a step relation without a bound; the liveness of a run takes as many
-- reconciles as three for each stage and two more, one for each start, check and change of stage.
-- The counters of retries that the controller keeps in memory are numbers without a bound.
--
-- Arguments stand for what is not in this repository: ParseFloat, time.Parse, the hash, the order in
-- which Go visits a map, the storage, the catalog, the cluster and the database's failures, the
-- transforms of iceberg-go, time.ParseDuration, the JSON of a config and of its schema. Logs,
-- metrics, the partition tuples that the pool passes on, the jitter of the backoff and the encodings
-- of Arrow values are not modelled, nor are the pod of a Job, the configuration of the gateway in it,
-- the reading of a pod's log, the parsing of pipeline documents, previews beyond the row limit and
-- the timeout of a run, the rest of the gateway, the extractors, the query engine and the HTTP handlers.
mod Prelude
pub mod Schema
pub mod Format
pub mod Gateway
pub mod Runs
pub mod Limits
pub mod Pipeline
pub mod Controller
pub mod Tests
