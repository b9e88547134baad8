-- ===== src/Runs.antt =====
-- The runs of the pipeline API: their rows and pages (pkg/pipelineapi/store/run.go and cursor.go)
-- and what mirrors the cluster's PipelineRuns into them (pkg/pipelineapi/k8s).
pub mod Store
pub mod Mirror
pub mod Pages
