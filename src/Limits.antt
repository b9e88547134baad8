-- ===== src/Limits.antt =====
-- Small guards of the platform: the rate limiter of the login endpoint (pkg/pipelineapi/auth), the retry
-- of commits (pkg/catalogwriter) and the clamp of a component's resources (pkg/k8s/controllers).
pub mod RateLimit
pub mod Retry
pub mod Clamp
