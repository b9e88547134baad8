-- ===== src/Gateway.antt =====
-- pkg/datagateway: the data gateway beside a component.
pub mod RowCap
pub mod CommitPool
pub mod Session
