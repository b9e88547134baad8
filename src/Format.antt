-- ===== src/Format.antt =====
-- pkg/datagateway/format: text cells to typed cells (convert.go), and CSV (csv.go).
pub mod Convert
pub mod Csv
pub mod Padded
pub mod Widens
pub mod Ladder
pub mod Clean
pub mod Build
