-- ===== src/Helper.antt =====
-- src/helper.rs: what a response's bytes are turned into.
pub mod PropertyId
pub mod PackedDate
pub mod RateFeatures
pub mod Samples
mod Examples
