-- ===== src/Clusterset.antt =====
-- The commands on cluster sets: pkg/cmd/clusterset and pkg/cmd/{create,delete}/clusterset.
pub mod Bind
pub mod Set
pub mod Create
pub mod Delete
pub mod Safety
pub mod Outcomes
pub mod Labels
mod Tests
