-- ===== src/Cre.antt =====
-- cre/lib: the pure code that the two workflows bundle.
pub mod Judge
pub mod RelayPayload
pub mod Reputation
pub mod LogRange
pub mod RequestBody
