-- ===== src/Sla.antt =====
-- packages/sla: the SLA evaluation engine. It is pure: what it looks at is an argument.
pub mod JsonSchema
pub mod MetaSchema
pub mod Observation
pub mod Clauses
pub mod Document
pub mod Evaluate
pub mod Aggregate
