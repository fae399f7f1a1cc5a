-- ===== src/Sdk.antt =====
-- packages/sdk: what the parts share about the chain.
pub mod Registry
pub mod Payment
pub mod Scan
