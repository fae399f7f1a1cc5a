-- ===== src/Web.antt =====
-- web/src: the parts of the dashboard that compute.
pub mod Amounts
pub mod Decimals
pub mod Drafts
pub mod Format
