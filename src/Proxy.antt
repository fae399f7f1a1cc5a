-- ===== src/Proxy.antt =====
-- proxy/src: the relay between an agent and the providers.
pub mod Address
pub mod Upstream
pub mod Route
pub mod Router
pub mod HeaderText
pub mod Paid
pub mod Discovery
pub mod Callback
pub mod Own
pub mod Evidence
pub mod Disclosure
pub mod Pending
mod Examples
