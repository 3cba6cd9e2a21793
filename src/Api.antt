-- ===== src/Api.antt =====
-- internal/api: the HTTP surface of the proxy.
pub mod Routes
pub mod Payload
pub mod Decode
pub mod Respond
pub mod Access
pub mod Batch
pub mod Media
pub mod Errors
pub mod Handler
pub mod V3
