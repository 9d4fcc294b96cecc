-- ===== src/Proxy.antt =====
-- crates/secureops-proxy/src/lib.rs: the forward proxy that asks the PDP per connection.
pub mod Parse
pub mod Connection
mod Tests
