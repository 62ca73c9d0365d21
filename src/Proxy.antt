-- ===== src/Proxy.antt =====
-- src/proxy.c: trusted networks, forwarding headers, and the address of the client.
pub mod Address
pub mod Network
pub mod Forwarded
pub mod Resolve
mod Examples
