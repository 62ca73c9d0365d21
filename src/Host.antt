-- ===== src/Host.antt =====
-- src/host.c: the authorities of the hosts that are served, and the choice of a route.
pub mod Authority
pub mod Routes
pub mod Conflicts
pub mod Headers
mod Examples
