-- ===== src/Dots.antt =====
-- src/dots_policy.c: the pure helpers of the DOTS data channel client.
pub mod Tracker
pub mod Names
pub mod Reply
pub mod Acl
