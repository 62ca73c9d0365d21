-- ===== src/Pow.antt =====
-- src/pow.c: challenges and passes, texts of fields with a signature. The hashes are mbedtls's.
pub mod Text
pub mod Answer
pub mod Bits
pub mod Issue
pub mod Solve
pub mod Genuine
mod Examples
