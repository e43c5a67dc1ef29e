-- ===== src/Resilience/Tests.antt =====
-- The theorems of package resilience at concrete inputs.
pub mod Doubles
mod Circuits
mod Loops
mod Limits
mod Bursts
mod Recoveries
