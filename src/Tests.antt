-- ===== src/Tests.antt =====
-- Runs of the definitions, and the theorems at concrete inputs.
mod Conversions
mod Reading
mod Handling
mod Writing
mod Buffers
mod Duplicates
mod Addresses
mod Timers
