-- ===== src/Tests.antt =====
-- The theorems at concrete inputs, with fixed-point numbers for `double`.
mod Data
mod Structures
mod Linked
mod Runs
mod Gate
mod Discovery
mod Order
mod Handlers
