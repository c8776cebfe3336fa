-- ===== src/Tests.antt =====
-- The theorems at concrete inputs.
mod Stores
mod Files
mod Indices
mod Threads
mod Caches
mod States
mod Blocks
