-- ===== src/Tests.antt =====
-- The theorems at concrete inputs that meet their hypotheses, and runs of the definitions.
mod Table
mod Searches
mod Heaps
mod Vecs
mod Deques
mod Hmaps
mod Adapters
mod Sorts
