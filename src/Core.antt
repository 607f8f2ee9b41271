-- ===== src/Core.antt =====
-- include/tda/core and src/core: the vocabulary that the containers and algorithms are written in.
pub mod Status
pub mod Size
pub mod Int
pub mod Cmp
pub mod Bits
pub mod Span
