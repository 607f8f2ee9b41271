-- ===== src/Ds.antt =====
-- include/tda/ds and src/ds: the owning containers.
pub mod Block
pub mod Handle
pub mod Vec
pub mod Deque
pub mod Hmap
pub mod Hset
pub mod Stack
pub mod Queue
pub mod Pqueue
