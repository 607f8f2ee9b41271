-- ===== src/Algo.antt =====
-- include/tda/algo and src/algo: operations over spans.
pub mod Search
pub mod Find
pub mod Heap
pub mod Extreme
pub mod Modify
pub mod Merge
pub mod Sort
