-- ===== src/Csim.antt =====
-- The cache simulator, cachelab/csim.c: sets as linked lists of lines on a heap, the address
-- split and the replay of a trace. The names of the C functions are kept in snake case.
pub mod Heap
pub mod Set
pub mod Sim
pub mod Address
pub mod Lru
pub mod Links
pub mod Move
pub mod SetCells
pub mod Rounds
pub mod Search
pub mod Load
pub mod Refine
pub mod AddressLaws
pub mod Table
pub mod Tally
pub mod Trace
mod Tests
