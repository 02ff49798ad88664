-- ===== src/Datalab.antt =====
-- The bit puzzles of datalab/bits.c, on 32-bit words.
pub mod Int32
pub mod Puzzles
pub mod Floats
pub mod Logic
pub mod Masks
pub mod FloatLaws
pub mod FloatInts
pub mod Count
pub mod HowMany
mod Tests
