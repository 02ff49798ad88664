-- ===== src/Trans.antt =====
-- Matrix transposition, cachelab/trans.c.
pub mod Matrix
pub mod Transpose
pub mod Loops
pub mod Setting
pub mod Cover
pub mod Blocks
pub mod Submit
pub mod Check
mod Tests
