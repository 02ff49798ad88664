-- ===== src/Isa.antt =====
-- The Y86-64 instruction set of archlab/sim/misc/isa.c: words, memory, registers, the ALU
-- with its condition codes, and the execution of one instruction.
pub mod Word
pub mod Memory
pub mod Registers
pub mod Alu
pub mod State
pub mod Step
pub mod Table
pub mod Loader
pub mod LoaderLaws
pub mod LoadFile
pub mod TableLaws
mod Tests
mod LoadTests
