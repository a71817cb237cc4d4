-- ===== src/Instr.antt =====
-- The effect of each instruction (instructions.h): operand types, `ITP_TYPE_*`, as functions of
-- the instruction word and an implementation, `ITP_*_IMPL`, as a function of the operands.
pub mod Alu
pub mod Control
pub mod Transfer
pub mod Exec
pub mod Product
pub mod Signed
pub mod Delay
pub mod Sound
pub mod Preserve
pub mod Every
pub mod Plain
pub mod Branches
pub mod Calls
pub mod Quiet
pub mod Unaligned
