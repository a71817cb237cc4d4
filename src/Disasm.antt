-- ===== src/Disasm.antt =====
-- The listing that the interpreters print when `__DISASSEMBLE__` is defined.
pub mod Text
pub mod Format
pub mod Calls
pub mod Reading
pub mod Registers
pub mod Names
pub mod Address
pub mod Listing
pub mod Rounds
pub mod Trace
