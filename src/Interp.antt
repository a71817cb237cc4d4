-- ===== src/Interp.antt =====
-- The interpreters. `fetch` is the same code in all of them but for the dispatch; an interpreter
-- runs on fuel, one unit for each instruction, since a guest program need not stop.
pub mod Tables
pub mod Switch
pub mod ComputedGoto
pub mod TailCall
pub mod Sound
