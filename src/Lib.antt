-- ===== src/Lib.antt =====
-- Verification of the MIPS R3000 interpreters: four interpreters of the same instruction set that
-- differ in how they dispatch, over shared code for instructions, memory and system calls.
--
-- The program's parts and the files that model them (paths from the repository's root):
--   common.h           the integer types (Word), the fields and opcodes of an instruction (Insn)
--   mips.h             the processor state and INCREMENT_PC (Machine), the X-macro tables (Insn,
--                      and Instr/Exec for the implementations that they name)
--   memory.h, memory.c the two-level page table: accesses, copies, memory_set, memory_allocate
--                      (Memory); Memory/Flat is the view of it as a byte at each address
--   instructions.h     operand types and implementations: Instr/Alu, Instr/Control (branches and
--                      jumps), Instr/Transfer (loads and stores); Instr/Product, Instr/Signed,
--                      Instr/Delay and Instr/Unaligned are about what they compute
--   syscalls.h         the system calls (Syscall), their dispatch (Syscall/Dispatch); Syscall/Io,
--                      Syscall/Names, Syscall/Vectors and Syscall/Heap are about single ones
--   switch.c, computed-goto.c, tail-call.c   Interp/Switch, Interp/ComputedGoto, Interp/TailCall;
--                      the label arrays are Interp/Tables
--   blocked.c          decoding and running of blocks (Blocked), the block cache and its loops
--                      (Blocked/Chain); Blocked/Duff and Blocked/Decode are about one block,
--                      Blocked/Cache, Blocked/Links and Blocked/Runs about the cache,
--                      Blocked/Simulation, Blocked/Agreement and Blocked/Ending compare it with
--                      switch.c
--   loader.c           the ELF loader (Loader), the initial stack and the whole load (Loader/Stack);
--                      Loader/Segments, Loader/Start, Loader/Entry, Loader/Bytes and Loader/Sound are
--                      about their results
--   main of the four interpreters, and memory_delete   Main, Main/Agree, Main/Free, Main/Blocked
--   tests/test.h       the assemblers of instruction words (Asm), by their fields (Asm/Fields,
--                      Asm/Calls) and the label arrays (Asm/Labels)
--   the listing printed with __DISASSEMBLE__ (instructions.h, mips.h, and switch.c,
--                      computed-goto.c, tail-call.c): Disasm/Text (printf), Disasm/Format,
--                      Disasm/Calls (the line of mprotect), Disasm/Listing; Disasm/Reading,
--                      Disasm/Address, Disasm/Rounds and Disasm/Trace are about what it says;
--                      Disasm/Registers is print_mips_registers, and Disasm/Names about it
-- Sound machines (Host/Sound, Memory/Bytes) have registers that hold a u32 and pages that hold
-- bytes; Syscall/Kept, Syscall/Sound, Instr/Sound, Instr/Preserve, Instr/Every, Interp/Sound and
-- Blocked/Sound are about them. Instr/Quiet says which instructions leave the memory and the host
-- alone, Instr/Plain and Instr/Calls which ones do not look at the program counters,
-- Instr/Branches where the branches lead, and Blocked/Plain, Blocked/Jumps and Blocked/Next what
-- that means for a block.
-- Memory/Progress, Syscall/Progress, Loader/Progress and Loader/Total are about a host that does
-- not run out of memory.
-- Host is the C library under the emulator: a call's answer is an arbitrary function of the calls
-- made before it, and a machine keeps the list of its calls, so equal machines have made the same
-- calls. Base has what all share; Examples has tests and instances.
--
-- How the model reads the source. A C value of an unsigned type is a natural number below its
-- modulus, with the wrap-around written out; a signed value is its bit pattern, read by s32, s16
-- and s8. A call returns ok, aborted (abort or a failed assert), fault (what C leaves undefined: a
-- null page, table or label, an access past a page's end), or timeout. Loops over pages are
-- given as many rounds as there are bytes, which is enough as each round moves one at least. An
-- interpreter has a unit of fuel for each instruction or block, as a guest program need not stop;
-- the search for a file name's end and the decoding of a block have a unit for each byte or word
-- looked at. Accesses that are not aligned are those of the host processor, and the host is
-- little-endian. Every page and table has its own calloc, so pages are values; whether an
-- allocation succeeds is a parameter. The loader's file and the layouts of elf.h are one as well.
--
-- Text that is printed is a list of character codes, by the conversions of printf that the source
-- uses; a listing is kept apart from what the guest writes.
--
-- Not modelled: messages before an abort, log.c, the listing of blocked.c, the profiling hooks, the
-- frees of blocks at the end of a run, the growth of a block's array of operations, and the load
-- delay, which the build does not enable; the tests themselves, which call a memory interface that
-- the source no longer has. uthash is another project; blocked.c's calls of it are the parameter
-- HashTable.
pub mod Base
pub mod Word
pub mod Insn
pub mod Machine
pub mod Memory
pub mod Host
pub mod Syscall
pub mod Instr
pub mod Interp
pub mod Blocked
pub mod Loader
pub mod Main
pub mod Disasm
pub mod Asm
pub mod Examples
