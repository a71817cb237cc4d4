-- ===== src/Host.antt =====
-- The host under the emulator: the calls of the C library that the source makes. What a call
-- answers is an arbitrary function of the calls made before it, so every environment is one of
-- these. `garbage` is what the bytes of a fresh `malloc` hold.
pub mod Sound
use comparing_complexity_and.Base.{ℕ, Bool, Option, List, ◌∷◌}
use comparing_complexity_and.Machine.{Mips}
use comparing_complexity_and.Memory.{Memory}

-- The calls, with what the guest hands over; `open`'s mode is there only with `O_CREAT`.
pub data HostCall : Type 0 where
  read : (fd size : ℕ) → HostCall
  write : (fd : ℕ) → (bytes : List ℕ) → HostCall
  open_file : (name : List ℕ) → (flags : ℕ) → (mode : Option ℕ) → HostCall
  close : (fd : ℕ) → HostCall
  lseek : (fd offset whence : ℕ) → HostCall
  get_winsize : (fd : ℕ) → HostCall
  clock_gettime : (clock_id : ℕ) → HostCall

-- `result` is the returned value as a 64-bit pattern. `payload` is what the host stores: the bytes
-- read, the four fields of `struct winsize`, or `tv_sec` and `tv_nsec`.
pub record Reply : Type 0 where
  pub result : ℕ
  pub payload : List ℕ

pub record Env : Type 0 where
  pub reply : List HostCall → HostCall → Reply
  pub malloc : List HostCall → ℕ → Bool
  pub garbage : List HostCall → ℕ → ℕ
  pub calloc : Memory → ℕ → Bool
  pub o_creat : ℕ

-- The state of an interpreter: `struct mips`, `struct memory`, and the calls made, last one first.
pub record Machine : Type 0 where
  pub mips : Mips
  pub memory : Memory
  pub calls : List HostCall

abbrev pub set_mips : Mips → Machine → Machine
set_mips x s = record s { mips = x }

abbrev pub set_memory : Memory → Machine → Machine
set_memory x s = record s { memory = x }

abbrev pub called : HostCall → Machine → Machine
called c s = record s { calls = c ∷ s.calls }
