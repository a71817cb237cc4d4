-- ===== src/Examples/Delayed.antt =====
-- A program of two blocks that exits in a delay slot, and a sound machine about to run it.
use comparing_complexity_and.Base.{
  ℕ, ◌^◌, ◌<◌, ◌≡◌, ◌==◌, if◌then◌else◌, none, some, List, [], ◌∷◌, AllOf, Bool, true, false, ltb,
  ◌&&◌, refl, ◌∙◌, ap, subst, arith,
}
use comparing_complexity_and.Memory.{Memory, Page, PageTable, put_bytes, pt_idx, pe_idx}
use comparing_complexity_and.Memory.Flat.{find_page-eq-ok}
use comparing_complexity_and.Memory.Bytes.{IsByte, IsBytes, put_bytes-IsByte}
use comparing_complexity_and.Host.{Machine}
use comparing_complexity_and.Host.Sound.{IsSound}
use comparing_complexity_and.Examples.Sample.{program_memory, start_mips}

-- `addiu $v0, $zero, 4001`, `beq $zero, $zero, 2`, `addiu $a0, $zero, 7`, a word that is skipped,
-- `beq $zero, $zero, 2` and `syscall`, which exits with status 7.
abbrev pub delayed : List ℕ
delayed =
    0xa1 ∷ 0x0f ∷ 0x02 ∷ 0x24 ∷ 0x02 ∷ 0x00 ∷ 0x00 ∷ 0x10 ∷ 0x07 ∷ 0x00 ∷ 0x04 ∷ 0x24 ∷ 0xff ∷ 0xff
    ∷ 0xff ∷ 0xff ∷ 0x02 ∷ 0x00 ∷ 0x00 ∷ 0x10 ∷ 0x0c ∷ 0x00 ∷ 0x00 ∷ 0x00 ∷ []

abbrev pub delayed_memory : Memory
delayed_memory = record program_memory {
  page_tables = λ t.
      if t == 1
      then some (λ e. if e == 0 then some (put_bytes (λ _. 0) 0 delayed) else none)
      else none;
}

abbrev pub first : Machine
first = record { mips = start_mips; memory = delayed_memory; calls = [] }

abbrev delayed_page : Page
delayed_page = put_bytes (λ _. 0) 0 delayed

are_bytes : List ℕ → Bool
are_bytes [] = true
are_bytes (b ∷ bs) = ltb b 256 && are_bytes bs

are_bytes-IsByte : (bs : List ℕ) → are_bytes bs ≡ true → AllOf IsByte bs
unfolding are_bytes
are_bytes-IsByte [] h = tt
are_bytes-IsByte (b ∷ bs) h = (ground arith, are_bytes-IsByte bs (ground arith))

delayed-IsByte : AllOf IsByte delayed
unfolding are_bytes
delayed-IsByte = are_bytes-IsByte delayed refl

unless_none {ℓ} :
    {A : Type ℓ} {a b : A} (test : Bool) → (if test then some a else none) ≡ some b → a ≡ b
unless_none true h = cc
unless_none false h = cc

pub delayed_memory-IsBytes : IsBytes delayed_memory
delayed_memory-IsBytes x k p e =
    let (t, table, page) = find_page-eq-ok delayed_memory x e in
    let entries = unless_none (pt_idx x == 1) table in
    let found : delayed_page ≡ p =
      unless_none (pe_idx x == 0) (ap (λ (t : PageTable). t (pe_idx x)) entries ∙ page) in
    subst (λ (p : Page). IsByte (p k)) found
      (put_bytes-IsByte (λ _. 0) 0 delayed (λ _. omega arith) delayed-IsByte k)

first-regs : (k : ℕ) → start_mips.r k < 2 ^ 32
first-regs k = ground arith

pub first-IsSound : IsSound first
first-IsSound = record {
  mips = record { regs = first-regs; local = omega arith };
  bytes = delayed_memory-IsBytes;
}
