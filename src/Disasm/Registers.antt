-- ===== src/Disasm/Registers.antt =====
-- `print_mips_registers` (mips.h, lines 160-165), and a reader of what it prints.
use comparing_complexity_and.Base.{
  ℕ, zero, suc, ◌==◌, ◌&&◌, Bool, true, false, if◌then◌else◌, Option, none, some, List, [], ◌∷◌,
  ◌++◌, drop, map,
}
use comparing_complexity_and.Machine.{
  Mips, mips_r_hi, mips_r_lo, mips_r_pc, mips_r_npc, mips_r_nnpc, mips_r_reg_max,
}
use comparing_complexity_and.Disasm.Text.{codes, hex_padded, read_hex}
use comparing_complexity_and.Disasm.Format.{register_name}

-- `"%s: 0x%08x\n"` for each register, from the `k`-th on.
unfoldable pub print_registers : ℕ → ℕ → Mips → List (List ℕ)
print_registers zero k mips = []
print_registers (suc n) k mips =
    (register_name k ++ (codes ": 0x" ++ (hex_padded 8 (mips.r k) ++ codes "\n")))
    ∷ print_registers n (suc k) mips

unfoldable pub print_mips_registers : Mips → List (List ℕ)
print_mips_registers mips = codes "mips-register contents\n" ∷ print_registers mips_r_reg_max 0 mips

-- What stands before and behind the first colon.
abbrev pub before_colon : List ℕ → List ℕ
before_colon [] = []
before_colon (c ∷ cs) = if c == 58 then [] else c ∷ before_colon cs

abbrev pub after_colon : List ℕ → List ℕ
after_colon [] = []
after_colon (c ∷ cs) = if c == 58 then cs else after_colon cs

-- The name of a line, and the number behind ` 0x`.
unfoldable pub read_register : List ℕ → List ℕ × ℕ
read_register cs = (before_colon cs, (read_hex 0 (drop 3 (after_colon cs))).0)

-- The value beside a name.
abbrev pub same_text : List ℕ → List ℕ → Bool
same_text [] [] = true
same_text [] (d ∷ ds) = false
same_text (c ∷ cs) [] = false
same_text (c ∷ cs) (d ∷ ds) = c == d && same_text cs ds

abbrev pub value_of : List ℕ → List (List ℕ × ℕ) → Option ℕ
value_of name [] = none
value_of name (entry ∷ entries) =
    if same_text entry.0 name then some entry.1 else value_of name entries

-- The printed registers, behind the heading.
abbrev pub read_registers : Mips → List (List ℕ × ℕ)
read_registers mips = map read_register (drop 1 (print_mips_registers mips))

-- The names of the MIPS calling convention, with the numbers that it gives the registers, and the
-- registers behind these by their constants in mips.h.
abbrev pub known_registers : List (List ℕ × ℕ)
known_registers =
    (codes "%zr", 0)
    ∷ (codes "%at", 1)
    ∷ (codes "%v0", 2)
    ∷ (codes "%v1", 3)
    ∷ (codes "%a0", 4)
    ∷ (codes "%a1", 5)
    ∷ (codes "%a2", 6)
    ∷ (codes "%a3", 7)
    ∷ (codes "%t0", 8)
    ∷ (codes "%t1", 9)
    ∷ (codes "%t2", 10)
    ∷ (codes "%t3", 11)
    ∷ (codes "%t4", 12)
    ∷ (codes "%t5", 13)
    ∷ (codes "%t6", 14)
    ∷ (codes "%t7", 15)
    ∷ (codes "%s0", 16)
    ∷ (codes "%s1", 17)
    ∷ (codes "%s2", 18)
    ∷ (codes "%s3", 19)
    ∷ (codes "%s4", 20)
    ∷ (codes "%s5", 21)
    ∷ (codes "%s6", 22)
    ∷ (codes "%s7", 23)
    ∷ (codes "%t8", 24)
    ∷ (codes "%t9", 25)
    ∷ (codes "%k0", 26)
    ∷ (codes "%k1", 27)
    ∷ (codes "%gp", 28)
    ∷ (codes "%sp", 29)
    ∷ (codes "%fp", 30)
    ∷ (codes "%ra", 31)
    ∷ (codes "%hi", mips_r_hi)
    ∷ (codes "%lo", mips_r_lo)
    ∷ (codes "%pc", mips_r_pc)
    ∷ (codes "%npc", mips_r_npc)
    ∷ (codes "%nnpc", mips_r_nnpc)
    ∷ []
