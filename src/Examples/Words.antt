-- ===== src/Examples/Words.antt =====
-- An assembled word: `add`, of registers 4 and 5 into register 1.
use comparing_complexity_and.Base.{◌≡◌, refl, ok}
use comparing_complexity_and.Insn.{Insn, add_fn}
use comparing_complexity_and.Interp.Tables.{array_get, label_of}
use comparing_complexity_and.Asm.Calls.{alu_reg, word, HasFields}
use comparing_complexity_and.Asm.Labels.{Names, label_of-assemble}

add-Names : Names (alu_reg add_fn 4 5 1) Insn.add
unfolding Names array_get
add-Names = refl

label_of-assemble_example :
    (label_of (word (alu_reg add_fn 4 5 1)) ≡ ok Insn.add) × HasFields (alu_reg add_fn 4 5 1)
label_of-assemble_example = label_of-assemble (alu_reg add_fn 4 5 1) Insn.add add-Names
