-- ===== src/Instr/Sound.antt =====
-- What the instructions (instructions.h) put into a register fits 32 bits.
use native.Mathlib.Nat.{div-le_self, mod-le}
use comparing_complexity_and.Base.{
  ℕ, ◌+◌, ◌^◌, ◌<◌, ◌==◌, Bool, true, false, if◌then◌else◌, Option, none, some, arith, ltb,
}
use comparing_complexity_and.Word.{s32, s16, u32_of}
use comparing_complexity_and.Word.Int.{ℤ, pos, negsuc, ltb_ℤ, ◌+ℤ◌, ◌-ℤ◌, shift_right}
use comparing_complexity_and.Word.Bits.{bit_and-lt, bit_or-lt, bit_xor-lt}
use comparing_complexity_and.Insn.{rs_field, rt_field, rd_field, sh_field}
use comparing_complexity_and.Machine.{Mips}
use comparing_complexity_and.Host.Sound.{IsSoundMips, set_r-IsSoundMips}
use comparing_complexity_and.Instr.Alu.{
  u32max, s32min, int_of, write_r, shift_imm, shift_reg, sll_impl, srl_impl, sra_impl, move_from,
  move_to, mult_div, mult_impl, multu_impl, div_impl, divu_impl, alu_reg, add_impl, addu_impl,
  sub_impl, subu_impl, slt_impl, sltu_impl, and_impl, or_impl, xor_impl, nor_impl, alu_imm,
  addi_impl, addiu_impl, slti_impl, sltiu_impl, andi_impl, ori_impl, xori_impl, lui_insn,
  rdhwr_insn,
}

-- A result, where there is one, fits.
abbrev pub Fits : Option ℕ → Type 0
Fits none = Unit
Fits (some v) = v < 2 ^ 32

-- The results of two operands that fit.
abbrev pub Closed : (ℕ → ℕ → Option ℕ) → Type 0
Closed impl = (a b : ℕ) → a < 2 ^ 32 → b < 2 ^ 32 → Fits (impl a b)

abbrev pub ClosedShift : (ℕ → ℕ → ℕ) → Type 0
ClosedShift impl = (a sh : ℕ) → a < 2 ^ 32 → impl a sh < 2 ^ 32

abbrev pub ClosedTwo : (ℕ → ℕ → record { lo : ℕ; hi : ℕ }) → Type 0
ClosedTwo impl =
    (a b : ℕ) → a < 2 ^ 32 → b < 2 ^ 32 → ((impl a b).lo < 2 ^ 32) × ((impl a b).hi < 2 ^ 32)

-- What keeps the processor sound.
abbrev pub KeepsSound : (Mips → Mips) → Type 0
KeepsSound f = (m : Mips) → IsSoundMips m → IsSoundMips (f m)

pub u32_of-lt : (z : ℤ) → u32_of z < 2 ^ 32
u32_of-lt (pos n) = omega arith
u32_of-lt (negsuc n) = omega arith

int_of-lt : (b : Bool) → int_of b < 2 ^ 32
int_of-lt true = omega arith
int_of-lt false = omega arith

unless_trap : (trap : Bool) (v : ℕ) → v < 2 ^ 32 → Fits (if trap then none else some v)
unless_trap true v h = tt
unless_trap false v h = h

pub sll_impl-lt : ClosedShift sll_impl
unfolding sll_impl
sll_impl-lt a sh h = omega arith

pub srl_impl-lt : ClosedShift srl_impl
unfolding srl_impl
srl_impl-lt a sh h = omega (arith, div-le_self a (2 ^ sh))

pub sra_impl-lt : ClosedShift sra_impl
unfolding sra_impl
sra_impl-lt a sh h = u32_of-lt (shift_right (s32 a) sh)

pub mult_impl-lt : ClosedTwo mult_impl
unfolding mult_impl
mult_impl-lt a b h k = (omega arith, omega arith)

pub multu_impl-lt : ClosedTwo multu_impl
unfolding multu_impl
multu_impl-lt a b h k = (omega arith, omega arith)

pub divu_impl-lt : ClosedTwo divu_impl
unfolding divu_impl
divu_impl-lt a b h k = ground (arith, div-le_self a b, mod-le a b)

pub div_impl-lt : ClosedTwo div_impl
unfolding div_impl
div_impl-lt a b h k = ground (arith, div-le_self a b, mod-le a b)

pub add_impl-Fits : Closed add_impl
unfolding add_impl
add_impl-Fits a b h k = unless_trap (ltb u32max (a + b)) _ (omega arith)

pub addu_impl-Fits : Closed addu_impl
unfolding addu_impl
addu_impl-Fits a b h k = omega arith

pub sub_impl-Fits : Closed sub_impl
unfolding sub_impl
sub_impl-Fits a b h k = unless_trap (ltb_ℤ (pos a -ℤ pos b) s32min) _ (u32_of-lt (pos a -ℤ pos b))

pub subu_impl-Fits : Closed subu_impl
unfolding subu_impl
subu_impl-Fits a b h k = omega arith

pub slt_impl-Fits : Closed slt_impl
unfolding slt_impl
slt_impl-Fits a b h k = int_of-lt (ltb_ℤ (s32 a) (s32 b))

pub sltu_impl-Fits : Closed sltu_impl
unfolding sltu_impl
sltu_impl-Fits a b h k = int_of-lt (ltb a b)

pub and_impl-Fits : Closed and_impl
unfolding and_impl
and_impl-Fits a b h k = bit_and-lt a b h k

pub or_impl-Fits : Closed or_impl
unfolding or_impl
or_impl-Fits a b h k = bit_or-lt a b h k

pub xor_impl-Fits : Closed xor_impl
unfolding xor_impl
xor_impl-Fits a b h k = bit_xor-lt a b h k

pub nor_impl-Fits : Closed nor_impl
unfolding nor_impl
nor_impl-Fits a b h k = omega arith

pub addi_impl-Fits : Closed addi_impl
unfolding addi_impl
addi_impl-Fits a b h k =
    unless_trap (ltb_ℤ (pos u32max) (pos a +ℤ s16 b)) _ (u32_of-lt (pos a +ℤ s16 b))

pub addiu_impl-Fits : Closed addiu_impl
unfolding addiu_impl
addiu_impl-Fits a b h k = omega arith

pub slti_impl-Fits : Closed slti_impl
unfolding slti_impl
slti_impl-Fits a b h k = int_of-lt (ltb_ℤ (s32 a) (s16 b))

pub sltiu_impl-Fits : Closed sltiu_impl
unfolding sltiu_impl
sltiu_impl-Fits a b h k = int_of-lt (ltb a (u32_of (s16 b)))

pub andi_impl-Fits : Closed andi_impl
unfolding andi_impl
andi_impl-Fits a b h k = bit_and-lt a b h k

pub ori_impl-Fits : Closed ori_impl
unfolding ori_impl
ori_impl-Fits a b h k = bit_or-lt a b h k

pub xori_impl-Fits : Closed xori_impl
unfolding xori_impl
xori_impl-Fits a b h k = bit_xor-lt a b h k

write_r-KeepsSound :
    (k : ℕ) (o : Option ℕ) (m : Mips) → Fits o → IsSoundMips m → IsSoundMips (write_r k o m)
write_r-KeepsSound k none m fits h = h
write_r-KeepsSound k (some v) m fits h = set_r-IsSoundMips k v m fits h

module _ (cir : ℕ) where
  pub shift_imm-KeepsSound : (impl : ℕ → ℕ → ℕ) → ClosedShift impl → KeepsSound (shift_imm impl cir)
  unfolding shift_imm
  shift_imm-KeepsSound impl closed m h =
      set_r-IsSoundMips _ _ m (closed _ (sh_field cir) (h.regs (rt_field cir))) h

  pub shift_reg-KeepsSound : (impl : ℕ → ℕ → ℕ) → ClosedShift impl → KeepsSound (shift_reg impl cir)
  unfolding shift_reg
  shift_reg-KeepsSound impl closed m h =
      set_r-IsSoundMips _ _ m (closed _ _ (h.regs (rt_field cir))) h

  pub move_from-KeepsSound : (k : ℕ) → KeepsSound (move_from k cir)
  unfolding move_from
  move_from-KeepsSound k m h = set_r-IsSoundMips _ _ m (h.regs k) h

  pub move_to-KeepsSound : (k : ℕ) → KeepsSound (move_to k cir)
  unfolding move_to
  move_to-KeepsSound k m h = set_r-IsSoundMips _ _ m (h.regs (rs_field cir)) h

  pub mult_div-KeepsSound :
      (impl : ℕ → ℕ → record { lo : ℕ; hi : ℕ }) → ClosedTwo impl → KeepsSound (mult_div impl cir)
  unfolding mult_div
  mult_div-KeepsSound impl closed m h =
      let (lo, hi) = closed _ _ (h.regs (rs_field cir)) (h.regs (rt_field cir)) in
      set_r-IsSoundMips _ _ _ hi (set_r-IsSoundMips _ _ m lo h)

  pub alu_reg-KeepsSound : (impl : ℕ → ℕ → Option ℕ) → Closed impl → KeepsSound (alu_reg impl cir)
  unfolding alu_reg
  alu_reg-KeepsSound impl closed m h =
      write_r-KeepsSound _ _ m (closed _ _ (h.regs (rs_field cir)) (h.regs (rt_field cir))) h

  pub alu_imm-KeepsSound : (impl : ℕ → ℕ → Option ℕ) → Closed impl → KeepsSound (alu_imm impl cir)
  unfolding alu_imm
  alu_imm-KeepsSound impl closed m h =
      write_r-KeepsSound _ _ m (closed _ _ (h.regs (rs_field cir)) (omega arith)) h

  pub lui_insn-KeepsSound : KeepsSound (lui_insn cir)
  unfolding lui_insn
  lui_insn-KeepsSound m h = set_r-IsSoundMips _ _ m (omega arith) h

  pub rdhwr_insn-KeepsSound : KeepsSound (rdhwr_insn cir)
  unfolding rdhwr_insn
  rdhwr_insn-KeepsSound m h =
      set_r-IsSoundMips _ _ m (hardware_register-lt (rd_field cir) m.user_local_ptr h.local) h
    where
      hardware_register-lt :
          (rd v : ℕ) → v < 2 ^ 32 → (if rd == 3 then 1 else if rd == 29 then v else 0) < 2 ^ 32
      hardware_register-lt rd v fits = ground arith
