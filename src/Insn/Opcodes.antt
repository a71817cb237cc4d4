-- ===== src/Insn/Opcodes.antt =====
-- The opcodes of common.h, lines 64-143: the primary ones, the function codes under opcode 0 and
-- the `rt` codes under opcode 1.
use comparing_complexity_and.Base.{ℕ}

abbrev pub blez_op : ℕ
blez_op = 0x06

abbrev pub bgtz_op : ℕ
bgtz_op = 0x07

abbrev pub j_op : ℕ
j_op = 0x2

abbrev pub jal_op : ℕ
jal_op = 0x3

abbrev pub beq_op : ℕ
beq_op = 0x4

abbrev pub bne_op : ℕ
bne_op = 0x5

abbrev pub addi_op : ℕ
addi_op = 0x08

abbrev pub addiu_op : ℕ
addiu_op = 0x09

abbrev pub slti_op : ℕ
slti_op = 0x0a

abbrev pub sltiu_op : ℕ
sltiu_op = 0x0b

abbrev pub andi_op : ℕ
andi_op = 0x0c

abbrev pub ori_op : ℕ
ori_op = 0x0d

abbrev pub xori_op : ℕ
xori_op = 0x0e

abbrev pub lui_op : ℕ
lui_op = 0xf

abbrev pub lb_op : ℕ
lb_op = 0x20

abbrev pub lh_op : ℕ
lh_op = 0x21

abbrev pub lwl_op : ℕ
lwl_op = 0x22

abbrev pub lw_op : ℕ
lw_op = 0x23

abbrev pub lbu_op : ℕ
lbu_op = 0x24

abbrev pub lhu_op : ℕ
lhu_op = 0x25

abbrev pub lwr_op : ℕ
lwr_op = 0x26

abbrev pub ll_op : ℕ
ll_op = 0x30

abbrev pub sb_op : ℕ
sb_op = 0x28

abbrev pub sh_op : ℕ
sh_op = 0x29

abbrev pub swl_op : ℕ
swl_op = 0x2a

abbrev pub sw_op : ℕ
sw_op = 0x2b

abbrev pub sc_op : ℕ
sc_op = 0x38

abbrev pub swr_op : ℕ
swr_op = 0x2e

abbrev pub rdhwr_op : ℕ
rdhwr_op = 0x1f

abbrev pub brk_fn : ℕ
brk_fn = 0xd

abbrev pub sll_fn : ℕ
sll_fn = 0x0

abbrev pub srl_fn : ℕ
srl_fn = 0x2

abbrev pub sra_fn : ℕ
sra_fn = 0x3

abbrev pub sllv_fn : ℕ
sllv_fn = 0x4

abbrev pub srlv_fn : ℕ
srlv_fn = 0x6

abbrev pub srav_fn : ℕ
srav_fn = 0x7

abbrev pub jr_fn : ℕ
jr_fn = 0x8

abbrev pub jalr_fn : ℕ
jalr_fn = 0x9

abbrev pub syscall_fn : ℕ
syscall_fn = 0xc

abbrev pub special_fn : ℕ
special_fn = 0xf

abbrev pub mfhi_fn : ℕ
mfhi_fn = 0x10

abbrev pub mflo_fn : ℕ
mflo_fn = 0x12

abbrev pub mthi_fn : ℕ
mthi_fn = 0x11

abbrev pub mtlo_fn : ℕ
mtlo_fn = 0x13

abbrev pub mult_fn : ℕ
mult_fn = 0x18

abbrev pub multu_fn : ℕ
multu_fn = 0x19

abbrev pub div_fn : ℕ
div_fn = 0x1a

abbrev pub divu_fn : ℕ
divu_fn = 0x1b

abbrev pub add_fn : ℕ
add_fn = 0x20

abbrev pub addu_fn : ℕ
addu_fn = 0x21

abbrev pub sub_fn : ℕ
sub_fn = 0x22

abbrev pub subu_fn : ℕ
subu_fn = 0x23

abbrev pub slt_fn : ℕ
slt_fn = 0x2a

abbrev pub sltu_fn : ℕ
sltu_fn = 0x2b

abbrev pub and_fn : ℕ
and_fn = 0x24

abbrev pub or_fn : ℕ
or_fn = 0x25

abbrev pub xor_fn : ℕ
xor_fn = 0x26

abbrev pub nor_fn : ℕ
nor_fn = 0x27

abbrev pub bltz_rt : ℕ
bltz_rt = 0x00

abbrev pub bgez_rt : ℕ
bgez_rt = 0x01

abbrev pub bltzal_rt : ℕ
bltzal_rt = 0x10

abbrev pub bgezal_rt : ℕ
bgezal_rt = 0x11
