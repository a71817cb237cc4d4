-- ===== src/Asm/Fields.antt =====
-- The fields of a word, and what joining a part by `|` does to them (tests/test.h, lines 34-106).
use comparing_complexity_and.Base.{ℕ, ◌/◌, ◌%◌, ◌^◌, ◌≡◌, ◌∙◌, arith, bit_or}
use comparing_complexity_and.Word.Fields.{bit_or-field, bit_or-mod, bit_or-zero, zero-bit_or}
use comparing_complexity_and.Insn.{op_field, rs_field, rt_field, rd_field, sh_field, fn_field}
use comparing_complexity_and.Asm.{
  op_part, rs_part, rt_part, rd_part, sh_part, fn_part, imm16_part, imm26_part,
}

pub record Fields (w op rs rt rd sh fn : ℕ) : Type 0 where
  pub op_at : op_field w ≡ op
  pub rs_at : rs_field w ≡ rs
  pub rt_at : rt_field w ≡ rt
  pub rd_at : rd_field w ≡ rd
  pub sh_at : sh_field w ≡ sh
  pub fn_at : fn_field w ≡ fn

-- One of the two parts has the field.
left_only : (x y v : ℕ) → x ≡ v → y ≡ 0 → bit_or x y ≡ v
left_only x y v e z = rw (e, z) (bit_or-zero v)

right_only : (x y v : ℕ) → x ≡ 0 → y ≡ v → bit_or x y ≡ v
right_only x y v z e = rw (e, z) (zero-bit_or v)

pub op_part-Fields : (v : ℕ) → Fields (op_part v) (v % 2 ^ 6) 0 0 0 0 0
op_part-Fields v = record {
  op_at = (omega arith);
  rs_at = (omega arith);
  rt_at = (omega arith);
  rd_at = (omega arith);
  sh_at = (omega arith);
  fn_at = (omega arith);
}

pub fn_part-Fields : (v : ℕ) → Fields (fn_part v) 0 0 0 0 0 (v % 2 ^ 6)
fn_part-Fields v = record {
  op_at = (omega arith);
  rs_at = (omega arith);
  rt_at = (omega arith);
  rd_at = (omega arith);
  sh_at = (omega arith);
  fn_at = (omega arith);
}

module _ (a v : ℕ) where
  pub rs_part-Fields :
      (op rt rd sh fn : ℕ)
      → Fields a op 0 rt rd sh fn
      → Fields (bit_or a (rs_part v)) op (v % 2 ^ 5) rt rd sh fn
  rs_part-Fields op rt rd sh fn h = record {
    op_at = bit_or-field 26 6 a (rs_part v) ∙ left_only _ _ _ h.op_at (omega arith);
    rs_at = bit_or-field 21 5 a (rs_part v) ∙ right_only _ _ _ h.rs_at (omega arith);
    rt_at = bit_or-field 16 5 a (rs_part v) ∙ left_only _ _ _ h.rt_at (omega arith);
    rd_at = bit_or-field 11 5 a (rs_part v) ∙ left_only _ _ _ h.rd_at (omega arith);
    sh_at = bit_or-field 6 5 a (rs_part v) ∙ left_only _ _ _ h.sh_at (omega arith);
    fn_at = bit_or-mod 6 a (rs_part v) ∙ left_only _ _ _ h.fn_at (omega arith);
  }

  pub rt_part-Fields :
      (op rs rd sh fn : ℕ)
      → Fields a op rs 0 rd sh fn
      → Fields (bit_or a (rt_part v)) op rs (v % 2 ^ 5) rd sh fn
  rt_part-Fields op rs rd sh fn h = record {
    op_at = bit_or-field 26 6 a (rt_part v) ∙ left_only _ _ _ h.op_at (omega arith);
    rs_at = bit_or-field 21 5 a (rt_part v) ∙ left_only _ _ _ h.rs_at (omega arith);
    rt_at = bit_or-field 16 5 a (rt_part v) ∙ right_only _ _ _ h.rt_at (omega arith);
    rd_at = bit_or-field 11 5 a (rt_part v) ∙ left_only _ _ _ h.rd_at (omega arith);
    sh_at = bit_or-field 6 5 a (rt_part v) ∙ left_only _ _ _ h.sh_at (omega arith);
    fn_at = bit_or-mod 6 a (rt_part v) ∙ left_only _ _ _ h.fn_at (omega arith);
  }

  pub rd_part-Fields :
      (op rs rt sh fn : ℕ)
      → Fields a op rs rt 0 sh fn
      → Fields (bit_or a (rd_part v)) op rs rt (v % 2 ^ 5) sh fn
  rd_part-Fields op rs rt sh fn h = record {
    op_at = bit_or-field 26 6 a (rd_part v) ∙ left_only _ _ _ h.op_at (omega arith);
    rs_at = bit_or-field 21 5 a (rd_part v) ∙ left_only _ _ _ h.rs_at (omega arith);
    rt_at = bit_or-field 16 5 a (rd_part v) ∙ left_only _ _ _ h.rt_at (omega arith);
    rd_at = bit_or-field 11 5 a (rd_part v) ∙ right_only _ _ _ h.rd_at (omega arith);
    sh_at = bit_or-field 6 5 a (rd_part v) ∙ left_only _ _ _ h.sh_at (omega arith);
    fn_at = bit_or-mod 6 a (rd_part v) ∙ left_only _ _ _ h.fn_at (omega arith);
  }

  pub sh_part-Fields :
      (op rs rt rd fn : ℕ)
      → Fields a op rs rt rd 0 fn
      → Fields (bit_or a (sh_part v)) op rs rt rd (v % 2 ^ 5) fn
  sh_part-Fields op rs rt rd fn h = record {
    op_at = bit_or-field 26 6 a (sh_part v) ∙ left_only _ _ _ h.op_at (omega arith);
    rs_at = bit_or-field 21 5 a (sh_part v) ∙ left_only _ _ _ h.rs_at (omega arith);
    rt_at = bit_or-field 16 5 a (sh_part v) ∙ left_only _ _ _ h.rt_at (omega arith);
    rd_at = bit_or-field 11 5 a (sh_part v) ∙ left_only _ _ _ h.rd_at (omega arith);
    sh_at = bit_or-field 6 5 a (sh_part v) ∙ right_only _ _ _ h.sh_at (omega arith);
    fn_at = bit_or-mod 6 a (sh_part v) ∙ left_only _ _ _ h.fn_at (omega arith);
  }

  -- An immediate takes the place of the lower fields.
  pub imm16_part-Fields :
      (op rs rt : ℕ)
      → Fields a op rs rt 0 0 0
      → Fields
          (bit_or a (imm16_part v))
          op
          rs
          rt
          (v / 2 ^ 11 % 2 ^ 5)
          (v / 2 ^ 6 % 2 ^ 5)
          (v % 2 ^ 6)
  imm16_part-Fields op rs rt h = record {
    op_at = bit_or-field 26 6 a (imm16_part v) ∙ left_only _ _ _ h.op_at (omega arith);
    rs_at = bit_or-field 21 5 a (imm16_part v) ∙ left_only _ _ _ h.rs_at (omega arith);
    rt_at = bit_or-field 16 5 a (imm16_part v) ∙ left_only _ _ _ h.rt_at (omega arith);
    rd_at = bit_or-field 11 5 a (imm16_part v) ∙ right_only _ _ _ h.rd_at (omega arith);
    sh_at = bit_or-field 6 5 a (imm16_part v) ∙ right_only _ _ _ h.sh_at (omega arith);
    fn_at = bit_or-mod 6 a (imm16_part v) ∙ right_only _ _ _ h.fn_at (omega arith);
  }

  pub imm26_part-Fields :
      (op : ℕ)
      → Fields a op 0 0 0 0 0
      → Fields
          (bit_or a (imm26_part v))
          op
          (v / 2 ^ 21 % 2 ^ 5)
          (v / 2 ^ 16 % 2 ^ 5)
          (v / 2 ^ 11 % 2 ^ 5)
          (v / 2 ^ 6 % 2 ^ 5)
          (v % 2 ^ 6)
  imm26_part-Fields op h = record {
    op_at = bit_or-field 26 6 a (imm26_part v) ∙ left_only _ _ _ h.op_at (omega arith);
    rs_at = bit_or-field 21 5 a (imm26_part v) ∙ right_only _ _ _ h.rs_at (omega arith);
    rt_at = bit_or-field 16 5 a (imm26_part v) ∙ right_only _ _ _ h.rt_at (omega arith);
    rd_at = bit_or-field 11 5 a (imm26_part v) ∙ right_only _ _ _ h.rd_at (omega arith);
    sh_at = bit_or-field 6 5 a (imm26_part v) ∙ right_only _ _ _ h.sh_at (omega arith);
    fn_at = bit_or-mod 6 a (imm26_part v) ∙ right_only _ _ _ h.fn_at (omega arith);
  }
