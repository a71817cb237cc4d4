-- ===== src/Examples/Numbers.antt =====
-- The theorems on single instructions at sample operands.
use comparing_complexity_and.Base.{ℕ, ◌≡◌, refl, arith, some, true}
use comparing_complexity_and.Word.{s32}
use comparing_complexity_and.Word.Int.{pos, ◌-ℤ◌, ◌*ℤ◌, ltb_ℤ}
use comparing_complexity_and.Instr.Alu.{mult_impl, div_impl, subu_impl}
use comparing_complexity_and.Instr.Product.{s64, hi_lo, mult_impl_lem, div_negative}
use comparing_complexity_and.Instr.Signed.{subu_signed}

mult_impl_lem_example : s64 (hi_lo (mult_impl 0xffff_fffe 3)) ≡ s32 0xffff_fffe *ℤ s32 3
mult_impl_lem_example = mult_impl_lem 0xffff_fffe 3 (omega arith) (omega arith)

-- -7 / 2
div_negative_example : ltb_ℤ (pos 0) (s32 (div_impl 0xffff_fff9 2).lo) ≡ true
div_negative_example = div_negative 0xffff_fff9 2 (omega arith) (omega arith) refl (omega arith)

subu_signed_example : (v : ℕ) × (subu_impl 1 3 ≡ some v) × (s32 v ≡ s32 1 -ℤ s32 3)
subu_signed_example = subu_signed 1 3 (omega arith) (omega arith) (refl, refl)
