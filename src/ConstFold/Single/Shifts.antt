-- ===== src/ConstFold/Single/Shifts.antt =====
-- Shifts by zero and of zero, for the simplifications of src/ir/optimizer/const_folding.cpp.
use erap_sbt.Base.{ℕ, ◌≡◌, ok, arith}
use erap_sbt.Ir.Instruction.{Instruction}
use erap_sbt.Eval.{Width, w8, w16, w32, w64, narrow}
use erap_sbt.Eval.Binary.{eval_binary_op2}

module _ (x : ℕ) where
  pub shl_zero : (w : Width) → eval_binary_op2 Instruction.shl w (narrow w x) 0 ≡ ok (narrow w x)
  unfolding eval_binary_op2
  shl_zero w8 = ground arith
  shl_zero w16 = ground arith
  shl_zero w32 = ground arith
  shl_zero w64 = ground arith

  pub shr_zero : (w : Width) → eval_binary_op2 Instruction.shr w (narrow w x) 0 ≡ ok (narrow w x)
  unfolding eval_binary_op2
  shr_zero w8 = ground arith
  shr_zero w16 = ground arith
  shr_zero w32 = ground arith
  shr_zero w64 = ground arith

  pub sar_zero : (w : Width) → eval_binary_op2 Instruction.sar w (narrow w x) 0 ≡ ok (narrow w x)
  unfolding eval_binary_op2
  sar_zero w8 = ground arith
  sar_zero w16 = ground arith
  sar_zero w32 = ground arith
  sar_zero w64 = ground arith

module _ (n y : ℕ) where
  pub zero_shl : (w : Width) → eval_binary_op2 Instruction.shl w 0 n ≡ ok y → y ≡ 0
  unfolding eval_binary_op2
  zero_shl w8 h = ground arith
  zero_shl w16 h = ground arith
  zero_shl w32 h = ground arith
  zero_shl w64 h = ground arith

  pub zero_shr : (w : Width) → eval_binary_op2 Instruction.shr w 0 n ≡ ok y → y ≡ 0
  unfolding eval_binary_op2
  zero_shr w8 h = ground arith
  zero_shr w16 h = ground arith
  zero_shr w32 h = ground arith
  zero_shr w64 h = ground arith

  pub zero_sar : (w : Width) → eval_binary_op2 Instruction.sar w 0 n ≡ ok y → y ≡ 0
  unfolding eval_binary_op2
  zero_sar w8 h = ground arith
  zero_sar w16 h = ground arith
  zero_sar w32 h = ground arith
  zero_sar w64 h = ground arith
