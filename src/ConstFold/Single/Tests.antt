-- ===== src/ConstFold/Single/Tests.antt =====
-- Calls of the functions of src/ir/optimizer/const_folding.cpp that simplify an operation with one
-- immediate.
use erap_sbt.Base.{ℕ, ◌-◌, ◌^◌, refl, [], ◌∷◌, none, some}
use erap_sbt.Ir.IrType.{IrType}
use erap_sbt.Ir.Instruction.{Instruction}
use erap_sbt.Ir.Variable.{Operation, operation, static, SsaVar, not_rounded}
use erap_sbt.Eval.{w32}
use erap_sbt.ConstFold.State.{PassState}
use erap_sbt.ConstFold.WordLaws.{run}
use erap_sbt.ConstFold.Single.{simplify_bi_imm_left, simplify_bi_imm_right}
use erap_sbt.ConstFold.Single.Kept.{IsKeptBy}
use erap_sbt.ConstFold.Single.Correct.{simplify_bi_imm_left-IsKept, simplify_bi_imm_right-IsKept}

abbrev flip : Operation
flip = record {
  type = Instruction.xor;
  in0 = some 0;
  in1 = some 1;
  in2 = none;
  in3 = none;
  out0 = some 2;
  out1 = none;
  rounding_info = not_rounded;
}

abbrev input : SsaVar
input = record { id = 0; type = IrType.i32; info = static 0 }

abbrev current : SsaVar
current = record { id = 2; type = IrType.i32; info = operation flip }

abbrev start : PassState
start = record { cur_ssa_id = 3; before = input ∷ []; after = []; rewrites = [] }

abbrev all_ones : ℕ
all_ones = 2 ^ 64 - 1

simplify_bi_imm_left_example :
    IsKeptBy w32
      (λ x. run Instruction.xor w32 all_ones x)
      current
      input
      start
      (simplify_bi_imm_left IrType.i32 all_ones current input Instruction.xor start)
simplify_bi_imm_left_example =
    simplify_bi_imm_left-IsKept w32 all_ones current input start flip refl Instruction.xor

simplify_bi_imm_right_example :
    IsKeptBy w32
      (λ x. run Instruction.sar w32 x (2 ^ 32))
      current
      input
      start
      (simplify_bi_imm_right IrType.i32 (2 ^ 32) current input Instruction.sar start)
simplify_bi_imm_right_example =
    simplify_bi_imm_right-IsKept w32 (2 ^ 32) current input start flip refl Instruction.sar
