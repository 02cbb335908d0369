-- ===== src/ConstFold/DoubleOp/Tests.antt =====
-- Calls of the functions of src/ir/optimizer/const_folding.cpp that fold the immediates of two
-- nested operations.
use erap_sbt.Base.{refl, true, false, [], ◌∷◌, some, inl, inr}
use erap_sbt.Ir.IrType.{IrType}
use erap_sbt.Ir.Instruction.{Instruction}
use erap_sbt.Ir.Variable.{ImmInfo, immediate, static, SsaVar}
use erap_sbt.Eval.{w16}
use erap_sbt.ConstFold.State.{PassState}
use erap_sbt.ConstFold.DoubleOp.{simplify_double_op_imm_left, simplify_double_op_imm_right}
use erap_sbt.ConstFold.DoubleOp.Sound.{IsSound}
use erap_sbt.ConstFold.DoubleOp.Branches.{goal_left, goal_right}
use erap_sbt.ConstFold.DoubleOp.Flags.{Call}
use erap_sbt.ConstFold.DoubleOp.Correct.{
  simplify_double_op_imm_left-IsSound, simplify_double_op_imm_right-IsSound,
}

abbrev outer : ImmInfo
outer = record { val = 5; binary_relative = false }

abbrev moved_inner : SsaVar
moved_inner = record {
  id = 1;
  type = IrType.imm;
  info = immediate (record { val = 7; binary_relative = true });
}

abbrev input : SsaVar
input = record { id = 0; type = IrType.i16; info = static 0 }

abbrev start : PassState
start = record { cur_ssa_id = 9; before = moved_inner ∷ input ∷ []; after = []; rewrites = [] }

abbrev input_left : Call w16 input moved_inner
input_left = record { suits_a = inr refl; suits_b = inl refl; one_imm = refl }

abbrev input_right : Call w16 moved_inner input
input_right = record { suits_a = inl refl; suits_b = inr refl; one_imm = refl }

simplify_double_op_imm_right_example :
    IsSound w16 (goal_right w16 outer input moved_inner Instruction.sub Instruction.sub) start (
      simplify_double_op_imm_right IrType.i16 Instruction.sub outer Instruction.sub
        (some input)
        (some moved_inner)
        start)
simplify_double_op_imm_right_example =
    simplify_double_op_imm_right-IsSound w16 outer input moved_inner input_left start
      Instruction.sub Instruction.sub

simplify_double_op_imm_left_example :
    IsSound w16 (goal_left w16 outer moved_inner input Instruction.add Instruction.sub) start (
      simplify_double_op_imm_left IrType.i16 Instruction.add outer Instruction.sub
        (some moved_inner)
        (some input)
        start)
simplify_double_op_imm_left_example =
    simplify_double_op_imm_left-IsSound w16 outer moved_inner input input_right start
      Instruction.add Instruction.sub refl
