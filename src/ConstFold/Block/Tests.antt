-- ===== src/ConstFold/Block/Tests.antt =====
-- Blocks of src/ir/tests/test_const_folding.cpp and others, run through the pass.
use erap_sbt.Base.{
  ℕ, ◌-◌, ◌^◌, ◌≡◌, refl, true, false, List, [], ◌∷◌, none, some, Outcome, ok, panics, undefined,
}
use erap_sbt.Ir.IrType.{IrType}
use erap_sbt.Ir.Instruction.{Instruction}
use erap_sbt.Ir.Variable.{ImmInfo, immediate, static, operation, SsaVar, Operation, not_rounded}
use erap_sbt.Eval.{w32}
use erap_sbt.ConstFold.State.{PassState, rewritten, eval_to_imm}
use erap_sbt.ConstFold.DoubleOp.{right_absolute}
use erap_sbt.ConstFold.Block.{run_variables, swaps, fold_immediates}
use erap_sbt.ConstFold.Block.Swap.{run-swaps}
use erap_sbt.ConstFold.WordLaws.{run}
use erap_sbt.ConstFold.Block.Folded.{IsFoldedBy, fold_immediates-IsFoldedBy}

abbrev imm_var : ℕ → ℕ → SsaVar
imm_var i n = record {
  id = i;
  type = IrType.imm;
  info = immediate (record { val = n; binary_relative = false });
}

abbrev op_var : ℕ → IrType → Operation → SsaVar
op_var i t op = record { id = i; type = t; info = operation op }

abbrev static_var : ℕ → IrType → SsaVar
static_var i t = record { id = i; type = t; info = static 0 }

abbrev op2 : Instruction → ℕ → ℕ → ℕ → Operation
op2 insn out a b = record {
  type = insn;
  in0 = some a;
  in1 = some b;
  in2 = none;
  in3 = none;
  out0 = some out;
  out1 = none;
  rounding_info = not_rounded;
}

abbrev op1 : Instruction → ℕ → ℕ → Operation
op1 insn out a = record {
  type = insn;
  in0 = some a;
  in1 = none;
  in2 = none;
  in3 = none;
  out0 = some out;
  out1 = none;
  rounding_info = not_rounded;
}

-- The variables that the block ends with, first one first, and the rewritings.
abbrev EndsWith : Outcome PassState → List SsaVar → List (ℕ × ℕ) → Type 0
EndsWith o vars rewrites = elim o [
  | ok s ↦ (s.before ≡ vars) × (s.rewrites ≡ rewrites)
  | panics ↦ ⊥
  | undefined ↦ ⊥
]

-- test_basic_eval: 13 + 24.
basic_eval :
    EndsWith
      (run_variables false 3
        (imm_var 0 13 ∷ imm_var 1 24 ∷ op_var 2 IrType.i32 (op2 Instruction.add 2 0 1) ∷ []))
      (record {
        id = 2;
        type = IrType.i32;
        info = immediate (record { val = 37; binary_relative = false });
      }
        ∷ imm_var 1 24
        ∷ imm_var 0 13
        ∷ [])
      []
unfolding run_variables rewritten
basic_eval = (refl, refl)

-- test_eval_twice: the folded -5 + 2 of 16 bits is sign-extended.
eval_twice :
    EndsWith
      (run_variables false 4 (
        imm_var 0 (2 ^ 64 - 5)
        ∷ imm_var 1 2
        ∷ op_var 2 IrType.i16 (op2 Instruction.add 2 0 1)
        ∷ op_var 3 IrType.i32 (op1 Instruction.sign_extend 3 2)
        ∷ []))
      (record {
        id = 3;
        type = IrType.i32;
        info = immediate (record { val = 2 ^ 32 - 3; binary_relative = false });
      }
        ∷ record {
          id = 2;
          type = IrType.i16;
          info = immediate (record { val = 2 ^ 16 - 3; binary_relative = false });
        }
        ∷ imm_var 1 2
        ∷ imm_var 0 (2 ^ 64 - 5)
        ∷ [])
      []
unfolding run_variables rewritten
eval_twice = (refl, refl)

-- test_simplify: x + 0 is rewritten to x.
simplify :
    EndsWith
      (run_variables false 3 (
        static_var 0 IrType.i32
        ∷ imm_var 1 0
        ∷ op_var 2 IrType.i32 (op2 Instruction.add 2 0 1)
        ∷ []))
      (op_var 2 IrType.i32 (op2 Instruction.add 2 0 1) ∷ imm_var 1 0 ∷ static_var 0 IrType.i32 ∷ [])
      ((2, 0) ∷ [])
unfolding run_variables rewritten
simplify = (refl, refl)

-- test_simplify_double_morph: the cast reads the variable that was extended.
simplify_double_morph :
    EndsWith
      (run_variables false 3 (
        static_var 0 IrType.i32
        ∷ op_var 1 IrType.i64 (op1 Instruction.zero_extend 1 0)
        ∷ op_var 2 IrType.i16 (op1 Instruction.cast 2 1)
        ∷ []))
      (op_var 2 IrType.i16 (op1 Instruction.cast 2 0)
        ∷ op_var 1 IrType.i64 (op1 Instruction.zero_extend 1 0)
        ∷ static_var 0 IrType.i32
        ∷ [])
      []
unfolding run_variables rewritten
simplify_double_morph = (refl, refl)

-- (x + 3) - 5 becomes -2 + x, with a new immediate in front of the operation.
double_op :
    EndsWith
      (run_variables false 5 (
        static_var 0 IrType.i8
        ∷ imm_var 1 3
        ∷ op_var 2 IrType.i8 (op2 Instruction.add 2 0 1)
        ∷ imm_var 3 5
        ∷ op_var 4 IrType.i8 (op2 Instruction.sub 4 2 3)
        ∷ []))
      (op_var 4 IrType.i8 (op2 Instruction.add 4 5 0)
        ∷ record {
          id = 5;
          type = IrType.i8;
          info = immediate (record { val = 254; binary_relative = false });
        }
        ∷ imm_var 3 5
        ∷ op_var 2 IrType.i8 (op2 Instruction.add 2 0 1)
        ∷ imm_var 1 3
        ∷ static_var 0 IrType.i8
        ∷ [])
      []
unfolding run_variables rewritten right_absolute eval_to_imm
double_op = (refl, refl)

-- 20 / 5 is folded to 5 / 20.
division :
    EndsWith
      (run_variables false 3
        (imm_var 0 20 ∷ imm_var 1 5 ∷ op_var 2 IrType.i32 (op2 Instruction.udiv 2 0 1) ∷ []))
      (record {
        id = 2;
        type = IrType.i32;
        info = immediate (record { val = 0; binary_relative = false });
      }
        ∷ imm_var 1 5
        ∷ imm_var 0 20
        ∷ [])
      []
unfolding run_variables rewritten
division = (refl, refl)

abbrev start : PassState
start = record { cur_ssa_id = 3; before = []; after = []; rewrites = [] }

abbrev relative : ImmInfo
relative = record { val = 13; binary_relative = true }

abbrev plain : ImmInfo
plain = record { val = 24; binary_relative = false }

abbrev result : SsaVar
result = op_var 2 IrType.i32 (op2 Instruction.sub 2 0 1)

fold_immediates_example :
    IsFoldedBy w32 Instruction.sub relative plain result start
      (fold_immediates IrType.i32 Instruction.sub relative plain result start)
fold_immediates_example =
    fold_immediates-IsFoldedBy w32 Instruction.sub relative plain result start refl

swaps_max : swaps Instruction.max ≡ true
unfolding swaps
swaps_max = refl

run-swaps_example : run Instruction.max w32 (2 ^ 32 - 1) 5 ≡ run Instruction.max w32 5 (2 ^ 32 - 1)
run-swaps_example = run-swaps Instruction.max w32 (2 ^ 32 - 1) 5 swaps_max
