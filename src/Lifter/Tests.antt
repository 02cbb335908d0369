-- ===== src/Lifter/Tests.antt =====
-- A lifted ADDW, MULHSU and BEQ.
use erap_sbt.Base.{true, ◌+◌, ◌≡◌, refl, ◌==◌, if◌then◌else◌, false, inl, [], ◌∷◌, ok, arith}
use erap_sbt.Ir.IrType.{IrType}
use erap_sbt.Ir.Variable.{SsaVar, immediate}
use erap_sbt.Eval.{w64, narrow}
use erap_sbt.Interpreter.Machine.{FrvInst, Registers, sign_extend_int64_t, update}
use erap_sbt.Interpreter.Integer.{Integer, integer}
use erap_sbt.Interpreter.Valid.{WordRegisters}
use erap_sbt.Lifter.Builder.{Lift}
use erap_sbt.Lifter.Meaning.{Env, put, run}
use erap_sbt.Interpreter.Multiply.{Multiply, multiply_value}
use erap_sbt.Lifter.Multiply.{parse_multiply}
use erap_sbt.Lifter.MultiplySimulation.{parse_multiply-Represents}
use erap_sbt.Interpreter.Control.{Branch, Flow, branch}
use erap_sbt.Lifter.Branches.{lift_branch}
use erap_sbt.Lifter.BranchRuns.{goes_to, HoldsTarget, after_branch, lift_branch-goes_to}
use erap_sbt.Lifter.Parse.{parse_integer}
use erap_sbt.Lifter.Steps.{Represents, assigned}
use erap_sbt.Lifter.Simulation.{parse_integer-Represents}

-- addw x3, x1, x2
abbrev addw : FrvInst
addw = record { rd = 3; rs1 = 1; rs2 = 2; imm = 0 }

-- The variable that holds every register.
abbrev three : SsaVar
three = record {
  id = 0;
  type = IrType.imm;
  info = immediate (record { val = 3; binary_relative = false });
}

abbrev block : Lift
block = record { cur_ssa_id = 1; variables = three ∷ []; mapping = λ r. three }

abbrev threes : Registers
threes r = if r == 0 then 0 else 3

abbrev nothing : Env
nothing i = (IrType.imm, 0)

threes-WordRegisters : WordRegisters threes
threes-WordRegisters = (λ r. ground arith, refl)

block-Represents : Represents 4096 nothing block (put nothing 0 (IrType.imm, 3)) threes
unfolding run
block-Represents = (refl, λ r z p. rw z ((omega arith, refl), inl refl))

interpreted : integer Integer.addw (narrow w64 (64 + 4096)) addw threes ≡ ok (update threes 3 6)
unfolding integer
interpreted = refl

parse_integer-Represents_example :
    (l' : Lift) × (env' : Env) × (parse_integer Integer.addw addw 64 block ≡ ok l')
    × Represents 4096 nothing l' env' (update threes 3 6)
parse_integer-Represents_example =
    parse_integer-Represents 4096 nothing addw 64 block (put nothing 0 (IrType.imm, 3)) threes
      (omega arith, omega arith, omega arith) threes-WordRegisters block-Represents Integer.addw
      (update threes 3 6) interpreted

multiplied : multiply_value Multiply.mulhsu 3 3 ≡ ok 0
unfolding multiply_value
multiplied = refl

parse_multiply-Represents_example :
    (env' : Env) × Represents 4096 nothing
      (parse_multiply Multiply.mulhsu addw block)
      env'
      (assigned threes 3 0)
parse_multiply-Represents_example =
    parse_multiply-Represents 4096 nothing addw block (put nothing 0 (IrType.imm, 3)) threes
      (omega arith, omega arith, omega arith) threes-WordRegisters block-Represents Multiply.mulhsu
      0 tt multiplied

-- beq x1, x2, 16
abbrev beq : FrvInst
beq = record { rd = 0; rs1 = 1; rs2 = 2; imm = 16 }

abbrev jumped : Flow
jumped = record { registers = threes; pc = 4176; jump = true; is_cfop = true }

branched : branch Branch.beq (narrow w64 (64 + 4096)) beq threes ≡ ok jumped
unfolding branch sign_extend_int64_t
branched = refl

lift_branch-goes_to_example :
    (env' : Env) × Represents 4096 nothing
      (lift_branch Branch.beq beq 64 (narrow w64 (64 + 4)) block).0
      env'
      threes
    × (goes_to 4096 env'
          (lift_branch Branch.beq beq 64 (narrow w64 (64 + 4)) block).1
          (lift_branch Branch.beq beq 64 (narrow w64 (64 + 4)) block).2
        ≡ ok (after_branch 4 jumped))
    × HoldsTarget 4096 env' (lift_branch Branch.beq beq 64 (narrow w64 (64 + 4)) block).1
    × HoldsTarget 4096 env' (lift_branch Branch.beq beq 64 (narrow w64 (64 + 4)) block).2
lift_branch-goes_to_example =
    lift_branch-goes_to 4096 nothing Branch.beq beq 64 4 block (put nothing 0 (IrType.imm, 3))
      threes jumped refl (omega arith) (omega arith) block-Represents branched
