-- ===== src/Lifter/MultiplySimulation.antt =====
-- src/lifter against src/generator/x86_64/helper/interpreter.cpp: the translated code of a
-- multiplication or division and the interpreter give the same registers.
use erap_sbt.Base.{ℕ, ◌*◌, ◌^◌, ◌<◌, ◌≡◌, refl, Bool, true, false, ok}
use erap_sbt.Eval.{Width, w32, w64, narrow}
use erap_sbt.Eval.Binary.{eval_binary_op2}
use erap_sbt.Eval.Division.{eval_div2}
use erap_sbt.Ir.Instruction.{Instruction}
use erap_sbt.ConstFold.Meaning.{int_type}
use erap_sbt.Interpreter.Machine.{FrvInst, Registers}
use erap_sbt.Interpreter.Multiply.{Multiply, multiply_value}
use erap_sbt.Interpreter.Valid.{WordRegisters}
use erap_sbt.Lifter.Builder.{Lift}
use erap_sbt.Lifter.Multiply.{lift_mul, lift_div, parse_multiply}
use erap_sbt.Lifter.Meaning.{Env}
use erap_sbt.Lifter.Steps.{OpSize, op32, op64, Represents, assigned}
use erap_sbt.Lifter.Correct.{IsBinary}
use erap_sbt.Lifter.MultiplyRuns.{division, part, lift_mul-Represents, lift_div-Represents}
use erap_sbt.Lifter.AgreeMultiply
use erap_sbt.Lifter.AgreeMultiply.{Evaluates}
use erap_sbt.Lifter.Simulation.{IsDecoded}

-- The product of MULHU must not overflow the signed type in which the evaluator computes it.
abbrev pub NoOverflow : Multiply → ℕ → ℕ → Type 0
NoOverflow Multiply.mulhu a b = a * b < 2 ^ 127
NoOverflow _ a b = Unit

module _ (base : ℕ) (start : Env) (instr : FrvInst) (l : Lift) (env : Env) (regs : Registers)
    (decoded : IsDecoded instr) (valid : WordRegisters regs)
    (rep : Represents base start l env regs) where
  abbrev Gives : Lift → ℕ → Type 0
  Gives l' v = (env' : Env) × Represents base start l' env' (assigned regs instr.rd v)

  by_product :
      (insn : Instruction) (w : Width) (v : ℕ)
      → OpSize w
      → IsBinary insn
      → Evaluates w
          (eval_binary_op2 insn w (narrow w (regs instr.rs1)) (narrow w (regs instr.rs2)))
          v
      → Gives (lift_mul instr insn (int_type w) l) v
  by_product insn w v size binary (r, e, f, g) = rw g (
      lift_mul-Represents base start instr insn w l env regs r size binary valid.1 decoded.0
        decoded.1 rep e)

  by_division :
      (is_signed remainder : Bool) (w : Width) (v : ℕ)
      → OpSize w
      → Evaluates w
          (part remainder (
            eval_div2
              (division is_signed)
              w
              (narrow w (regs instr.rs1))
              (narrow w (regs instr.rs2))))
          v
      → Gives (lift_div instr is_signed remainder (int_type w) l) v
  by_division is_signed remainder w v size (r, e, f, g) = rw g (
      lift_div-Represents base start instr is_signed remainder w l env regs r size valid.1 decoded.0
        decoded.1 rep f e)

  -- For registers in range that a block represents, and every multiplication or division with
  -- operands among the 32 registers, where the product of MULHU is below 2 ^ 127: where the
  -- interpreter has the value `v`, the lifted instruction extends the block to one that runs and
  -- represents the registers with `v` in `rd`.
  pub parse_multiply-Represents :
      (m : Multiply) (v : ℕ)
      → NoOverflow m (regs instr.rs1) (regs instr.rs2)
      → multiply_value m (regs instr.rs1) (regs instr.rs2) ≡ ok v
      → (env' : Env) × (Represents base start
          (parse_multiply m instr l)
          env'
          (assigned regs instr.rd v))
  parse_multiply-Represents Multiply.mul v h e =
      by_product Instruction.mul_l w64 v op64 (λ t env op. refl)
        (AgreeMultiply.mul-Evaluates (regs instr.rs1) (regs instr.rs2) v (valid.0 instr.rs1)
          (valid.0 instr.rs2) e)
  parse_multiply-Represents Multiply.mulh v h e =
      by_product Instruction.ssmul_h w64 v op64 (λ t env op. refl)
        (AgreeMultiply.mulh-Evaluates (regs instr.rs1) (regs instr.rs2) v (valid.0 instr.rs1)
          (valid.0 instr.rs2) e)
  parse_multiply-Represents Multiply.mulhsu v h e =
      by_product Instruction.sumul_h w64 v op64 (λ t env op. refl)
        (AgreeMultiply.mulhsu-Evaluates (regs instr.rs1) (regs instr.rs2) v (valid.0 instr.rs1)
          (valid.0 instr.rs2) e)
  parse_multiply-Represents Multiply.mulhu v h e =
      by_product Instruction.uumul_h w64 v op64 (λ t env op. refl)
        (AgreeMultiply.mulhu-Evaluates (regs instr.rs1) (regs instr.rs2) v (valid.0 instr.rs1)
          (valid.0 instr.rs2) h e)
  parse_multiply-Represents Multiply.mulw v h e =
      by_product Instruction.mul_l w32 v op32 (λ t env op. refl)
        (AgreeMultiply.mulw-Evaluates (regs instr.rs1) (regs instr.rs2) v (valid.0 instr.rs1)
          (valid.0 instr.rs2) e)
  parse_multiply-Represents Multiply.div v h e = by_division true false w64 v op64 (
      AgreeMultiply.div-Evaluates (regs instr.rs1) (regs instr.rs2) v (valid.0 instr.rs1)
        (valid.0 instr.rs2) e)
  parse_multiply-Represents Multiply.divu v h e = by_division false false w64 v op64 (
      AgreeMultiply.divu-Evaluates (regs instr.rs1) (regs instr.rs2) v (valid.0 instr.rs1)
        (valid.0 instr.rs2) e)
  parse_multiply-Represents Multiply.divw v h e = by_division true false w32 v op32 (
      AgreeMultiply.divw-Evaluates (regs instr.rs1) (regs instr.rs2) v (valid.0 instr.rs1)
        (valid.0 instr.rs2) e)
  parse_multiply-Represents Multiply.divuw v h e = by_division false false w32 v op32 (
      AgreeMultiply.divuw-Evaluates (regs instr.rs1) (regs instr.rs2) v (valid.0 instr.rs1)
        (valid.0 instr.rs2) e)
  parse_multiply-Represents Multiply.rem v h e = by_division true true w64 v op64 (
      AgreeMultiply.rem-Evaluates (regs instr.rs1) (regs instr.rs2) v (valid.0 instr.rs1)
        (valid.0 instr.rs2) e)
  parse_multiply-Represents Multiply.remu v h e = by_division false true w64 v op64 (
      AgreeMultiply.remu-Evaluates (regs instr.rs1) (regs instr.rs2) v (valid.0 instr.rs1)
        (valid.0 instr.rs2) e)
  parse_multiply-Represents Multiply.remw v h e = by_division true true w32 v op32 (
      AgreeMultiply.remw-Evaluates (regs instr.rs1) (regs instr.rs2) v (valid.0 instr.rs1)
        (valid.0 instr.rs2) e)
  parse_multiply-Represents Multiply.remuw v h e = by_division false true w32 v op32 (
      AgreeMultiply.remuw-Evaluates (regs instr.rs1) (regs instr.rs2) v (valid.0 instr.rs1)
        (valid.0 instr.rs2) e)
