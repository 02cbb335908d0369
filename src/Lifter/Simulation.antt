-- ===== src/Lifter/Simulation.antt =====
-- src/lifter against src/generator/x86_64/helper/interpreter.cpp: the translated code of an integer
-- instruction and the interpreter give the same registers.
use erap_sbt.Base.{
  ℕ, ◌+◌, ◌%◌, ◌^◌, ◌<◌, ◌≡◌, refl, sym, ap, Bool, true, false, ◌==◌, Bool-cases, inl, inr, Outcome,
  ok, panics, undefined, arith,
}
use std.Path.{subst}
use erap_sbt.Eval.{Width, w32, w64, bit_count, narrow}
use erap_sbt.Eval.Binary.{eval_binary_op2}
use erap_sbt.Eval.Laws.Bounds.{narrow-Fits}
use erap_sbt.Ir.Instruction.{Instruction}
use erap_sbt.ConstFold.Meaning.{int_type}
use erap_sbt.Interpreter.Machine.{FrvInst, Registers, assign, update}
use erap_sbt.Interpreter.Integer.{Integer, integer}
use erap_sbt.Interpreter.Valid.{WordRegisters, Holds}
use erap_sbt.Lifter.Builder.{Lift, int64_of}
use erap_sbt.Lifter.Shifts.{lift_shift, lift_shift_immediate}
use erap_sbt.Lifter.Arithmetic.{
  lift_arithmetical_logical, lift_arithmetical_logical_immediate, lift_slt, lift_lui, lift_auipc,
}
use erap_sbt.Lifter.Parse.{parse_integer}
use erap_sbt.Lifter.Meaning.{Env}
use erap_sbt.Lifter.Steps.{OpSize, op32, op64, widened, Represents, assigned}
use erap_sbt.Lifter.Correct.{IsBinary, lift_arithmetical_logical-Represents}
use erap_sbt.Lifter.Immediate.{lift_arithmetical_logical_immediate-Represents}
use erap_sbt.Lifter.ShiftRuns.{lift_shift-Represents, lift_shift_immediate-Represents}
use erap_sbt.Lifter.CompareRuns.{
  compared, second_value, lift_slt-Represents, lift_lui-Represents, lift_auipc-Represents,
}
use erap_sbt.Lifter.Agree
use erap_sbt.Lifter.Agree.{Only}
use erap_sbt.Lifter.AgreeShifts

-- What an assignment of the interpreter leaves, where its value can only be `v`.
assign_only :
    (instr : FrvInst) (regs : Registers) (v : ℕ) (o : Outcome ℕ)
    → ((u : ℕ) → o ≡ ok u → u ≡ v)
    → Holds (λ regs'. assigned regs instr.rd v ≡ regs') (assign instr regs o)
unfolding assign
assign_only instr regs v (ok u) h = elim (Bool-cases (instr.rd == 0)) [
  | inl e ↦ rw e refl
  | inr e ↦ rw e (ap (update regs instr.rd) (sym (h u refl)))
]
assign_only instr regs v panics h = elim (Bool-cases (instr.rd == 0)) [
  | inl e ↦ rw e refl
  | inr e ↦ rw e tt
]
assign_only instr regs v undefined h = elim (Bool-cases (instr.rd == 0)) [
  | inl e ↦ rw e refl
  | inr e ↦ rw e tt
]

-- The instruction has operands among the 32 registers and an immediate of 32 bits.
abbrev pub IsDecoded : FrvInst → Type 0
IsDecoded instr = (instr.rs1 < 32) × (instr.rs2 < 32) × (instr.imm < 2 ^ 32)

-- A lifted instruction has succeeded and puts `v` into `rd`.
abbrev Lifted : ℕ → Env → Registers → ℕ → ℕ → Outcome Lift → Type 0
Lifted base start regs rd v o =
    (l' : Lift) × (env' : Env) × (o ≡ ok l') × Represents base start l' env' (assigned regs rd v)

module _ (base : ℕ) (start : Env) (instr : FrvInst) (ip : ℕ) (l : Lift) (env : Env)
    (regs : Registers) (decoded : IsDecoded instr) (valid : WordRegisters regs)
    (rep : Represents base start l env regs) where
  -- The case has at most one value, and the lifted instruction computes it.
  abbrev Simulates : Integer → Type 0
  Simulates m =
      (v : ℕ) × Only m (narrow w64 (ip + base)) (regs instr.rs1) (regs instr.rs2) instr.imm v
      × Lifted base start regs instr.rd v (parse_integer m instr ip l)

  by_registers :
      (insn : Instruction) (w : Width) (r : ℕ)
      → OpSize w
      → IsBinary insn
      → eval_binary_op2 insn w (narrow w (regs instr.rs1)) (narrow w (regs instr.rs2)) ≡ ok r
      → Lifted base start regs instr.rd
          (widened w r)
          (ok (lift_arithmetical_logical instr insn (int_type w) l))
  by_registers insn w r size binary e =
      let (env', rep') =
        lift_arithmetical_logical-Represents base start instr insn w l env regs r size binary
          valid.1 decoded.0 decoded.1 rep e in
      (_, env', refl, rep')

  by_immediate :
      (insn : Instruction) (w : Width) (r : ℕ)
      → OpSize w
      → IsBinary insn
      → eval_binary_op2 insn w (narrow w (regs instr.rs1)) (narrow w (int64_of instr.imm)) ≡ ok r
      → Lifted base start regs instr.rd
          (widened w r)
          (ok (lift_arithmetical_logical_immediate instr insn (int_type w) l))
  by_immediate insn w r size binary e =
      let (env', rep') =
        lift_arithmetical_logical_immediate-Represents base start instr insn w l env regs r size
          binary valid.1 decoded.0 decoded.2 rep e in
      (_, env', refl, rep')

  shift_by_register :
      (insn : Instruction) (w : Width) (r : ℕ)
      → OpSize w
      → IsBinary insn
      → eval_binary_op2 insn w (narrow w (regs instr.rs1)) (regs instr.rs2 % bit_count w) ≡ ok r
      → Lifted base start regs instr.rd (widened w r) (lift_shift instr insn (int_type w) l)
  shift_by_register insn w r size binary e =
      lift_shift-Represents base start instr insn w l env regs r size binary valid.1 decoded.0
        decoded.1 rep e

  shift_by_immediate :
      (insn : Instruction) (w : Width) (r : ℕ)
      → OpSize w
      → IsBinary insn
      → eval_binary_op2 insn w (narrow w (regs instr.rs1)) (instr.imm % bit_count w) ≡ ok r
      → Lifted base start regs instr.rd
          (widened w r)
          (lift_shift_immediate instr insn (int_type w) l)
  shift_by_immediate insn w r size binary e =
      lift_shift_immediate-Represents base start instr insn w l env regs r size binary valid.1
        decoded.0 rep e

  by_comparison :
      (is_unsigned with_immediate : Bool)
      → Lifted base start regs instr.rd
          (compared is_unsigned (regs instr.rs1) (second_value with_immediate instr regs))
          (ok (lift_slt instr is_unsigned with_immediate l))
  by_comparison is_unsigned with_immediate =
      let (env', rep') =
        lift_slt-Represents base start instr is_unsigned with_immediate l env regs valid.1 decoded.0
          decoded.1 rep in
      (_, env', refl, rep')

  small : (w : Width) (n : ℕ) → OpSize w → n % bit_count w < bit_count w
  small _ n op32 = omega arith
  small _ n op64 = omega arith

  by_lui : Lifted base start regs instr.rd (int64_of instr.imm) (ok (lift_lui instr l))
  by_lui =
      let (env', rep') = lift_lui-Represents base start instr l env regs rep in
      (_, env', refl, rep')

  by_auipc :
      Lifted base start regs instr.rd
        (narrow w64 (narrow w64 (narrow w64 (ip + base)) + narrow w64 (int64_of instr.imm)))
        (ok (lift_auipc instr ip l))
  by_auipc =
      let (env', rep') = lift_auipc-Represents base start instr ip l env regs rep in
      (_, env', refl, rep')

  simulates : (m : Integer) → Simulates m
  unfolding eval_binary_op2
  simulates Integer.add = (
    _,
    Agree.add-Only (narrow w64 (ip + base)) (regs instr.rs1) (regs instr.rs2) instr.imm
        (valid.0 instr.rs1) (valid.0 instr.rs2) decoded.2,
    by_registers Instruction.add w64 _ op64 (λ t env op. refl) refl,
  )
  simulates Integer.addw = (
    _,
    Agree.addw-Only (narrow w64 (ip + base)) (regs instr.rs1) (regs instr.rs2) instr.imm
        (valid.0 instr.rs1) (valid.0 instr.rs2) decoded.2,
    by_registers Instruction.add w32 _ op32 (λ t env op. refl) refl,
  )
  simulates Integer.sub = (
    _,
    Agree.sub-Only (narrow w64 (ip + base)) (regs instr.rs1) (regs instr.rs2) instr.imm
        (valid.0 instr.rs1) (valid.0 instr.rs2) decoded.2,
    by_registers Instruction.sub w64 _ op64 (λ t env op. refl) refl,
  )
  simulates Integer.subw = (
    _,
    Agree.subw-Only (narrow w64 (ip + base)) (regs instr.rs1) (regs instr.rs2) instr.imm
        (valid.0 instr.rs1) (valid.0 instr.rs2) decoded.2,
    by_registers Instruction.sub w32 _ op32 (λ t env op. refl) refl,
  )
  simulates Integer.and = (
    _,
    Agree.and-Only (narrow w64 (ip + base)) (regs instr.rs1) (regs instr.rs2) instr.imm
        (valid.0 instr.rs1) (valid.0 instr.rs2) decoded.2,
    by_registers Instruction.and w64 _ op64 (λ t env op. refl) refl,
  )
  simulates Integer.or = (
    _,
    Agree.or-Only (narrow w64 (ip + base)) (regs instr.rs1) (regs instr.rs2) instr.imm
        (valid.0 instr.rs1) (valid.0 instr.rs2) decoded.2,
    by_registers Instruction.or w64 _ op64 (λ t env op. refl) refl,
  )
  simulates Integer.xor = (
    _,
    Agree.xor-Only (narrow w64 (ip + base)) (regs instr.rs1) (regs instr.rs2) instr.imm
        (valid.0 instr.rs1) (valid.0 instr.rs2) decoded.2,
    by_registers Instruction.xor w64 _ op64 (λ t env op. refl) refl,
  )
  simulates Integer.addi = (
    _,
    Agree.addi-Only (narrow w64 (ip + base)) (regs instr.rs1) (regs instr.rs2) instr.imm
        (valid.0 instr.rs1) (valid.0 instr.rs2) decoded.2,
    by_immediate Instruction.add w64 _ op64 (λ t env op. refl) refl,
  )
  simulates Integer.addiw = (
    _,
    Agree.addiw-Only (narrow w64 (ip + base)) (regs instr.rs1) (regs instr.rs2) instr.imm
        (valid.0 instr.rs1) (valid.0 instr.rs2) decoded.2,
    by_immediate Instruction.add w32 _ op32 (λ t env op. refl) refl,
  )
  simulates Integer.andi = (
    _,
    Agree.andi-Only (narrow w64 (ip + base)) (regs instr.rs1) (regs instr.rs2) instr.imm
        (valid.0 instr.rs1) (valid.0 instr.rs2) decoded.2,
    by_immediate Instruction.and w64 _ op64 (λ t env op. refl) refl,
  )
  simulates Integer.ori = (
    _,
    Agree.ori-Only (narrow w64 (ip + base)) (regs instr.rs1) (regs instr.rs2) instr.imm
        (valid.0 instr.rs1) (valid.0 instr.rs2) decoded.2,
    by_immediate Instruction.or w64 _ op64 (λ t env op. refl) refl,
  )
  simulates Integer.xori = (
    _,
    Agree.xori-Only (narrow w64 (ip + base)) (regs instr.rs1) (regs instr.rs2) instr.imm
        (valid.0 instr.rs1) (valid.0 instr.rs2) decoded.2,
    by_immediate Instruction.xor w64 _ op64 (λ t env op. refl) refl,
  )
  simulates Integer.sll = (
    _,
    AgreeShifts.sll-Only (narrow w64 (ip + base)) (regs instr.rs1) (regs instr.rs2) instr.imm
        (valid.0 instr.rs1),
    shift_by_register Instruction.shl w64 _ op64 (λ t env op. refl)
        (AgreeShifts.eval_shl w64 _ _ op64 (small w64 _ op64)),
  )
  simulates Integer.sllw = (
    _,
    AgreeShifts.sllw-Only (narrow w64 (ip + base)) (regs instr.rs1) (regs instr.rs2) instr.imm
        (valid.0 instr.rs1),
    shift_by_register Instruction.shl w32 _ op32 (λ t env op. refl)
        (AgreeShifts.eval_shl w32 _ _ op32 (small w32 _ op32)),
  )
  simulates Integer.srl = (
    _,
    AgreeShifts.srl-Only (narrow w64 (ip + base)) (regs instr.rs1) (regs instr.rs2) instr.imm
        (valid.0 instr.rs1),
    shift_by_register Instruction.shr w64 _ op64 (λ t env op. refl)
        (AgreeShifts.eval_shr w64 _ _ op64 (small w64 _ op64)),
  )
  simulates Integer.srlw = (
    _,
    AgreeShifts.srlw-Only (narrow w64 (ip + base)) (regs instr.rs1) (regs instr.rs2) instr.imm
        (valid.0 instr.rs1),
    shift_by_register Instruction.shr w32 _ op32 (λ t env op. refl)
        (AgreeShifts.eval_shr w32 _ _ op32 (small w32 _ op32)),
  )
  simulates Integer.sra = (
    _,
    AgreeShifts.sra-Only (narrow w64 (ip + base)) (regs instr.rs1) (regs instr.rs2) instr.imm
        (valid.0 instr.rs1),
    shift_by_register Instruction.sar w64 _ op64 (λ t env op. refl)
        (AgreeShifts.eval_sar w64 _ _ op64 (small w64 _ op64)),
  )
  simulates Integer.sraw = (
    _,
    AgreeShifts.sraw-Only (narrow w64 (ip + base)) (regs instr.rs1) (regs instr.rs2) instr.imm
        (valid.0 instr.rs1),
    shift_by_register Instruction.sar w32 _ op32 (λ t env op. refl)
        (AgreeShifts.eval_sar w32 _ _ op32 (small w32 _ op32)),
  )
  simulates Integer.slli = (
    _,
    AgreeShifts.slli-Only (narrow w64 (ip + base)) (regs instr.rs1) (regs instr.rs2) instr.imm
        (valid.0 instr.rs1),
    shift_by_immediate Instruction.shl w64 _ op64 (λ t env op. refl)
        (AgreeShifts.eval_shl w64 _ _ op64 (small w64 _ op64)),
  )
  simulates Integer.slliw = (
    _,
    AgreeShifts.slliw-Only (narrow w64 (ip + base)) (regs instr.rs1) (regs instr.rs2) instr.imm
        (valid.0 instr.rs1),
    shift_by_immediate Instruction.shl w32 _ op32 (λ t env op. refl)
        (AgreeShifts.eval_shl w32 _ _ op32 (small w32 _ op32)),
  )
  simulates Integer.srli = (
    _,
    AgreeShifts.srli-Only (narrow w64 (ip + base)) (regs instr.rs1) (regs instr.rs2) instr.imm
        (valid.0 instr.rs1),
    shift_by_immediate Instruction.shr w64 _ op64 (λ t env op. refl)
        (AgreeShifts.eval_shr w64 _ _ op64 (small w64 _ op64)),
  )
  simulates Integer.srliw = (
    _,
    AgreeShifts.srliw-Only (narrow w64 (ip + base)) (regs instr.rs1) (regs instr.rs2) instr.imm
        (valid.0 instr.rs1),
    shift_by_immediate Instruction.shr w32 _ op32 (λ t env op. refl)
        (AgreeShifts.eval_shr w32 _ _ op32 (small w32 _ op32)),
  )
  simulates Integer.srai = (
    _,
    AgreeShifts.srai-Only (narrow w64 (ip + base)) (regs instr.rs1) (regs instr.rs2) instr.imm
        (valid.0 instr.rs1),
    shift_by_immediate Instruction.sar w64 _ op64 (λ t env op. refl)
        (AgreeShifts.eval_sar w64 _ _ op64 (small w64 _ op64)),
  )
  simulates Integer.sraiw = (
    _,
    AgreeShifts.sraiw-Only (narrow w64 (ip + base)) (regs instr.rs1) (regs instr.rs2) instr.imm
        (valid.0 instr.rs1),
    shift_by_immediate Instruction.sar w32 _ op32 (λ t env op. refl)
        (AgreeShifts.eval_sar w32 _ _ op32 (small w32 _ op32)),
  )
  simulates Integer.slti = (
    _,
    Agree.slti-Only (narrow w64 (ip + base)) (regs instr.rs1) (regs instr.rs2) instr.imm
        (valid.0 instr.rs1) (valid.0 instr.rs2) decoded.2,
    by_comparison false true,
  )
  simulates Integer.sltiu = (
    _,
    Agree.sltiu-Only (narrow w64 (ip + base)) (regs instr.rs1) (regs instr.rs2) instr.imm
        (valid.0 instr.rs1) (valid.0 instr.rs2) decoded.2,
    by_comparison true true,
  )
  simulates Integer.slt = (
    _,
    Agree.slt-Only (narrow w64 (ip + base)) (regs instr.rs1) (regs instr.rs2) instr.imm
        (valid.0 instr.rs1) (valid.0 instr.rs2) decoded.2,
    by_comparison false false,
  )
  simulates Integer.sltu = (
    _,
    Agree.sltu-Only (narrow w64 (ip + base)) (regs instr.rs1) (regs instr.rs2) instr.imm
        (valid.0 instr.rs1) (valid.0 instr.rs2) decoded.2,
    by_comparison true false,
  )
  simulates Integer.lui = (
    _,
    Agree.lui-Only (narrow w64 (ip + base)) (regs instr.rs1) (regs instr.rs2) instr.imm
        (valid.0 instr.rs1) (valid.0 instr.rs2) decoded.2,
    by_lui,
  )
  simulates Integer.auipc = (
    _,
    Agree.auipc-Only (narrow w64 (ip + base)) (regs instr.rs1) (regs instr.rs2) instr.imm
        (valid.0 instr.rs1) (valid.0 instr.rs2) decoded.2 (narrow-Fits w64 (ip + base)),
    by_auipc,
  )

  -- For registers in range that a block represents, and every integer computational instruction at
  -- an address of the binary, with operands among the 32 registers and an immediate of 32 bits:
  -- where the interpreter returns registers, lifting the instruction succeeds with a block that
  -- runs and represents them.
  pub parse_integer-Represents :
      (m : Integer) (regs' : Registers)
      → integer m (narrow w64 (ip + base)) instr regs ≡ ok regs'
      → (l' : Lift) × (env' : Env) × (parse_integer m instr ip l ≡ ok l')
        × Represents base start l' env' regs'
  unfolding integer
  parse_integer-Represents m regs' e =
      let (v, only, (l', env', found, rep')) = simulates m in
      let same : assigned regs instr.rd v ≡ regs' =
        subst (Holds (λ after. assigned regs instr.rd v ≡ after)) e
          (assign_only instr regs v _ only) in
      (l', env', found, subst (Represents base start l' env') same rep')
