-- ===== src/Lifter/Immediate.antt =====
-- src/lifter/instructions/arithmetic_logical.cpp: the lifted instructions with an immediate.
use erap_sbt.Base.{
  ℕ, ◌+◌, ◌^◌, ◌<◌, ◌≡◌, refl, sym, ◌∙◌, ap, Bool, true, false, if◌then◌else◌, ◌==◌, ◌&&◌,
  Bool-cases, inl, inr, some, ok, arith,
}
use erap_sbt.Eval.{Width, w64, narrow}
use erap_sbt.Eval.Binary.{eval_binary_op2}
use erap_sbt.Eval.Laws.Bounds.{eval_binary_op2-Fits, narrow-Fits}
use erap_sbt.Ir.IrType.{IrType}
use erap_sbt.Ir.Instruction.{Instruction}
use erap_sbt.Ir.Variable.{SsaVar}
use erap_sbt.ConstFold.Meaning.{Suits, int_type}
use erap_sbt.Interpreter.Machine.{FrvInst, Registers}
use erap_sbt.Lifter.Builder.{
  Lift, add_op, get_from_mapping, to_op_size, load_immediate, int64_of, sign_extended,
  write_to_mapping,
}
use erap_sbt.Lifter.Arithmetic.{lift_arithmetical_logical_immediate, is_add, is_immediate}
use erap_sbt.Lifter.Meaning.{Env}
use erap_sbt.Lifter.Steps.{
  OpSize, op32, op64, widened, Runs, InBlock, After-refl, InBlock-After, Made, Represents,
  Represents-After, assigned, write_to_mapping-Represents, get_from_mapping-Made,
  load_immediate-Made, to_op_size-Made,
}
use erap_sbt.Lifter.Correct.{IsBinary, operation-Made, result-Represents}

-- The first operand: an immediate is not converted.
abbrev operand : Width → SsaVar → Lift → SsaVar × Lift
operand w v l = if is_immediate v then (v, l) else to_op_size v (int_type w) l

abbrev pub Near : Width → ℕ → IrType → ℕ → Type 0
Near w x t y = narrow w y ≡ narrow w x

-- The block behind the operation.
abbrev computed : FrvInst → Instruction → Width → Lift → Lift
computed instr insn w l =
    let p1 = load_immediate instr.imm false l in
    let p2 = get_from_mapping instr.rs1 p1.1 in
    let p3 = operand w p2.0 p2.1 in
    let p4 = add_op (int_type w) insn (some p3.0.id) (some p1.0.id) p3.1 in
    let p5 = sign_extended (int_type w) p4.0 p4.1 in write_to_mapping p5.0 instr.rd p5.1

add_of : (insn : Instruction) → is_add insn ≡ true → insn ≡ Instruction.add
add_of Instruction.add e = refl
add_of _ e = ground arith

both : (a b : Bool) → (a && b) ≡ true → (a ≡ true) × (b ≡ true)
both a b e = ground arith

index_zero : (r : ℕ) → (r == 0) ≡ true → r ≡ 0
index_zero r e = ground arith

pub imm_value : (imm : ℕ) → narrow w64 (int64_of imm + 0) ≡ int64_of imm
imm_value imm = ground arith

module _ (base : ℕ) (start : Env) where
  operand-Made :
      (w : Width) (l : Lift) (env : Env) (v : SsaVar) (x : ℕ)
      → OpSize w
      → Runs base start l env
      → InBlock base start l env v x
      → Suits w64 v.type
      → Made base start (Near w x) l env (operand w v l)
  operand-Made w l env v x size h q t = elim (Bool-cases (is_immediate v)) [
    | inl e ↦ rw e (env, x, After-refl base start l env h, q, refl)
    | inr e ↦
        let (env', y, after, q', p) = to_op_size-Made base start w l env v x size h q t in
        rw e (env', y, after, q', p.1)
  ]

  -- The value that the immediate holds.
  abbrev HoldsImm : ℕ → IrType → ℕ → Type 0
  HoldsImm imm t y = (t ≡ IrType.imm) × (y ≡ int64_of imm)

  -- The sum of zero and the immediate, widened, is the immediate.
  zero_plus :
      (w : Width) (imm r : ℕ)
      → OpSize w
      → imm < 2 ^ 32
      → eval_binary_op2 Instruction.add w (narrow w 0) (narrow w (int64_of imm)) ≡ ok r
      → widened w r ≡ int64_of imm
  unfolding eval_binary_op2
  zero_plus _ imm r op32 p e = ground arith
  zero_plus _ imm r op64 p e = ground arith

  -- Adding to register 0: the immediate itself is written.
  shortcut-Represents :
      (instr : FrvInst) (insn : Instruction) (w : Width) (l : Lift) (env : Env) (regs : Registers)
      (r : ℕ)
      → OpSize w
      → regs 0 ≡ 0
      → instr.imm < 2 ^ 32
      → ((instr.rs1 == 0) && is_add insn) ≡ true
      → Represents base start l env regs
      → eval_binary_op2 insn w (narrow w (regs instr.rs1)) (narrow w (int64_of instr.imm)) ≡ ok r
      → (env' : Env) × (Represents base start
          (write_to_mapping
            (load_immediate instr.imm false l).0
            instr.rd
            (load_immediate instr.imm false l).1)
          env'
          (assigned regs instr.rd (widened w r)))
  shortcut-Represents instr insn w l env regs r size z small c rep e =
      let (env1, y, after, q, (t, v)) =
        load_immediate-Made base start (HoldsImm instr.imm) instr.imm l env rep.0
          (refl, imm_value instr.imm) in
      let p = load_immediate instr.imm false l in
      let (first, second) = both (instr.rs1 == 0) (is_add insn) c in
      let reads_zero : regs instr.rs1 ≡ 0 = ap regs (index_zero instr.rs1 first) ∙ z in
      let same : widened w r ≡ int64_of instr.imm =
        zero_plus w instr.imm r size small (rw (← reads_zero, ← add_of insn second) e) in
      (
        env1,
        write_to_mapping-Represents base start p.1 env1 regs p.0 instr.rd (widened w r)
            (Represents-After base start l p.1 env env1 regs rep after)
            ((q.0, q.1 ∙ ap (λ n. (p.0.type, n)) (v ∙ sym same)), inl t),
      )

  -- The operation with the immediate as its second operand.
  computed-Represents :
      (instr : FrvInst) (insn : Instruction) (w : Width) (l : Lift) (env : Env) (regs : Registers)
      (r : ℕ)
      → OpSize w
      → IsBinary insn
      → regs 0 ≡ 0
      → instr.rs1 < 32
      → Represents base start l env regs
      → eval_binary_op2 insn w (narrow w (regs instr.rs1)) (narrow w (int64_of instr.imm)) ≡ ok r
      → (env' : Env) × (Represents base start
          (computed instr insn w l)
          env'
          (assigned regs instr.rd (widened w r)))
  computed-Represents instr insn w l env regs r size binary z p rep e =
      let p1 = load_immediate instr.imm false l in
      let p2 = get_from_mapping instr.rs1 p1.1 in
      let p3 = operand w p2.0 p2.1 in
      let (env1, a, after1, q1, (t1, v1)) =
        load_immediate-Made base start (HoldsImm instr.imm) instr.imm l env rep.0
          (refl, imm_value instr.imm) in
      let rep1 = Represents-After base start l p1.1 env env1 regs rep after1 in
      let (env2, b, after2, q2, (s2, v2)) =
        get_from_mapping-Made base start p1.1 env1 regs instr.rs1 rep1 z p in
      let rep2 = Represents-After base start p1.1 p2.1 env1 env2 regs rep1 after2 in
      let (env3, c, after3, q3, v3) = operand-Made w p2.1 env2 p2.0 b size rep2.0 q2 s2 in
      let rep3 = Represents-After base start p2.1 p3.1 env2 env3 regs rep2 after3 in
      result-Represents base start w p3.1 env3 regs instr.rd r
        (add_op (int_type w) insn (some p3.0.id) (some p1.0.id) p3.1) size rep3
        (eval_binary_op2-Fits insn w _ _ r (narrow-Fits w _) (narrow-Fits w _) e)
        (operation-Made base start insn w p3.1 env3 p3.0 p1.0 c a (regs instr.rs1)
          (int64_of instr.imm) r size binary rep3.0 q3
          (InBlock-After base start p2.1 p3.1 env2 env3 p1.0 a
            (InBlock-After base start p1.1 p2.1 env1 env2 p1.0 a q1 after2) after3)
          (v3 ∙ ap (narrow w) v2) (ap (narrow w) v1) e)

  -- A block that represents the registers, with the source among the 32 and an immediate of 32
  -- bits: where the evaluator returns `r` for the operation at 32 or 64 bits on the register and the
  -- sign-extended immediate, the lifted instruction extends the block to one that runs and
  -- represents the registers with the result, sign-extended from 32 bits, in `rd`.
  pub lift_arithmetical_logical_immediate-Represents :
      (instr : FrvInst) (insn : Instruction) (w : Width) (l : Lift) (env : Env) (regs : Registers)
      (r : ℕ)
      → OpSize w
      → IsBinary insn
      → regs 0 ≡ 0
      → instr.rs1 < 32
      → instr.imm < 2 ^ 32
      → Represents base start l env regs
      → eval_binary_op2 insn w (narrow w (regs instr.rs1)) (narrow w (int64_of instr.imm)) ≡ ok r
      → (env' : Env) × (Represents base start
          (lift_arithmetical_logical_immediate instr insn (int_type w) l)
          env'
          (assigned regs instr.rd (widened w r)))
  unfolding lift_arithmetical_logical_immediate
  lift_arithmetical_logical_immediate-Represents instr insn w l env regs r size binary z p small rep
        e =
      elim (Bool-cases ((instr.rs1 == 0) && is_add insn)) [
        | inl c ↦ rw c (shortcut-Represents instr insn w l env regs r size z small c rep e)
        | inr c ↦ rw c (computed-Represents instr insn w l env regs r size binary z p rep e)
      ]
