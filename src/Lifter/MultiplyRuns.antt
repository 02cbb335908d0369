-- ===== src/Lifter/MultiplyRuns.antt =====
-- src/lifter/instructions/mul_div.cpp: the lifted multiplications and divisions run to the registers
-- that the operation gives.
use erap_sbt.Base.{
  ℕ, ◌<◌, ◌≡◌, refl, ◌∙◌, ap, Bool, true, false, if◌then◌else◌, some, Outcome, ok, ◌>>=◌,
}
use erap_sbt.Eval.{Width, w32, w64, narrow}
use erap_sbt.Eval.Binary.{eval_binary_op2}
use erap_sbt.Eval.Division.{eval_div, eval_div2}
use erap_sbt.Eval.Laws.Products.{Fits}
use erap_sbt.Eval.Laws.Bounds.{eval_binary_op2-Fits, narrow-Fits}
use erap_sbt.Ir.IrType.{IrType}
use erap_sbt.Ir.Instruction.{Instruction}
use erap_sbt.Ir.Variable.{SsaVar}
use erap_sbt.ConstFold.Meaning.{int_type}
use erap_sbt.Interpreter.Machine.{FrvInst, Registers}
use erap_sbt.Lifter.Builder.{Lift, add_op, get_from_mapping, to_op_size}
use erap_sbt.Lifter.Multiply.{lift_mul, lift_div, add_div}
use erap_sbt.Lifter.Meaning.{Env}
use erap_sbt.Lifter.Steps.{
  OpSize, op32, op64, widened, Runs, InBlock, InBlock-After, Made, add_var-Made, Represents,
  Represents-After, assigned, get_from_mapping-Made, to_op_size-Made,
}
use erap_sbt.Lifter.Correct.{IsBinary, IsTyped, operation-Made, result-Represents}

-- The operands, each read and then converted.
abbrev first : FrvInst → Width → Lift → SsaVar × Lift
first instr w l = let p = get_from_mapping instr.rs1 l in to_op_size p.0 (int_type w) p.1

abbrev second : FrvInst → Width → Lift → SsaVar × Lift
second instr w l =
    let p = get_from_mapping instr.rs2 (first instr w l).1 in to_op_size p.0 (int_type w) p.1

abbrev pub division : Bool → Instruction
division is_signed = if is_signed then Instruction.div else Instruction.udiv

-- What a division gives to its variable.
abbrev pub part : Bool → Outcome (ℕ × ℕ) → Outcome ℕ
part remainder both = do (q, r) ← both; ok (if remainder then r else q)

module _ (base : ℕ) (start : Env) where
  -- Both operands stand in the block.
  Operands : Width → FrvInst → Registers → Lift → Type 0
  Operands w instr regs l =
      (env : Env) × (c : ℕ) × (d : ℕ) × Represents base start (second instr w l).1 env regs
      × InBlock base start (second instr w l).1 env (first instr w l).0 c
      × InBlock base start (second instr w l).1 env (second instr w l).0 d
      × (narrow w c ≡ narrow w (regs instr.rs1))
      × (narrow w d ≡ narrow w (regs instr.rs2))

  operands :
      (instr : FrvInst) (w : Width) (l : Lift) (env : Env) (regs : Registers)
      → OpSize w
      → regs 0 ≡ 0
      → instr.rs1 < 32
      → instr.rs2 < 32
      → Represents base start l env regs
      → Operands w instr regs l
  unfolding Operands
  operands instr w l env regs size z p q rep =
      let p1 = get_from_mapping instr.rs1 l in
      let p2 = to_op_size p1.0 (int_type w) p1.1 in
      let p3 = get_from_mapping instr.rs2 p2.1 in
      let p4 = to_op_size p3.0 (int_type w) p3.1 in
      let (env1, a, after1, q1, (s1, e1)) =
        get_from_mapping-Made base start l env regs instr.rs1 rep z p in
      let rep1 = Represents-After base start l p1.1 env env1 regs rep after1 in
      let (env2, c, after2, q2, (s2, e2)) =
        to_op_size-Made base start w p1.1 env1 p1.0 a size rep1.0 q1 s1 in
      let rep2 = Represents-After base start p1.1 p2.1 env1 env2 regs rep1 after2 in
      let (env3, b, after3, q3, (s3, e3)) =
        get_from_mapping-Made base start p2.1 env2 regs instr.rs2 rep2 z q in
      let rep3 = Represents-After base start p2.1 p3.1 env2 env3 regs rep2 after3 in
      let (env4, d, after4, q4, (s4, e4)) =
        to_op_size-Made base start w p3.1 env3 p3.0 b size rep3.0 q3 s3 in
      let rep4 = Represents-After base start p3.1 p4.1 env3 env4 regs rep3 after4 in
      let q5 =
        InBlock-After base start p3.1 p4.1 env3 env4 p2.0 c
          (InBlock-After base start p2.1 p3.1 env2 env3 p2.0 c q2 after3) after4 in
      (env4, c, d, rep4, q5, q4, e2 ∙ ap (narrow w) e1, e4 ∙ ap (narrow w) e3)

  pub lift_mul-Represents :
      (instr : FrvInst) (insn : Instruction) (w : Width) (l : Lift) (env : Env) (regs : Registers)
      (r : ℕ)
      → OpSize w
      → IsBinary insn
      → regs 0 ≡ 0
      → instr.rs1 < 32
      → instr.rs2 < 32
      → Represents base start l env regs
      → eval_binary_op2 insn w (narrow w (regs instr.rs1)) (narrow w (regs instr.rs2)) ≡ ok r
      → (env' : Env) × (Represents base start
          (lift_mul instr insn (int_type w) l)
          env'
          (assigned regs instr.rd (widened w r)))
  unfolding lift_mul Operands
  lift_mul-Represents instr insn w l env regs r size binary z p q rep e =
      let p2 = first instr w l in
      let p4 = second instr w l in
      let (env4, c, d, rep4, q2, q4, e2, e4) = operands instr w l env regs size z p q rep in
      result-Represents base start w p4.1 env4 regs instr.rd r
        (add_op (int_type w) insn (some p2.0.id) (some p4.0.id) p4.1) size rep4
        (eval_binary_op2-Fits insn w _ _ r (narrow-Fits w _) (narrow-Fits w _) e)
        (operation-Made base start insn w p4.1 env4 p2.0 p4.0 c d (regs instr.rs1) (regs instr.rs2)
          r size binary rep4.0 q2 q4 e2 e4 e)

  -- The division on two operands that stand for `x` and `y`.
  add_div-Made :
      (is_signed remainder : Bool) (w : Width) (l : Lift) (env : Env) (v u : SsaVar) (a b x y r : ℕ)
      → OpSize w
      → Runs base start l env
      → InBlock base start l env v a
      → InBlock base start l env u b
      → narrow w a ≡ narrow w x
      → narrow w b ≡ narrow w y
      → part remainder (eval_div2 (division is_signed) w (narrow w x) (narrow w y)) ≡ ok r
      → Made base start (IsTyped w r) l env (add_div (int_type w) is_signed remainder v u l)
  unfolding add_div eval_div
  add_div-Made true true _ l env v u a b x y r op32 h p q e f g =
      add_var-Made base start (IsTyped w32 r) IrType.i32 _ l env r h (rw (p.1, q.1, e, f) g)
        (refl, refl)
  add_div-Made true true _ l env v u a b x y r op64 h p q e f g =
      add_var-Made base start (IsTyped w64 r) IrType.i64 _ l env r h (rw (p.1, q.1, e, f) g)
        (refl, refl)
  add_div-Made true false _ l env v u a b x y r op32 h p q e f g =
      add_var-Made base start (IsTyped w32 r) IrType.i32 _ l env r h (rw (p.1, q.1, e, f) g)
        (refl, refl)
  add_div-Made true false _ l env v u a b x y r op64 h p q e f g =
      add_var-Made base start (IsTyped w64 r) IrType.i64 _ l env r h (rw (p.1, q.1, e, f) g)
        (refl, refl)
  add_div-Made false true _ l env v u a b x y r op32 h p q e f g =
      add_var-Made base start (IsTyped w32 r) IrType.i32 _ l env r h (rw (p.1, q.1, e, f) g)
        (refl, refl)
  add_div-Made false true _ l env v u a b x y r op64 h p q e f g =
      add_var-Made base start (IsTyped w64 r) IrType.i64 _ l env r h (rw (p.1, q.1, e, f) g)
        (refl, refl)
  add_div-Made false false _ l env v u a b x y r op32 h p q e f g =
      add_var-Made base start (IsTyped w32 r) IrType.i32 _ l env r h (rw (p.1, q.1, e, f) g)
        (refl, refl)
  add_div-Made false false _ l env v u a b x y r op64 h p q e f g =
      add_var-Made base start (IsTyped w64 r) IrType.i64 _ l env r h (rw (p.1, q.1, e, f) g)
        (refl, refl)

  pub lift_div-Represents :
      (instr : FrvInst) (is_signed remainder : Bool) (w : Width) (l : Lift) (env : Env)
      (regs : Registers) (r : ℕ)
      → OpSize w
      → regs 0 ≡ 0
      → instr.rs1 < 32
      → instr.rs2 < 32
      → Represents base start l env regs
      → Fits w r
      → part remainder
          (eval_div2 (division is_signed) w (narrow w (regs instr.rs1)) (narrow w (regs instr.rs2)))
        ≡ ok r
      → (env' : Env) × (Represents base start
          (lift_div instr is_signed remainder (int_type w) l)
          env'
          (assigned regs instr.rd (widened w r)))
  unfolding lift_div Operands
  lift_div-Represents instr is_signed remainder w l env regs r size z p q rep f e =
      let p2 = first instr w l in
      let p4 = second instr w l in
      let (env4, c, d, rep4, q2, q4, e2, e4) = operands instr w l env regs size z p q rep in
      result-Represents base start w p4.1 env4 regs instr.rd r
        (add_div (int_type w) is_signed remainder p2.0 p4.0 p4.1) size rep4 f
        (add_div-Made is_signed remainder w p4.1 env4 p2.0 p4.0 c d (regs instr.rs1)
          (regs instr.rs2) r size rep4.0 q2 q4 e2 e4 e)
