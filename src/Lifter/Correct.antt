-- ===== src/Lifter/Correct.antt =====
-- src/lifter/instructions/arithmetic_logical.cpp: the lifted instructions run to the registers that
-- the operation gives.
use erap_sbt.Base.{ℕ, ◌<◌, ◌≡◌, refl, ◌∙◌, ap, some, ok, ◌>>=◌}
use erap_sbt.Eval.{Width, w32, w64, narrow}
use erap_sbt.Eval.Binary.{eval_binary_op, eval_binary_op2}
use erap_sbt.Eval.Laws.Products.{Fits}
use erap_sbt.Eval.Laws.Bounds.{eval_binary_op2-Fits, narrow-Fits}
use erap_sbt.Ir.IrType.{IrType}
use erap_sbt.Ir.Instruction.{Instruction}
use erap_sbt.Ir.Variable.{Operation, SsaVar}
use erap_sbt.ConstFold.Meaning.{int_type}
use erap_sbt.Interpreter.Machine.{FrvInst, Registers}
use erap_sbt.Lifter.Builder.{
  Lift, add_op, get_from_mapping, to_op_size, sign_extended, write_to_mapping,
}
use erap_sbt.Lifter.Arithmetic.{lift_arithmetical_logical}
use erap_sbt.Lifter.Meaning.{Env, apply, input}
use erap_sbt.Lifter.Steps.{
  OpSize, op32, op64, widened, Runs, InBlock, InBlock-After, Made, add_var-Made, Represents,
  Represents-After, assigned, write_to_mapping-Represents, get_from_mapping-Made, to_op_size-Made,
  sign_extended-Made,
}

-- An operation on two operands that the evaluator gives as it stands.
abbrev pub IsBinary : Instruction → Type 0
IsBinary insn =
    (t : IrType) (env : Env) (op : Operation)
    → apply insn t env op
      ≡ (do a ← input env op.in0; b ← input env op.in1; eval_binary_op insn t a.1 b.1)

abbrev pub IsTyped : Width → ℕ → IrType → ℕ → Type 0
IsTyped w y t x = (t ≡ int_type w) × (x ≡ y)

module _ (base : ℕ) (start : Env) where
  -- The operation itself, on two operands that stand for `x` and `y`.
  pub operation-Made :
      (insn : Instruction) (w : Width) (l : Lift) (env : Env) (v u : SsaVar) (a b x y r : ℕ)
      → OpSize w
      → IsBinary insn
      → Runs base start l env
      → InBlock base start l env v a
      → InBlock base start l env u b
      → narrow w a ≡ narrow w x
      → narrow w b ≡ narrow w y
      → eval_binary_op2 insn w (narrow w x) (narrow w y) ≡ ok r
      → Made base start (IsTyped w r) l env (add_op (int_type w) insn (some v.id) (some u.id) l)
  unfolding add_op eval_binary_op
  operation-Made insn _ l env v u a b x y r op32 binary h p q e f g =
      add_var-Made base start (IsTyped w32 r) IrType.i32 _ l env r h
        (binary IrType.i32 env _ ∙ rw (p.1, q.1, e, f) g) (refl, refl)
  operation-Made insn _ l env v u a b x y r op64 binary h p q e f g =
      add_var-Made base start (IsTyped w64 r) IrType.i64 _ l env r h
        (binary IrType.i64 env _ ∙ rw (p.1, q.1, e, f) g) (refl, refl)

  -- Behind the operation: the sign extension and the write to the mapping.
  pub result-Represents :
      (w : Width) (l : Lift) (env : Env) (regs : Registers) (rd r : ℕ) (p : SsaVar × Lift)
      → OpSize w
      → Represents base start l env regs
      → Fits w r
      → Made base start (IsTyped w r) l env p
      → (env' : Env) × (Represents base start
          (write_to_mapping
            (sign_extended (int_type w) p.0 p.1).0
            rd
            (sign_extended (int_type w) p.0 p.1).1)
          env'
          (assigned regs rd (widened w r)))
  result-Represents w l env regs rd r (v, l1) size rep f (env1, x, after1, q, (t, e)) =
      let (env2, y, after2, q2, (suits, e2)) =
        sign_extended-Made base start w l1 env1 v r size after1.0
          (q.0, q.1 ∙ ap (λ n. (v.type, n)) e) t f in
      (
        env2,
        write_to_mapping-Represents base start _ env2 regs _ rd (widened w r)
            (Represents-After base start l1 _ env1 env2 regs
              (Represents-After base start l l1 env env1 regs rep after1) after2)
            ((q2.0, q2.1 ∙ ap (λ n. ((sign_extended (int_type w) v l1).0.type, n)) e2), suits),
      )

  -- A block that represents the registers, with operands among the 32: where the evaluator returns
  -- `r` for the operation at 32 or 64 bits on the two registers, the lifted instruction extends the
  -- block to one that runs and represents the registers with the result, sign-extended from 32
  -- bits, in `rd`.
  pub lift_arithmetical_logical-Represents :
      (instr : FrvInst) (insn : Instruction) (w : Width) (l : Lift) (env : Env) (regs : Registers)
      (r : ℕ)
      → OpSize w
      → IsBinary insn
      → regs 0 ≡ 0
      → instr.rs1 < 32
      → instr.rs2 < 32
      → Represents base start l env regs
      → eval_binary_op2 insn w (narrow w (regs instr.rs1)) (narrow w (regs instr.rs2)) ≡ ok r
      → (env' : Env) × (Represents base start
          (lift_arithmetical_logical instr insn (int_type w) l)
          env'
          (assigned regs instr.rd (widened w r)))
  unfolding lift_arithmetical_logical
  lift_arithmetical_logical-Represents instr insn w l env regs r size binary z p q rep e =
      let p1 = get_from_mapping instr.rs1 l in
      let p2 = get_from_mapping instr.rs2 p1.1 in
      let p3 = to_op_size p1.0 (int_type w) p2.1 in
      let p4 = to_op_size p2.0 (int_type w) p3.1 in
      let (env1, a, after1, q1, (s1, e1)) =
        get_from_mapping-Made base start l env regs instr.rs1 rep z p in
      let rep1 = Represents-After base start l p1.1 env env1 regs rep after1 in
      let (env2, b, after2, q2, (s2, e2)) =
        get_from_mapping-Made base start p1.1 env1 regs instr.rs2 rep1 z q in
      let rep2 = Represents-After base start p1.1 p2.1 env1 env2 regs rep1 after2 in
      let (env3, c, after3, q3, (s3, e3)) =
        to_op_size-Made base start w p2.1 env2 p1.0 a size rep2.0
          (InBlock-After base start p1.1 p2.1 env1 env2 p1.0 a q1 after2) s1 in
      let rep3 = Represents-After base start p2.1 p3.1 env2 env3 regs rep2 after3 in
      let (env4, d, after4, q4, (s4, e4)) =
        to_op_size-Made base start w p3.1 env3 p2.0 b size rep3.0
          (InBlock-After base start p2.1 p3.1 env2 env3 p2.0 b q2 after3) s2 in
      let rep4 = Represents-After base start p3.1 p4.1 env3 env4 regs rep3 after4 in
      result-Represents w p4.1 env4 regs instr.rd r
        (add_op (int_type w) insn (some p3.0.id) (some p4.0.id) p4.1) size rep4
        (eval_binary_op2-Fits insn w _ _ r (narrow-Fits w _) (narrow-Fits w _) e)
        (operation-Made insn w p4.1 env4 p3.0 p4.0 c d (regs instr.rs1) (regs instr.rs2) r size
          binary rep4.0 (InBlock-After base start p3.1 p4.1 env3 env4 p3.0 c q3 after4) q4
          (e3 ∙ ap (narrow w) e1) (e4 ∙ ap (narrow w) e2) e)
