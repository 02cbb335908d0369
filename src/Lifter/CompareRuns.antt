-- ===== src/Lifter/CompareRuns.antt =====
-- src/lifter/instruction_parser.cpp: the lifted comparisons and upper immediates run to the
-- registers that they give.
use erap_sbt.Base.{
  ℕ, ◌+◌, ◌<◌, ◌≡◌, refl, ◌∙◌, ap, Bool, true, false, if◌then◌else◌, inl, inr, some, ok, arith,
}
use erap_sbt.Base.Int.{ltb_ℤ, pos}
use erap_sbt.Eval.{w64, narrow, signed}
use erap_sbt.Eval.Binary.{eval_binary_op2}
use erap_sbt.Eval.Compare.{typed_compare, compare_signed, compare_unsigned}
use erap_sbt.Ir.IrType.{IrType}
use erap_sbt.Ir.Instruction.{Instruction}
use erap_sbt.Ir.Variable.{SsaVar, operation}
use erap_sbt.ConstFold.Meaning.{Suits}
use erap_sbt.Interpreter.Machine.{FrvInst, Registers}
use erap_sbt.Lifter.Builder.{
  Lift, new_operation, add_var, add_op, add_var_imm, get_from_mapping, load_immediate, int64_of,
  write_to_mapping,
}
use erap_sbt.Lifter.Arithmetic.{lift_slt, second_operand, lift_lui, lift_auipc}
use erap_sbt.Lifter.Meaning.{Env}
use erap_sbt.Lifter.Correct.{operation-Made}
use erap_sbt.Lifter.Immediate.{imm_value}
use erap_sbt.Lifter.Steps.{
  op64, Runs, InBlock, After-trans, InBlock-After, Made, add_var-Made, Represents, Represents-After,
  assigned, write_to_mapping-Represents, get_from_mapping-Made, load_immediate-Made,
}

-- The comparison as the evaluator does it.
abbrev pub compared : Bool → ℕ → ℕ → ℕ
compared true a b = if ltb_ℤ (compare_unsigned a b) (pos 0) then 1 else 0
compared false a b =
    if ltb_ℤ (compare_signed (signed w64 (narrow w64 a)) (signed w64 (narrow w64 b))) (pos 0)
    then 1
    else 0

-- The second operand's value.
abbrev pub second_value : Bool → FrvInst → Registers → ℕ
second_value true instr regs = int64_of instr.imm
second_value false instr regs = regs instr.rs2

-- The comparison on four variables of the block.
abbrev slt_variable : Bool → SsaVar → SsaVar → SsaVar → SsaVar → Lift → SsaVar × Lift
slt_variable is_unsigned first second one nought l =
    let insn = if is_unsigned then Instruction.sltu else Instruction.slt in
    add_var IrType.i64
      (operation (record (new_operation insn) {
        in0 = some first.id;
        in1 = some second.id;
        in2 = some one.id;
        in3 = some nought.id;
        out0 = some l.cur_ssa_id;
      }))
      l

abbrev Set64 : ℕ → IrType → ℕ → Type 0
Set64 x t y = (t ≡ IrType.i64) × (y ≡ x)

abbrev Is : ℕ → IrType → ℕ → Type 0
Is x t y = Suits w64 t × (y ≡ x)

sum :
    (x y : ℕ)
    → eval_binary_op2 Instruction.add w64 (narrow w64 x) (narrow w64 y)
      ≡ ok (narrow w64 (narrow w64 x + narrow w64 y))
unfolding eval_binary_op2
sum x y = refl

module _ (base : ℕ) (start : Env) where
  second_operand-Made :
      (with_immediate : Bool) (instr : FrvInst) (l : Lift) (env : Env) (regs : Registers)
      → Represents base start l env regs
      → regs 0 ≡ 0
      → instr.rs2 < 32
      → Made base start
          (Is (second_value with_immediate instr regs))
          l
          env
          (second_operand with_immediate instr l)
  second_operand-Made true instr l env regs rep z q =
      load_immediate-Made base start (Is (int64_of instr.imm)) instr.imm l env rep.0
        (inl refl, imm_value instr.imm)
  second_operand-Made false instr l env regs rep z q =
      get_from_mapping-Made base start l env regs instr.rs2 rep z q

  constant-Made :
      (c : ℕ) (l : Lift) (env : Env)
      → c < 2
      → Runs base start l env
      → Made base start (λ t y. y ≡ c) l env (add_var_imm c false l)
  unfolding add_var_imm
  constant-Made c l env s h =
      add_var-Made base start (λ t y. y ≡ c) IrType.imm _ l env (narrow w64 (c + 0)) h refl
        (omega arith)

  slt_variable-Made :
      (is_unsigned : Bool) (first second one nought : SsaVar) (l : Lift) (env : Env) (a b : ℕ)
      → Runs base start l env
      → InBlock base start l env first a
      → InBlock base start l env second b
      → InBlock base start l env one 1
      → InBlock base start l env nought 0
      → Made base start
          (Set64 (compared is_unsigned a b))
          l
          env
          (slt_variable is_unsigned first second one nought l)
  unfolding typed_compare
  slt_variable-Made true first second one nought l env a b h p q r s =
      add_var-Made base start (Set64 (compared true a b)) IrType.i64 _ l env (compared true a b) h
        (rw (p.1, q.1, r.1, s.1) refl) (refl, refl)
  slt_variable-Made false first second one nought l env a b h p q r s =
      add_var-Made base start (Set64 (compared false a b)) IrType.i64 _ l env (compared false a b) h
        (rw (p.1, q.1, r.1, s.1) refl) (refl, refl)

  -- The value under its name.
  known :
      (l : Lift) (env : Env) (v : SsaVar) (y x : ℕ)
      → InBlock base start l env v y
      → y ≡ x
      → InBlock base start l env v x
  known l env v y x q e = (q.0, q.1 ∙ ap (λ n. (v.type, n)) e)

  -- A result of 64 bits that is put into a register.
  write-Represents :
      (l : Lift) (env : Env) (regs : Registers) (rd x : ℕ) (p : SsaVar × Lift)
      → Represents base start l env regs
      → Made base start (Set64 x) l env p
      → (env' : Env) × (Represents base start
          (write_to_mapping p.0 rd p.1)
          env'
          (assigned regs rd x))
  write-Represents l env regs rd x (v, l1) rep (env1, y, after, q, (t, e)) = (
    env1,
    write_to_mapping-Represents base start l1 env1 regs v rd x
        (Represents-After base start l l1 env env1 regs rep after)
        ((q.0, q.1 ∙ ap (λ n. (v.type, n)) e), inr t),
  )

  -- A block that represents the registers, with the sources among the 32: the lifted comparison,
  -- signed or unsigned, with the second register or the sign-extended immediate, extends the block
  -- to one that runs and represents the registers with 1 or 0 in `rd`, as the evaluator compares.
  pub lift_slt-Represents :
      (instr : FrvInst) (is_unsigned with_immediate : Bool) (l : Lift) (env : Env)
      (regs : Registers)
      → regs 0 ≡ 0
      → instr.rs1 < 32
      → instr.rs2 < 32
      → Represents base start l env regs
      → (env' : Env) × (Represents base start (lift_slt instr is_unsigned with_immediate l) env' (
          assigned regs instr.rd
            (compared is_unsigned (regs instr.rs1) (second_value with_immediate instr regs))))
  unfolding lift_slt
  lift_slt-Represents instr is_unsigned with_immediate l env regs z p q rep =
      let p1 = get_from_mapping instr.rs1 l in
      let p2 = second_operand with_immediate instr p1.1 in
      let p3 = add_var_imm 1 false p2.1 in
      let p4 = add_var_imm 0 false p3.1 in
      let (env1, a, after1, q1, (t1, v1)) =
        get_from_mapping-Made base start l env regs instr.rs1 rep z p in
      let rep1 = Represents-After base start l p1.1 env env1 regs rep after1 in
      let (env2, b, after2, q2, (t2, v2)) =
        second_operand-Made with_immediate instr p1.1 env1 regs rep1 z q in
      let rep2 = Represents-After base start p1.1 p2.1 env1 env2 regs rep1 after2 in
      let (env3, c, after3, q3, v3) = constant-Made 1 p2.1 env2 (omega arith) rep2.0 in
      let rep3 = Represents-After base start p2.1 p3.1 env2 env3 regs rep2 after3 in
      let (env4, d, after4, q4, v4) = constant-Made 0 p3.1 env3 (omega arith) rep3.0 in
      let rep4 = Represents-After base start p3.1 p4.1 env3 env4 regs rep3 after4 in
      let after34 = After-trans base start p2.1 p3.1 p4.1 env2 env3 env4 after3 after4 in
      let after24 = After-trans base start p1.1 p2.1 p4.1 env1 env2 env4 after2 after34 in
      write-Represents p4.1 env4 regs instr.rd _ (slt_variable is_unsigned p1.0 p2.0 p3.0 p4.0 p4.1)
        rep4
        (slt_variable-Made is_unsigned p1.0 p2.0 p3.0 p4.0 p4.1 env4 (regs instr.rs1)
          (second_value with_immediate instr regs) rep4.0
          (known p4.1 env4 p1.0 a (regs instr.rs1)
            (InBlock-After base start p1.1 p4.1 env1 env4 p1.0 a q1 after24) v1)
          (known p4.1 env4 p2.0 b (second_value with_immediate instr regs)
            (InBlock-After base start p2.1 p4.1 env2 env4 p2.0 b q2 after34) v2)
          (known p4.1 env4 p3.0 c 1 (InBlock-After base start p3.1 p4.1 env3 env4 p3.0 c q3 after4)
            v3)
          (known p4.1 env4 p4.0 d 0 q4 v4))

  -- A block that represents the registers: the lifted LUI extends it to one that runs and represents
  -- the registers with the sign-extended immediate in `rd`.
  pub lift_lui-Represents :
      (instr : FrvInst) (l : Lift) (env : Env) (regs : Registers)
      → Represents base start l env regs
      → (env' : Env) × (Represents base start
          (lift_lui instr l)
          env'
          (assigned regs instr.rd (int64_of instr.imm)))
  unfolding lift_lui
  lift_lui-Represents instr l env regs rep =
      let p1 = load_immediate instr.imm false l in
      let (env1, a, after1, q1, (t1, v1)) =
        load_immediate-Made base start (Is (int64_of instr.imm)) instr.imm l env rep.0
          (inl refl, imm_value instr.imm) in
      (
        env1,
        write_to_mapping-Represents base start p1.1 env1 regs p1.0 instr.rd (int64_of instr.imm)
            (Represents-After base start l p1.1 env env1 regs rep after1)
            (known p1.1 env1 p1.0 a (int64_of instr.imm) q1 v1, t1),
      )

  -- A block that represents the registers: the lifted AUIPC extends it to one that runs and
  -- represents the registers with the sum of the sign-extended immediate and the address of the
  -- instruction, moved by the base address, in `rd`.
  pub lift_auipc-Represents :
      (instr : FrvInst) (ip : ℕ) (l : Lift) (env : Env) (regs : Registers)
      → Represents base start l env regs
      → (env' : Env) × (Represents base start (lift_auipc instr ip l) env' (
          assigned regs instr.rd
            (narrow w64 (narrow w64 (narrow w64 (ip + base)) + narrow w64 (int64_of instr.imm)))))
  unfolding lift_auipc add_var_imm
  lift_auipc-Represents instr ip l env regs rep =
      let p1 = load_immediate instr.imm false l in
      let p2 = add_var_imm ip true p1.1 in
      let (env1, a, after1, q1, (t1, v1)) =
        load_immediate-Made base start (Is (int64_of instr.imm)) instr.imm l env rep.0
          (inl refl, imm_value instr.imm) in
      let rep1 = Represents-After base start l p1.1 env env1 regs rep after1 in
      let (env2, b, after2, q2, v2) =
        add_var-Made base start (λ t y. y ≡ narrow w64 (ip + base)) IrType.imm _ p1.1 env1
          (narrow w64 (ip + base)) rep1.0 refl refl in
      let rep2 = Represents-After base start p1.1 p2.1 env1 env2 regs rep1 after2 in
      write-Represents p2.1 env2 regs instr.rd _
        (add_op IrType.i64 Instruction.add (some p2.0.id) (some p1.0.id) p2.1) rep2
        (operation-Made base start Instruction.add w64 p2.1 env2 p2.0 p1.0 b a
          (narrow w64 (ip + base)) (int64_of instr.imm) _ op64 (λ t env op. refl) rep2.0 q2
          (InBlock-After base start p1.1 p2.1 env1 env2 p1.0 a q1 after2) (ap (narrow w64) v2)
          (ap (narrow w64) v1) (sum _ _))
