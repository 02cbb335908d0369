-- ===== src/Lifter/ShiftRuns.antt =====
-- src/lifter/instructions/shifts.cpp: the lifted shifts run to the registers that the shift gives.
use erap_sbt.Base.{
  ℕ, ◌+◌, ◌%◌, ◌<◌, ◌≡◌, refl, ◌∙◌, ap, false, if◌then◌else◌, Bool-cases, inl, inr, some, none,
  bit_and, ok, arith,
}
use erap_sbt.Base.Bits.{and-mask_5, and-mask_6}
use erap_sbt.Eval.{Width, w32, w64, bit_count, narrow}
use erap_sbt.Eval.Binary.{eval_binary_op2}
use erap_sbt.Eval.Morph.{eval_morphing_op}
use erap_sbt.Eval.Laws.Bounds.{eval_binary_op2-Fits, narrow-Fits}
use erap_sbt.Ir.IrType.{IrType, cast_dir, type_eq}
use erap_sbt.Ir.Instruction.{Instruction}
use erap_sbt.Ir.Variable.{SsaVar}
use erap_sbt.ConstFold.Meaning.{Suits, int_type}
use erap_sbt.Interpreter.Machine.{FrvInst, Registers}
use erap_sbt.Lifter.Builder.{
  Lift, add_op, add_var_imm, get_from_mapping, get_from_mapping_and_shrink, shrunk, sign_extended,
  write_to_mapping,
}
use erap_sbt.Lifter.Shifts.{lift_shift_shared, lift_shift, lift_shift_immediate, amount_mask}
use erap_sbt.Lifter.Meaning.{Env, held}
use erap_sbt.Lifter.Steps.{
  OpSize, op32, op64, widened, Runs, InBlock, After-refl, InBlock-After, Made, add_var-Made,
  Represents, Represents-After, assigned, get_from_mapping-Made,
}
use erap_sbt.Lifter.Correct.{IsBinary, operation-Made, result-Represents}
use erap_sbt.Lifter.Immediate.{Near}

held_cast :
    (w : Width) (env : Env) (v : SsaVar) (x : ℕ)
    → OpSize w
    → Suits w64 v.type
    → env v.id ≡ (v.type, x)
    → eval_morphing_op Instruction.cast (held (env v.id).0) (int_type w) (env v.id).1
      ≡ ok (narrow w (narrow w64 x))
unfolding eval_morphing_op
held_cast _ env v x op32 (inl e) q = rw (q, e) refl
held_cast _ env v x op32 (inr e) q = rw (q, e) refl
held_cast _ env v x op64 (inl e) q = rw (q, e) refl
held_cast _ env v x op64 (inr e) q = rw (q, e) refl

twice_narrow : (w : Width) (x : ℕ) → OpSize w → narrow w (narrow w (narrow w64 x)) ≡ narrow w x
twice_narrow _ x op32 = omega arith
twice_narrow _ x op64 = omega arith

-- The operand of the mask in `lift_shift`.
abbrev amount_operand : Width → SsaVar → Lift → SsaVar × Lift
amount_operand w v l =
    if type_eq v.type (int_type w)
    then (v, l)
    else add_op (int_type w) Instruction.cast (some v.id) none l

-- The amount modulo the width, as the mask leaves it.
amount_value :
    (w : Width) (b : ℕ)
    → OpSize w
    → narrow w (narrow w64 (bit_and b (amount_mask (int_type w)) + 0)) ≡ narrow w (b % bit_count w)
unfolding type_eq
amount_value _ b op32 = omega (arith, and-mask_5 b)
amount_value _ b op64 = omega (arith, and-mask_6 b)

small_amount : (w : Width) (b : ℕ) → OpSize w → narrow w (b % bit_count w) ≡ b % bit_count w
small_amount _ b op32 = omega arith
small_amount _ b op64 = omega arith

mask_value :
    (w : Width)
    → OpSize w
    → narrow w (narrow w64 (amount_mask (int_type w) + 0)) ≡ narrow w (amount_mask (int_type w))
unfolding type_eq
mask_value _ op32 = refl
mask_value _ op64 = refl

module _ (base : ℕ) (start : Env) where
  cast_to-Made :
      (w : Width) (l : Lift) (env : Env) (v : SsaVar) (x : ℕ)
      → OpSize w
      → Runs base start l env
      → InBlock base start l env v x
      → Suits w64 v.type
      → Made base start (Near w x) l env (add_op (int_type w) Instruction.cast (some v.id) none l)
  unfolding add_op
  cast_to-Made w l env v x size h q t =
      add_var-Made base start (Near w x) (int_type w) _ l env (narrow w (narrow w64 x)) h
        (held_cast w env v x size t q.1) (twice_narrow w x size)

  -- The operand of a shift, converted to its width.
  shrunk-Made :
      (w : Width) (l : Lift) (env : Env) (v : SsaVar) (x : ℕ)
      → OpSize w
      → Runs base start l env
      → InBlock base start l env v x
      → Suits w64 v.type
      → (p : SsaVar × Lift) × (shrunk (cast_dir (int_type w) v.type) v (int_type w) l ≡ ok p)
        × Made base start (Near w x) l env p
  unfolding cast_dir
  shrunk-Made _ l env v x op32 h q (inl e) = (
    add_op IrType.i32 Instruction.cast (some v.id) none l,
    ap (λ t. shrunk (cast_dir IrType.i32 t) v IrType.i32 l) e,
    cast_to-Made w32 l env v x op32 h q (inl e),
  )
  shrunk-Made _ l env v x op32 h q (inr e) = (
    add_op IrType.i32 Instruction.cast (some v.id) none l,
    ap (λ t. shrunk (cast_dir IrType.i32 t) v IrType.i32 l) e,
    cast_to-Made w32 l env v x op32 h q (inr e),
  )
  shrunk-Made _ l env v x op64 h q (inl e) = (
    add_op IrType.i64 Instruction.cast (some v.id) none l,
    ap (λ t. shrunk (cast_dir IrType.i64 t) v IrType.i64 l) e,
    cast_to-Made w64 l env v x op64 h q (inl e),
  )
  shrunk-Made _ l env v x op64 h q (inr e) = (
    (v, l),
    ap (λ t. shrunk (cast_dir IrType.i64 t) v IrType.i64 l) e,
    (env, x, After-refl base start l env h, q, refl),
  )

  -- A shift of the register by an amount that stands in a variable of the block.
  shift_shared-Represents :
      (instr : FrvInst) (insn : Instruction) (w : Width) (l : Lift) (env : Env) (regs : Registers)
      (u : SsaVar) (s amount r : ℕ)
      → OpSize w
      → IsBinary insn
      → regs 0 ≡ 0
      → instr.rs1 < 32
      → Represents base start l env regs
      → InBlock base start l env u s
      → narrow w s ≡ narrow w amount
      → eval_binary_op2 insn w (narrow w (regs instr.rs1)) (narrow w amount) ≡ ok r
      → (l' : Lift) × (env' : Env) × (lift_shift_shared instr insn (int_type w) u l ≡ ok l')
        × Represents base start l' env' (assigned regs instr.rd (widened w r))
  unfolding lift_shift_shared get_from_mapping_and_shrink
  shift_shared-Represents instr insn w l env regs u s amount r size binary z p rep q n e =
      let p1 = get_from_mapping instr.rs1 l in
      let (env1, a, after1, q1, (t1, v1)) =
        get_from_mapping-Made base start l env regs instr.rs1 rep z p in
      let rep1 = Represents-After base start l p1.1 env env1 regs rep after1 in
      let (p2, found, (env2, b, after2, q2, v2)) =
        shrunk-Made w p1.1 env1 p1.0 a size rep1.0 q1 t1 in
      let rep2 = Represents-After base start p1.1 p2.1 env1 env2 regs rep1 after2 in
      let (env3, rep3) =
        result-Represents base start w p2.1 env2 regs instr.rd r
          (add_op (int_type w) insn (some p2.0.id) (some u.id) p2.1) size rep2
          (eval_binary_op2-Fits insn w _ _ r (narrow-Fits w _) (narrow-Fits w _) e)
          (operation-Made base start insn w p2.1 env2 p2.0 u b s (regs instr.rs1) amount r size
            binary rep2.0 q2
            (InBlock-After base start p1.1 p2.1 env1 env2 u s
              (InBlock-After base start l p1.1 env env1 u s q after1) after2)
            (v2 ∙ ap (narrow w) v1) n e) in
      let p3 = add_op (int_type w) insn (some p2.0.id) (some u.id) p2.1 in
      let p4 = sign_extended (int_type w) p3.0 p3.1 in
      (write_to_mapping p4.0 instr.rd p4.1, env3, rw found refl, rep3)

  -- The masked register, at the width of the shift.
  masked_and :
      (w : Width) (b : ℕ)
      → OpSize w
      → eval_binary_op2 Instruction.and w (narrow w b) (narrow w (amount_mask (int_type w)))
        ≡ ok (b % bit_count w)
  unfolding eval_binary_op2 type_eq
  masked_and _ b op32 = ap ok (omega (arith, and-mask_5 (narrow w32 b)))
  masked_and _ b op64 = ap ok (omega (arith, and-mask_6 (narrow w64 b)))

  -- The conversion of the amount's register.
  amount-Made :
      (w : Width) (l : Lift) (env : Env) (v : SsaVar) (x : ℕ)
      → OpSize w
      → Runs base start l env
      → InBlock base start l env v x
      → Suits w64 v.type
      → Made base start (Near w x) l env (amount_operand w v l)
  amount-Made w l env v x size h q t = elim (Bool-cases (type_eq v.type (int_type w))) [
    | inl e ↦ rw e (env, x, After-refl base start l env h, q, refl)
    | inr e ↦ rw e (cast_to-Made w l env v x size h q t)
  ]

  -- A block that represents the registers, with the source among the 32: where the evaluator
  -- returns `r` for the shift at 32 or 64 bits of the register by the immediate modulo the width,
  -- lifting the shift succeeds with a block that runs and represents the registers with the
  -- result, sign-extended from 32 bits, in `rd`.
  pub lift_shift_immediate-Represents :
      (instr : FrvInst) (insn : Instruction) (w : Width) (l : Lift) (env : Env) (regs : Registers)
      (r : ℕ)
      → OpSize w
      → IsBinary insn
      → regs 0 ≡ 0
      → instr.rs1 < 32
      → Represents base start l env regs
      → eval_binary_op2 insn w (narrow w (regs instr.rs1)) (instr.imm % bit_count w) ≡ ok r
      → (l' : Lift) × (env' : Env) × (lift_shift_immediate instr insn (int_type w) l ≡ ok l')
        × Represents base start l' env' (assigned regs instr.rd (widened w r))
  unfolding lift_shift_immediate add_var_imm
  lift_shift_immediate-Represents instr insn w l env regs r size binary z p rep e =
      let amount = bit_and instr.imm (amount_mask (int_type w)) in
      let p1 = add_var_imm amount false l in
      let (env1, a, after1, q1, v1) =
        add_var-Made base start (λ t y. y ≡ narrow w64 (amount + 0)) IrType.imm _ l env
          (narrow w64 (amount + 0)) rep.0 refl refl in
      shift_shared-Represents instr insn w p1.1 env1 regs p1.0 a (instr.imm % bit_count w) r size
        binary z p (Represents-After base start l p1.1 env env1 regs rep after1) q1
        (ap (narrow w) v1 ∙ amount_value w instr.imm size) (rw (small_amount w instr.imm size) e)

  -- A block that represents the registers, with the sources among the 32: where the evaluator
  -- returns `r` for the shift at 32 or 64 bits of the first register by the second one modulo the
  -- width, lifting the shift succeeds with a block that runs and represents the registers with the
  -- result, sign-extended from 32 bits, in `rd`.
  pub lift_shift-Represents :
      (instr : FrvInst) (insn : Instruction) (w : Width) (l : Lift) (env : Env) (regs : Registers)
      (r : ℕ)
      → OpSize w
      → IsBinary insn
      → regs 0 ≡ 0
      → instr.rs1 < 32
      → instr.rs2 < 32
      → Represents base start l env regs
      → eval_binary_op2 insn w (narrow w (regs instr.rs1)) (regs instr.rs2 % bit_count w) ≡ ok r
      → (l' : Lift) × (env' : Env) × (lift_shift instr insn (int_type w) l ≡ ok l')
        × Represents base start l' env' (assigned regs instr.rd (widened w r))
  unfolding lift_shift add_var_imm
  lift_shift-Represents instr insn w l env regs r size binary z p q rep e =
      let mask = amount_mask (int_type w) in
      let p1 = add_var_imm mask false l in
      let p2 = get_from_mapping instr.rs2 p1.1 in
      let p3 = amount_operand w p2.0 p2.1 in
      let p4 = add_op (int_type w) Instruction.and (some p3.0.id) (some p1.0.id) p3.1 in
      let (env1, a, after1, q1, v1) =
        add_var-Made base start (λ t y. y ≡ narrow w64 (mask + 0)) IrType.imm _ l env
          (narrow w64 (mask + 0)) rep.0 refl refl in
      let rep1 = Represents-After base start l p1.1 env env1 regs rep after1 in
      let (env2, b, after2, q2, (s2, v2)) =
        get_from_mapping-Made base start p1.1 env1 regs instr.rs2 rep1 z q in
      let rep2 = Represents-After base start p1.1 p2.1 env1 env2 regs rep1 after2 in
      let (env3, c, after3, q3, v3) = amount-Made w p2.1 env2 p2.0 b size rep2.0 q2 s2 in
      let rep3 = Represents-After base start p2.1 p3.1 env2 env3 regs rep2 after3 in
      let (env4, d, after4, q4, (t4, v4)) =
        operation-Made base start Instruction.and w p3.1 env3 p3.0 p1.0 c a (regs instr.rs2) mask
          (regs instr.rs2 % bit_count w) size (λ t env op. refl) rep3.0 q3
          (InBlock-After base start p2.1 p3.1 env2 env3 p1.0 a
            (InBlock-After base start p1.1 p2.1 env1 env2 p1.0 a q1 after2) after3)
          (v3 ∙ ap (narrow w) v2) (ap (narrow w) v1 ∙ mask_value w size)
          (masked_and w (regs instr.rs2) size) in
      shift_shared-Represents instr insn w p4.1 env4 regs p4.0 d (regs instr.rs2 % bit_count w) r
        size binary z p (Represents-After base start p3.1 p4.1 env3 env4 regs rep3 after4) q4
        (ap (narrow w) v4) (rw (small_amount w (regs instr.rs2) size) e)
