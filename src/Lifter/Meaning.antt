-- ===== src/Lifter/Meaning.antt =====
-- What the variables of a block hold when it runs: each operation has the value that the evaluator
-- of src/ir/eval.cpp gives it at the type of its variable, and an immediate is moved by the base
-- address where it is relative. Loads, stores and floating-point operations are left out.
-- The variables that a block reads from the statics at its entry are not run: the environment in
-- which a run starts holds them, with the values of the registers, and the list has the others.
use erap_sbt.Base.{
  ℕ, ◌+◌, ◌==◌, Bool, true, false, if◌then◌else◌, Option, none, some, List, [], ◌∷◌, Outcome, ok,
  undefined, ◌>>=◌,
}
use erap_sbt.Base.Int.{ltb_ℤ, pos}
use erap_sbt.Ir.IrType.{IrType}
use erap_sbt.Ir.Instruction.{Instruction}
use erap_sbt.Ir.Variable.{Operation, VarInfo, uninitialized, immediate, static, operation, SsaVar}
use erap_sbt.Eval.{w64, narrow}
use erap_sbt.Eval.Binary.{eval_binary_op}
use erap_sbt.Eval.Morph.{eval_morphing_op}
use erap_sbt.Eval.Division.{eval_div}
use erap_sbt.Eval.Compare.{typed_compare}

-- The type and the value of each variable that has run.
abbrev pub Env : Type 0
Env = ℕ → IrType × ℕ

abbrev pub put : Env → ℕ → IrType × ℕ → Env
put env i cell j = if i == j then cell else env j

-- An input, which must not be null.
abbrev pub input : Env → Option ℕ → Outcome (IrType × ℕ)
input env none = undefined
input env (some i) = ok (env i)

-- An immediate operand has 64 bits.
abbrev pub held : IrType → IrType
held IrType.imm = IrType.i64
held t = t

abbrev pub selected : Outcome Bool → ℕ → ℕ → Outcome ℕ
selected test x y = do b ← test; ok (if b then x else y)

abbrev pub less : Bool → ℕ → ℕ → Outcome Bool
less is_signed a b = do c ← typed_compare IrType.i64 a b is_signed; ok (ltb_ℤ c (pos 0))

-- A division gives the quotient to its first output and the remainder to its second.
abbrev pub divided : Option ℕ → Outcome (ℕ × ℕ) → Outcome ℕ
divided out0 both = do
  (quotient, remainder) ← both
  ok (elim out0 [ some i ↦ quotient | none ↦ remainder ])

-- The value of an operation at the type of its variable.
abbrev pub apply : Instruction → IrType → Env → Operation → Outcome ℕ
apply Instruction.sign_extend t env op = do
  a ← input env op.in0
  eval_morphing_op Instruction.sign_extend (held a.0) t a.1
apply Instruction.zero_extend t env op = do
  a ← input env op.in0
  eval_morphing_op Instruction.zero_extend (held a.0) t a.1
apply Instruction.cast t env op = do
  a ← input env op.in0
  eval_morphing_op Instruction.cast (held a.0) t a.1
apply Instruction.slt t env op = do
  a ← input env op.in0
  b ← input env op.in1
  x ← input env op.in2
  y ← input env op.in3
  selected (less true a.1 b.1) x.1 y.1
apply Instruction.sltu t env op = do
  a ← input env op.in0
  b ← input env op.in1
  x ← input env op.in2
  y ← input env op.in3
  selected (less false a.1 b.1) x.1 y.1
apply Instruction.div t env op = do
  a ← input env op.in0
  b ← input env op.in1
  divided op.out0 (eval_div Instruction.div t a.1 b.1)
apply Instruction.udiv t env op = do
  a ← input env op.in0
  b ← input env op.in1
  divided op.out0 (eval_div Instruction.udiv t a.1 b.1)
apply insn t env op = do a ← input env op.in0; b ← input env op.in1; eval_binary_op insn t a.1 b.1

module _ (base : ℕ) where
  -- What a new variable of a type holds. A static has its value from the start of the run, so that
  -- none is made during it.
  abbrev pub holds : IrType → VarInfo → Env → Outcome ℕ
  holds t uninitialized env = undefined
  holds t (immediate i) env = ok (narrow w64 (i.val + (if i.binary_relative then base else 0)))
  holds t (static r) env = undefined
  holds t (operation op) env = apply op.type t env op

  -- The variables of a block, the newest first, run from the oldest to the newest.
  unfoldable pub run : Env → List SsaVar → Outcome Env
  run env [] = ok env
  run env (v ∷ vs) = do
    before ← run env vs
    value ← holds v.type v.info before
    ok (put before v.id (v.type, value))
