-- ===== src/ConstFold/Single.antt =====
-- src/ir/optimizer/const_folding.cpp: the simplification of a binary operation that has one
-- immediate operand, such as `add x, 0`. The functions return the variable as they leave it; a
-- replacement by another variable is an entry of the rewriter.
pub mod Identities
pub mod Shifts
pub mod Kept
pub mod Correct
mod Tests
use erap_sbt.Base.{
  ℕ, ◌-◌, ◌^◌, ◌==◌, Bool, true, false, if◌then◌else◌, Option, none, some, Outcome, ok, panics,
  undefined,
}
use erap_sbt.Ir.IrType.{IrType, type_eq}
use erap_sbt.Ir.Instruction.{Instruction, is_commutative}
use erap_sbt.Ir.Variable.{
  ImmInfo, Operation, VarInfo, immediate, operation, SsaVar, set_inputs, operation?,
}
use erap_sbt.Eval.Compare.{typed_equal, typed_narrow}
use erap_sbt.ConstFold.State.{Pass, ◌>>=◌, return, lift, replace_var}

-- UINT64_MAX
abbrev pub uint64_max : ℕ
uint64_max = 2 ^ 64 - 1

-- `replace_with_immediate`
abbrev pub replace_with_immediate : SsaVar → ℕ → Bool → SsaVar
replace_with_immediate var imm bin_rel = record var {
  info = immediate (record { val = imm; binary_relative = bin_rel });
}

-- The operation becomes `not in`.
abbrev pub becomes_not : SsaVar → Operation → SsaVar → SsaVar
becomes_not cur op inner = record cur {
  info = operation (record (set_inputs op (some inner.id) none) { type = Instruction.not });
}

abbrev replace : SsaVar → SsaVar → Pass SsaVar
replace cur inner = do _ ← replace_var cur inner; return cur

-- `if … else …` between two calls.
abbrev choose : Bool → Pass SsaVar → Pass SsaVar → Pass SsaVar
choose b m n = if b then m else n

module _ (t : IrType) (imm : ℕ) (cur inner : SsaVar) where
  -- `cur->get_operation()` is changed in place.
  abbrev negate : Option Operation → Pass SsaVar
  negate (some op) = return (becomes_not cur op inner)
  negate none = lift undefined

  unfoldable pub simplify_bi_comm : Instruction → Pass SsaVar
  unfolding replace_var typed_equal typed_narrow
  simplify_bi_comm Instruction.add = if imm == 0 then replace cur inner else return cur
  simplify_bi_comm Instruction.and = do
    all_ones ← lift (typed_equal t imm uint64_max)
    zero ← lift (typed_equal t imm 0)
    choose all_ones (replace cur inner)
        (choose zero (return (replace_with_immediate cur 0 false)) (return cur))
  simplify_bi_comm Instruction.or = do
    all_ones ← lift (typed_equal t imm uint64_max)
    zero ← lift (typed_equal t imm 0)
    ones ← lift (typed_narrow t uint64_max)
    choose all_ones (return (replace_with_immediate cur ones false))
        (choose zero (replace cur inner) (return cur))
  simplify_bi_comm Instruction.xor = do
    zero ← lift (typed_equal t imm 0)
    all_ones ← lift (typed_equal t imm uint64_max)
    choose zero (replace cur inner) (choose all_ones (negate (operation? cur)) (return cur))
  simplify_bi_comm _ = return cur

  unfoldable pub shift_of_zero : Pass SsaVar
  unfolding typed_equal
  shift_of_zero = do
    zero ← lift (typed_equal t imm 0)
    if zero then return (replace_with_immediate cur 0 false) else return cur

  unfoldable pub by_zero : Pass SsaVar
  unfolding typed_equal replace_var
  by_zero = do zero ← lift (typed_equal t imm 0); if zero then replace cur inner else return cur

  unfoldable pub left_other : Instruction → Pass SsaVar
  unfolding shift_of_zero
  left_other Instruction.shl = shift_of_zero
  left_other Instruction.shr = shift_of_zero
  left_other Instruction.sar = shift_of_zero
  left_other _ = return cur

  unfoldable pub right_other : Instruction → Pass SsaVar
  unfolding by_zero
  right_other Instruction.sub = by_zero
  right_other Instruction.shl = by_zero
  right_other Instruction.shr = by_zero
  right_other Instruction.sar = by_zero
  right_other _ = return cur

  -- op imm, in
  unfoldable pub simplify_bi_imm_left : Instruction → Pass SsaVar
  unfolding simplify_bi_comm left_other is_commutative
  simplify_bi_imm_left insn = if is_commutative insn then simplify_bi_comm insn else left_other insn

  -- op in, imm
  unfoldable pub simplify_bi_imm_right : Instruction → Pass SsaVar
  unfolding simplify_bi_comm right_other is_commutative
  simplify_bi_imm_right insn =
      if is_commutative insn then simplify_bi_comm insn else right_other insn

-- A morphing operation between equal types is its operand.
unfoldable pub simplify_morph : IrType → SsaVar → IrType → SsaVar → Pass SsaVar
unfolding replace_var type_eq
simplify_morph in_type in_var out_type out_var =
    if type_eq in_type out_type then replace out_var in_var else return out_var
