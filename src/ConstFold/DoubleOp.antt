-- ===== src/ConstFold/DoubleOp.antt =====
-- src/ir/optimizer/const_folding.cpp: the simplification of an operation whose one operand is an
-- immediate and whose other operand is an operation with an immediate.
pub mod Sound
pub mod Branches
pub mod Bitwise
pub mod Flags
pub mod Comm
pub mod Sides
pub mod Correct
mod Tests
use erap_sbt.Base.{
  ℕ, Bool, true, false, not, ◌||◌, ◌&&◌, if◌then◌else◌, Option, none, some, Outcome, ok, panics,
  undefined,
}
use erap_sbt.Ir.IrType.{IrType}
use erap_sbt.Ir.Instruction.{Instruction, is_binary_op, is_commutative}
use erap_sbt.Ir.Variable.{ImmInfo, SsaVar, VarInfo, immediate, immediate?}
use erap_sbt.ConstFold.State.{Pass, ◌>>=◌, return, lift, eval_to_imm, can_handle_type}

pub record BinOp : Type 0 where
  pub type : Instruction
  pub a : SsaVar
  pub b : SsaVar

abbrev pub nothing : Pass (Option BinOp)
nothing = return none

-- `if (pa->is_immediate()) … else if (pb->is_immediate()) …`
abbrev pub on_imm :
    SsaVar
    → SsaVar
    → (ImmInfo → Pass (Option BinOp))
    → (ImmInfo → Pass (Option BinOp))
    → Pass (Option BinOp)
on_imm pa pb f g = elim (immediate? pa) [
  | some i ↦ f i
  | none ↦ elim (immediate? pb) [ some i ↦ g i | none ↦ nothing ]
]

-- `return BinOp{insn, result, other}` and `return BinOp{insn, other, result}`.
abbrev pub imm_first : Instruction → SsaVar → Pass SsaVar → Pass (Option BinOp)
imm_first insn other m = do
  result ← m
  return (some (record { type = insn; a = result; b = other }))

abbrev pub imm_second : Instruction → SsaVar → Pass SsaVar → Pass (Option BinOp)
imm_second insn other m = do
  result ← m
  return (some (record { type = insn; a = other; b = result }))

-- `v->is_immediate() && v->get_immediate().binary_relative`
abbrev pub is_relative : SsaVar → Bool
is_relative v = elim (immediate? v) [ some i ↦ i.binary_relative | none ↦ false ]

-- `v->is_immediate()`
abbrev pub is_imm : SsaVar → Bool
is_imm v = elim (immediate? v) [ some i ↦ true | none ↦ false ]

-- The three cases that each function tells apart: the outer immediate is binary-relative (and then the
-- inner one must not be), the inner one is, or neither is.
abbrev pub by_relative :
    ImmInfo
    → SsaVar
    → SsaVar
    → Pass (Option BinOp)
    → Pass (Option BinOp)
    → Pass (Option BinOp)
    → Pass (Option BinOp)
by_relative imm a b outer inner absolute =
    if imm.binary_relative
    then if is_relative a || is_relative b then nothing else outer
    else if is_relative a || is_relative b
    then inner
    else absolute

module _ (t : IrType) (imm : ImmInfo) (pa pb : SsaVar) where
  -- The current immediate is binary-relative, the other two operands are not.
  unfoldable pub comm_relative : Instruction → Instruction → Pass (Option BinOp)
  comm_relative Instruction.add Instruction.add =
      on_imm pa pb
        (λ i. imm_first Instruction.add pb (eval_to_imm Instruction.add t i.val imm.val true))
        (λ i. imm_first Instruction.add pa (eval_to_imm Instruction.add t i.val imm.val true))
  comm_relative Instruction.add Instruction.sub =
      on_imm pa pb
        (λ i. imm_first Instruction.sub pb (eval_to_imm Instruction.add t i.val imm.val true))
        (λ i. imm_first Instruction.add pa (eval_to_imm Instruction.sub t imm.val i.val true))
  comm_relative _ _ = nothing

  -- The immediate of the inner operation is binary-relative.
  unfoldable pub comm_inner_relative : Instruction → Instruction → Pass (Option BinOp)
  comm_inner_relative Instruction.add Instruction.add =
      on_imm pa pb
        (λ i. imm_first Instruction.add pb (eval_to_imm Instruction.add t i.val imm.val true))
        (λ i. imm_first Instruction.add pa (eval_to_imm Instruction.add t i.val imm.val true))
  comm_inner_relative Instruction.add Instruction.sub =
      on_imm pa pb
        (λ i. imm_first Instruction.sub pb (eval_to_imm Instruction.add t i.val imm.val true))
        (λ i. imm_second Instruction.sub pa (eval_to_imm Instruction.sub t i.val imm.val true))
  comm_inner_relative _ _ = nothing

  -- No immediate is binary-relative.
  unfoldable pub comm_absolute : Instruction → Instruction → Pass (Option BinOp)
  comm_absolute Instruction.add Instruction.add =
      on_imm pa pb
        (λ i. imm_first Instruction.add pb (eval_to_imm Instruction.add t i.val imm.val false))
        (λ i. imm_first Instruction.add pa (eval_to_imm Instruction.add t i.val imm.val false))
  comm_absolute Instruction.add Instruction.sub =
      on_imm pa pb
        (λ i. imm_first Instruction.sub pb (eval_to_imm Instruction.add t i.val imm.val false))
        (λ i. imm_first Instruction.add pa (eval_to_imm Instruction.sub t imm.val i.val false))
  comm_absolute Instruction.and Instruction.and =
      on_imm pa pb
        (λ i. imm_first Instruction.and pb (eval_to_imm Instruction.and t i.val imm.val false))
        (λ i. imm_first Instruction.and pa (eval_to_imm Instruction.and t i.val imm.val false))
  comm_absolute Instruction.or Instruction.or =
      on_imm pa pb
        (λ i. imm_first Instruction.or pb (eval_to_imm Instruction.or t i.val imm.val false))
        (λ i. imm_first Instruction.or pa (eval_to_imm Instruction.or t i.val imm.val false))
  comm_absolute Instruction.xor Instruction.xor =
      on_imm pa pb
        (λ i. imm_first Instruction.xor pb (eval_to_imm Instruction.xor t i.val imm.val false))
        (λ i. imm_first Instruction.xor pa (eval_to_imm Instruction.xor t i.val imm.val false))
  comm_absolute _ _ = nothing

  unfoldable pub simplify_double_op_comm : Instruction → Instruction → Pass (Option BinOp)
  unfolding comm_relative comm_inner_relative comm_absolute
  simplify_double_op_comm cins pins =
      by_relative imm pa pb (comm_relative cins pins) (comm_inner_relative cins pins)
        (comm_absolute cins pins)

  -- The immediate is on the left: the three cases again.
  unfoldable pub left_relative : Instruction → Instruction → Pass (Option BinOp)
  left_relative Instruction.sub Instruction.add =
      on_imm pa pb
        (λ i. imm_first Instruction.sub pb (eval_to_imm Instruction.sub t imm.val i.val true))
        (λ i. imm_first Instruction.sub pa (eval_to_imm Instruction.sub t imm.val i.val true))
  left_relative Instruction.sub Instruction.sub =
      on_imm pa pb
        (λ i. imm_first Instruction.add pb (eval_to_imm Instruction.sub t imm.val i.val true))
        (λ i. imm_first Instruction.sub pa (eval_to_imm Instruction.add t i.val imm.val true))
  left_relative _ _ = nothing

  unfoldable pub left_inner_relative : Instruction → Instruction → Pass (Option BinOp)
  left_inner_relative Instruction.sub Instruction.sub =
      on_imm pa pb (λ i. nothing)
        (λ i. imm_second Instruction.sub pa (eval_to_imm Instruction.add t i.val imm.val true))
  left_inner_relative _ _ = nothing

  unfoldable pub left_absolute : Instruction → Instruction → Pass (Option BinOp)
  left_absolute Instruction.sub Instruction.add =
      on_imm pa pb
        (λ i. imm_first Instruction.sub pb (eval_to_imm Instruction.sub t imm.val i.val false))
        (λ i. imm_first Instruction.sub pa (eval_to_imm Instruction.sub t imm.val i.val false))
  left_absolute Instruction.sub Instruction.sub =
      on_imm pa pb
        (λ i. imm_first Instruction.add pb (eval_to_imm Instruction.sub t imm.val i.val false))
        (λ i. imm_first Instruction.sub pa (eval_to_imm Instruction.add t i.val imm.val false))
  left_absolute _ _ = nothing

  -- The immediate is on the right.
  unfoldable pub right_relative : Instruction → Instruction → Pass (Option BinOp)
  right_relative Instruction.sub Instruction.sub =
      on_imm pa pb (λ i. nothing)
        (λ i. imm_second Instruction.sub pa (eval_to_imm Instruction.add t imm.val i.val true))
  right_relative _ _ = nothing

  unfoldable pub right_inner_relative : Instruction → Instruction → Pass (Option BinOp)
  right_inner_relative Instruction.sub Instruction.add =
      on_imm pa pb
        (λ i. imm_second Instruction.add pb (eval_to_imm Instruction.sub t i.val imm.val true))
        (λ i. imm_second Instruction.add pa (eval_to_imm Instruction.sub t i.val imm.val true))
  right_inner_relative Instruction.sub Instruction.sub =
      on_imm pa pb
        (λ i. imm_first Instruction.sub pb (eval_to_imm Instruction.sub t i.val imm.val true))
        (λ i. imm_second Instruction.sub pa (eval_to_imm Instruction.add t i.val imm.val true))
  right_inner_relative _ _ = nothing

  unfoldable pub right_absolute : Instruction → Instruction → Pass (Option BinOp)
  right_absolute Instruction.sub Instruction.add =
      on_imm pa pb
        (λ i. imm_first Instruction.add pb (eval_to_imm Instruction.sub t i.val imm.val false))
        (λ i. imm_first Instruction.add pa (eval_to_imm Instruction.sub t i.val imm.val false))
  right_absolute Instruction.sub Instruction.sub =
      on_imm pa pb
        (λ i. imm_first Instruction.sub pb (eval_to_imm Instruction.sub t i.val imm.val false))
        (λ i. imm_second Instruction.sub pa (eval_to_imm Instruction.add t i.val imm.val false))
  right_absolute _ _ = nothing

-- The guards in front of both: the inner operation is binary, one of its operands is an immediate,
-- the types are integers or untyped, and (asserted) not both operands are immediates.
abbrev pub guard_operands :
    Option SsaVar → Option SsaVar → (SsaVar → SsaVar → Pass (Option BinOp)) → Pass (Option BinOp)
guard_operands (some a) (some b) body =
    if not (is_imm a) && not (is_imm b)
    then nothing
    else if not (can_handle_type a.type && can_handle_type b.type)
    then nothing
    else if is_imm a && is_imm b
    then lift panics
    else body a b
guard_operands _ _ body = lift undefined

abbrev pub guarded :
    Instruction
    → Option SsaVar
    → Option SsaVar
    → (SsaVar → SsaVar → Pass (Option BinOp))
    → Pass (Option BinOp)
guarded pins pa pb body = if not (is_binary_op pins) then nothing else guard_operands pa pb body

-- The operations of the two functions below on operands that passed the guards.
unfoldable pub left_body :
    IrType → Instruction → ImmInfo → Instruction → SsaVar → SsaVar → Pass (Option BinOp)
unfolding is_commutative
left_body t cins imm pins a b =
    if is_commutative cins
    then simplify_double_op_comm t imm a b cins pins
    else by_relative imm a b (left_relative t imm a b cins pins)
        (left_inner_relative t imm a b cins pins) (left_absolute t imm a b cins pins)

unfoldable pub right_body :
    IrType → Instruction → ImmInfo → Instruction → SsaVar → SsaVar → Pass (Option BinOp)
unfolding is_commutative
right_body t cins imm pins a b =
    if is_commutative cins
    then simplify_double_op_comm t imm a b cins pins
    else by_relative imm a b (right_relative t imm a b cins pins)
        (right_inner_relative t imm a b cins pins) (right_absolute t imm a b cins pins)

unfoldable pub simplify_double_op_imm_left :
    IrType
    → Instruction
    → ImmInfo
    → Instruction
    → Option SsaVar
    → Option SsaVar
    → Pass (Option BinOp)
unfolding is_binary_op left_body
simplify_double_op_imm_left t cins imm pins pa pb = guarded pins pa pb (left_body t cins imm pins)

unfoldable pub simplify_double_op_imm_right :
    IrType
    → Instruction
    → ImmInfo
    → Instruction
    → Option SsaVar
    → Option SsaVar
    → Pass (Option BinOp)
unfolding is_binary_op right_body
simplify_double_op_imm_right t cins imm pins pa pb = guarded pins pa pb (right_body t cins imm pins)
