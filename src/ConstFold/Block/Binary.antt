-- ===== src/ConstFold/Block/Binary.antt =====
-- The binary operations in `process_block` (src/ir/optimizer/const_folding.cpp).
use erap_sbt.Base.{
  ℕ, Bool, true, false, not, ◌&&◌, ◌||◌, ◌==◌, if◌then◌else◌, Option, none, some, ok,
}
use erap_sbt.Ir.IrType.{IrType}
use erap_sbt.Ir.Instruction.{Instruction}
use erap_sbt.Ir.Variable.{ImmInfo, Operation, operation, SsaVar, immediate?, operation?, set_inputs}
use erap_sbt.Eval.Binary.{eval_binary_op}
use erap_sbt.ConstFold.State.{Pass, ◌>>=◌, return, lift, can_handle_type}
use erap_sbt.ConstFold.DoubleOp.{BinOp, simplify_double_op_imm_left, simplify_double_op_imm_right}
use erap_sbt.ConstFold.Single.{replace_with_immediate, simplify_bi_imm_left, simplify_bi_imm_right}
use erap_sbt.ConstFold.Block.Lookup.{pointee, deref, resolve_simple_op_type}

abbrev pub when : Bool → Pass SsaVar → Pass SsaVar → Pass SsaVar
when b m n = if b then m else n

-- Two immediates of which one is binary-relative fold only in a sum, and in a difference if it is
-- the first.
abbrev pub skips : Instruction → ImmInfo → ImmInfo → Bool
skips Instruction.sub ia ib = ib.binary_relative
skips Instruction.add ia ib = ia.binary_relative && ib.binary_relative
skips _ ia ib = ia.binary_relative || ib.binary_relative

-- op imm, imm
unfoldable pub fold_immediates : IrType → Instruction → ImmInfo → ImmInfo → SsaVar → Pass SsaVar
unfolding eval_binary_op
fold_immediates t insn ia ib var = if skips insn ia ib then return var else do
  result ← lift (eval_binary_op insn t ia.val ib.val)
  return (replace_with_immediate var result (ia.binary_relative || ib.binary_relative))

abbrev pub with_operation : SsaVar → Operation → SsaVar
with_operation var op = record var { info = operation op }

-- The operands and the operation after `simplify_double_op_*`.
pub record Combined : Type 0 where
  pub op : Operation
  pub a : SsaVar
  pub b : SsaVar

abbrev combined : Operation → SsaVar → SsaVar → Option BinOp → Combined
combined op a b none = record { op = op; a = a; b = b }
combined op a b (some nw) = record {
  op = record (set_inputs op (some nw.a.id) (some nw.b.id)) { type = nw.type };
  a = nw.a;
  b = nw.b;
}

-- op imm, op and op op, imm
unfoldable pub combine : IrType → SsaVar → Operation → SsaVar → SsaVar → Pass Combined
unfolding pointee simplify_double_op_imm_left simplify_double_op_imm_right
combine t var op a b s = elim (immediate? a) [
  | some ai ↦ elim (operation? b) [
    | some bo ↦
        (do
          nw ←
              simplify_double_op_imm_left t op.type ai bo.type (pointee var s bo.in0)
                (pointee var s bo.in1)
          return (combined op a b nw))
          s
    | none ↦ ok (combined op a b none, s)
  ]
  | none ↦ elim (immediate? b) [
    | some bi ↦ elim (operation? a) [
      | some ao ↦
          (do
            nw ←
                simplify_double_op_imm_right t op.type bi ao.type (pointee var s ao.in0)
                  (pointee var s ao.in1)
            return (combined op a b nw))
            s
      | none ↦ ok (combined op a b none, s)
    ]
    | none ↦ ok (combined op a b none, s)
  ]
]

abbrev same_pointer : Option ℕ → Option ℕ → Bool
same_pointer (some i) (some j) = i == j
same_pointer none none = true
same_pointer _ _ = false

abbrev self_cancels : Instruction → Bool
self_cancels Instruction.xor = true
self_cancels Instruction.sub = true
self_cancels _ = false

-- xor a, a and sub a, a. Where the operation has just been replaced by an immediate, the source reads
-- the freed object; `stale` is what its test then finds.
unfoldable pub self_check : Bool → SsaVar → SsaVar
self_check stale var = elim (operation? var) [
  | some op ↦
      if self_cancels op.type && same_pointer op.in0 op.in1
      then replace_with_immediate var 0 false
      else var
  | none ↦ if stale then replace_with_immediate var 0 false else var
]

-- The immediate of the operation, if there is one and it is not binary-relative, is simplified away;
-- a binary-relative one ends the work on the variable.
unfoldable pub simplify_one : Bool → IrType → SsaVar → Combined → Pass SsaVar
unfolding simplify_bi_imm_left simplify_bi_imm_right self_check
simplify_one stale t var c = elim (immediate? c.a) [
  | some ai ↦
      when ai.binary_relative (return var)
        do v ← simplify_bi_imm_left t ai.val var c.b c.op.type; return (self_check stale v)
  | none ↦ elim (immediate? c.b) [
    | some bi ↦
        when bi.binary_relative (return var)
          do v ← simplify_bi_imm_right t bi.val var c.a c.op.type; return (self_check stale v)
    | none ↦ return (self_check stale var)
  ]
]

unfoldable pub fold_operands : Bool → IrType → SsaVar → Operation → SsaVar → SsaVar → Pass SsaVar
unfolding combine simplify_one
fold_operands stale t var op a b = do
  c ← combine t var op a b
  simplify_one stale t (with_operation var c.op) c

unfoldable pub process_binary : Bool → SsaVar → Operation → Pass SsaVar
unfolding deref resolve_simple_op_type fold_immediates fold_operands can_handle_type
process_binary stale var op = do
  a ← deref var op.in0
  b ← deref var op.in1
  when (not (can_handle_type a.type && can_handle_type b.type)) (return var) do
    t ← resolve_simple_op_type var op
    elim (immediate? a) [
      | some ia ↦ elim (immediate? b) [
        | some ib ↦ fold_immediates t op.type ia ib var
        | none ↦ fold_operands stale t var op a b
      ]
      | none ↦ fold_operands stale t var op a b
    ]
