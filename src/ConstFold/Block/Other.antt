-- ===== src/ConstFold/Block/Other.antt =====
-- The other operations in `process_block` (src/ir/optimizer/const_folding.cpp).
use erap_sbt.Base.{
  ℕ, Bool, true, false, not, ◌&&◌, ◌||◌, ◌==◌, if◌then◌else◌, Option, none, some, Outcome, ok,
  panics,
}
use erap_sbt.Base.Int.{ℤ, pos, negsuc}
use erap_sbt.Ir.IrType.{IrType, type_eq, cast_dir}
use erap_sbt.Ir.Instruction.{Instruction}
use erap_sbt.Ir.Variable.{Operation, SsaVar, immediate?, operation?}
use erap_sbt.Eval.Binary.{eval_unary_op}
use erap_sbt.Eval.Division.{eval_div}
use erap_sbt.Eval.Morph.{eval_morphing_op}
use erap_sbt.Eval.Compare.{typed_compare}
use erap_sbt.ConstFold.State.{Pass, ◌>>=◌, return, lift, can_handle_type, replace_var}
use erap_sbt.ConstFold.Single.{replace_with_immediate, simplify_morph}
use erap_sbt.ConstFold.Block.Lookup.{deref, resolve_simple_op_type}
use erap_sbt.ConstFold.Block.Binary.{when, with_operation}

abbrev replace_by : SsaVar → SsaVar → Pass SsaVar
replace_by var new_var = do _ ← replace_var var new_var; return var

abbrev is_not : Instruction → Bool
is_not Instruction.not = true
is_not _ = false

unfoldable pub process_unary : SsaVar → Operation → Pass SsaVar
unfolding deref resolve_simple_op_type can_handle_type eval_unary_op replace_var
process_unary var op = do
  input ← deref var op.in0
  when (not (can_handle_type input.type)) (return var) (elim (immediate? input) [
    | some ii ↦ when ii.binary_relative (return var) do
      t ← resolve_simple_op_type var op
      result ← lift (eval_unary_op op.type t ii.val)
      return (replace_with_immediate var result false)
    | none ↦ elim (operation? input) [
      | some prev ↦
          when (not (is_not prev.type)) (return var) do x ← deref var prev.in0; replace_by var x
      | none ↦ return var
    ]
  ])

abbrev is_extend : Instruction → Bool
is_extend Instruction.sign_extend = true
is_extend Instruction.zero_extend = true
is_extend _ = false

abbrev is_cast : Instruction → Bool
is_cast Instruction.cast = true
is_cast _ = false

-- `cast (extend pin)`, where `pin` has the type that is cast to, or is at least as large.
unfoldable pub fold_cast : SsaVar → Operation → SsaVar → SsaVar → Pass SsaVar
unfolding simplify_morph cast_dir type_eq replace_var
fold_cast var op input pin =
    when (type_eq pin.type var.type) (replace_by var pin) (elim (cast_dir pin.type var.type) [
      | pos n ↦
          if n == 0
          then simplify_morph input.type pin var.type
              (with_operation var (record op { in0 = some pin.id }))
          else simplify_morph input.type input var.type var
      | negsuc _ ↦ simplify_morph input.type input var.type var
    ])

abbrev points_to : Option ℕ → SsaVar → Bool
points_to (some i) v = i == v.id
points_to none v = false

unfoldable pub process_morph : SsaVar → Operation → Pass SsaVar
unfolding deref can_handle_type eval_morphing_op type_eq fold_cast simplify_morph
process_morph var op = do
  input ← deref var op.in0
  when (not (points_to op.out0 var)) (lift panics) (
      when (not (can_handle_type input.type && can_handle_type var.type)) (return var)
        (elim (immediate? input) [
          | some ii ↦ when ii.binary_relative (return var) do
            result ← lift (
                eval_morphing_op op.type
                  (if type_eq input.type IrType.imm then var.type else input.type) var.type ii.val)
            return (replace_with_immediate var result false)
          | none ↦ elim (operation? input) [
            | some po ↦
                when (not (is_cast op.type && is_extend po.type))
                  (simplify_morph input.type input var.type var)
                  do pin ← deref var po.in0; fold_cast var op input pin
            | none ↦ simplify_morph input.type input var.type var
          ]
        ]))

abbrev is_null : Option ℕ → Bool
is_null none = true
is_null (some _) = false

abbrev differs : Bool → Bool → Bool
differs true b = not b
differs false b = b

-- The source passes the immediates to `eval_div` in the order divisor, dividend.
unfoldable pub process_div : SsaVar → Operation → Pass SsaVar
unfolding deref resolve_simple_op_type can_handle_type eval_div
process_div var op = do
  a ← deref var op.in0
  b ← deref var op.in1
  when (not (can_handle_type a.type && can_handle_type b.type)) (return var) (
      when (not (differs (is_null op.out0) (is_null op.out1))) (lift panics) (elim (immediate? a) [
        | some ai ↦ elim (immediate? b) [
          | some bi ↦ when (ai.binary_relative || bi.binary_relative) (return var) do
            t ← resolve_simple_op_type var op
            results ← lift (eval_div op.type t bi.val ai.val)
            return (
                replace_with_immediate var (if is_null op.out0 then results.1 else results.0) false)
          | none ↦ return var
        ]
        | none ↦ return var
      ]))

-- The type at which a conditional set compares.
unfoldable pub compare_type : IrType → IrType → Outcome IrType
unfolding type_eq cast_dir
compare_type ta tb = elim (cast_dir ta tb) [
  | negsuc _ ↦ if type_eq ta tb then ok (widened ta) else panics
  | pos n ↦ ok (widened (if n == 1 then tb else ta))
]
  where
    widened : IrType → IrType
    widened t = if type_eq t IrType.imm then IrType.i64 else t

abbrev compares_signed : Instruction → Bool
compares_signed Instruction.slt = true
compares_signed Instruction.sle = true
compares_signed _ = false

-- What the three-way comparison means for each of the four operations.
unfoldable pub holds : Instruction → ℤ → Bool
holds Instruction.seq (pos n) = n == 0
holds Instruction.sle (pos n) = n == 0
holds Instruction.sle (negsuc _) = true
holds Instruction.slt (negsuc _) = true
holds Instruction.sltu (negsuc _) = true
holds _ _ = false

unfoldable pub process_conditional_set : SsaVar → Operation → Pass SsaVar
unfolding deref can_handle_type compare_type typed_compare holds replace_var
process_conditional_set var op = do
  a ← deref var op.in0
  b ← deref var op.in1
  when (not (can_handle_type a.type && can_handle_type b.type)) (return var) (elim (immediate? a) [
    | some ai ↦ elim (immediate? b) [
      | some bi ↦ (do
        t ← lift (compare_type a.type b.type)
        cmp ← lift (typed_compare t ai.val bi.val (compares_signed op.type))
        chosen ← deref var (if holds op.type cmp then op.in2 else op.in3)
        replace_by var chosen)
      | none ↦ return var
    ]
    | none ↦ return var
  ])
