-- ===== src/ConstFold/Block/Lookup.antt =====
-- Reading the operands of an operation and its type (src/ir/optimizer/const_folding.cpp).
use erap_sbt.Base.{
  ℕ, Bool, true, ◌&&◌, ◌==◌, if◌then◌else◌, List, [], ◌∷◌, ◌++◌, Option, none, some, Outcome, ok,
  panics, undefined,
}
use erap_sbt.Base.Int.{pos, negsuc}
use erap_sbt.Ir.IrType.{IrType, cast_dir, type_eq}
use erap_sbt.Ir.Variable.{Operation, SsaVar, find}
use erap_sbt.ConstFold.State.{Pass, PassState, ◌>>=◌, return, lift}

-- The variable behind a pointer: the current one or another of the block.
unfoldable pub pointee : SsaVar → PassState → Option ℕ → Option SsaVar
unfolding find
pointee var s none = none
pointee var s (some i) = find i (var ∷ (s.before ++ s.after))

abbrev present : Option SsaVar → Pass SsaVar
present (some v) = return v
present none = lift undefined

-- `*ptr`
unfoldable pub deref : SsaVar → Option ℕ → Pass SsaVar
unfolding pointee
deref var p s = present (pointee var s p) s

-- The types of the variables behind some pointers, without `imm` and without null pointers.
unfoldable pub operand_types : SsaVar → List (Option ℕ) → Pass (List IrType)
unfolding deref type_eq
operand_types var [] = return []
operand_types var (none ∷ ps) = operand_types var ps
operand_types var (some i ∷ ps) = do
  v ← deref var (some i)
  ts ← operand_types var ps
  return (if type_eq v.type IrType.imm then ts else v.type ∷ ts)

-- The largest type of a conflict; the assertion fails for a type that is no integer.
unfoldable pub largest : IrType → List IrType → Outcome IrType
unfolding cast_dir
largest acc [] = ok acc
largest acc (t ∷ ts) = elim (cast_dir acc t) [
  | negsuc _ ↦ panics
  | pos n ↦ largest (if n == 1 then t else acc) ts
]

abbrev all_equal : IrType → List IrType → Bool
all_equal t [] = true
all_equal t (u ∷ us) = type_eq t u && all_equal t us

-- What the set of types resolves to.
unfoldable pub resolved : List IrType → Outcome IrType
unfolding type_eq largest
resolved [] = ok IrType.i64
resolved (t ∷ ts) = if all_equal t ts then ok t else largest IrType.i8 (t ∷ ts)

-- `resolve_simple_op_type`, as it is compiled without NDEBUG.
unfoldable pub resolve_simple_op_type : SsaVar → Operation → Pass IrType
unfolding operand_types resolved
resolve_simple_op_type var op = do
  ts ← operand_types var (op.in0 ∷ op.in1 ∷ op.in2 ∷ op.in3 ∷ op.out0 ∷ op.out1 ∷ [])
  lift (resolved ts)
