-- ===== src/ConstFold/Block/Walk.antt =====
-- The walk over a block (src/ir/optimizer/const_folding.cpp).
use erap_sbt.Base.{
  map, reversed, ℕ, Bool, true, false, not, ◌&&◌, if◌then◌else◌, List, [], ◌∷◌, Option, none, some,
  Outcome, ok, panics, undefined,
}
use erap_sbt.Ir.Instruction.{
  Instruction, is_binary_op, is_unary_op, is_morphing_op, is_conditional_set,
}
use erap_sbt.Ir.ControlFlow.{BasicBlock}
use erap_sbt.ConstFold.Rewriting.{apply_to_all}
use erap_sbt.Ir.Variable.{Operation, SsaVar, operation?, immediate?, find}
use erap_sbt.ConstFold.State.{Pass, PassState, ◌>>=◌, return, apply_to}
use erap_sbt.ConstFold.Block.Binary.{when, with_operation, process_binary}
use erap_sbt.ConstFold.Block.Other.{
  process_unary, process_morph, process_div, process_conditional_set,
}

abbrev is_division : Instruction → Bool
is_division Instruction.div = true
is_division Instruction.udiv = true
is_division _ = false

-- The chain of tests on the operation, after its operands have been rewritten.
unfoldable pub process_operation : Bool → SsaVar → Operation → Pass SsaVar
unfolding is_binary_op is_unary_op is_morphing_op is_conditional_set process_binary process_unary
    process_morph process_div process_conditional_set
process_operation stale var op = when (is_binary_op op.type) (process_binary stale var op) (
    when (is_unary_op op.type) (process_unary var op) (
      when (is_morphing_op op.type) (process_morph var op) (
        when (is_division op.type) (process_div var op)
          (when (is_conditional_set op.type) (process_conditional_set var op) (return var)))))

unfoldable pub process_var : Bool → SsaVar → Pass SsaVar
unfolding process_operation apply_to
process_var stale var s = elim (operation? var) [
  | some op ↦
      let op' = apply_to s.rewrites op in process_operation stale (with_operation var op') op' s
  | none ↦ ok (var, s)
]

-- The variables behind the one at the head.
abbrev later : List SsaVar → List SsaVar
later [] = []
later (u ∷ us) = us

-- `var_index` moves past the current variable.
abbrev push : SsaVar → List SsaVar → Pass (Unit {0})
push v rest s = ok (tt, record s { before = v ∷ s.before; after = rest })

-- The loop over the variables. Each step goes on to the next of the variables that the block had at
-- the start: those that are inserted lie in front of the current one.
unfoldable pub process_variables : Bool → List SsaVar → Pass (Unit {0})
unfolding process_var
process_variables stale [] = return tt
process_variables stale (v ∷ vs) = do
  v' ← process_var stale v
  _ ← push v' (later vs)
  process_variables stale vs

-- The loop from the first variable on: the state that it ends in has the variables of the block, last
-- one first.
unfoldable pub run_variables : Bool → ℕ → List SsaVar → Outcome PassState
unfolding process_variables
run_variables stale next vars =
    elim (process_variables stale vars
      (record { cur_ssa_id = next; before = []; after = later vars; rewrites = [] })) [
        | ok (_, s) ↦ ok s
        | panics ↦ panics
        | undefined ↦ undefined
      ]

-- The block that the pass leaves, given how the loop ends.
abbrev pub finished : BasicBlock → Outcome PassState → Outcome BasicBlock
finished block (ok s) = ok (record block {
  cur_ssa_id = s.cur_ssa_id;
  variables = reversed s.before;
  control_flow_ops = apply_to_all s.rewrites block.control_flow_ops;
})
finished block panics = panics
finished block undefined = undefined

unfoldable pub process_block : Bool → BasicBlock → Outcome BasicBlock
unfolding run_variables apply_to_all
process_block stale block = finished block (run_variables stale block.cur_ssa_id block.variables)

-- The operations whose immediate operand `const_fold` moves to the right in the end.
unfoldable pub swaps : Instruction → Bool
swaps Instruction.add = true
swaps Instruction.or = true
swaps Instruction.and = true
swaps Instruction.xor = true
swaps Instruction.umax = true
swaps Instruction.umin = true
swaps Instruction.max = true
swaps Instruction.min = true
swaps Instruction.mul_l = true
swaps Instruction.ssmul_h = true
swaps Instruction.uumul_h = true
swaps _ = false

abbrev is_imm_at : List SsaVar → Option ℕ → Bool
is_imm_at vars none = false
is_imm_at vars (some i) = elim (find i vars) [
  | some v ↦ elim (immediate? v) [ some _ ↦ true | none ↦ false ]
  | none ↦ false
]

unfoldable pub swap_operands : List SsaVar → Operation → Operation
unfolding swaps find
swap_operands vars op =
    if swaps op.type && (is_imm_at vars op.in0 && not (is_imm_at vars op.in1))
    then record op { in0 = op.in1; in1 = op.in0 }
    else op

abbrev swapped : List SsaVar → SsaVar → SsaVar
swapped vars v = elim (operation? v) [
  | some op ↦ with_operation v (swap_operands vars op)
  | none ↦ v
]

-- All blocks are folded before the operands of any block are swapped.
unfoldable pub fold_blocks : Bool → List BasicBlock → Outcome (List BasicBlock)
unfolding process_block
fold_blocks stale [] = ok []
fold_blocks stale (bb ∷ bbs) = elim (process_block stale bb) [
  | ok bb' ↦ elim (fold_blocks stale bbs) [
    | ok bbs' ↦ ok (bb' ∷ bbs')
    | panics ↦ panics
    | undefined ↦ undefined
  ]
  | panics ↦ panics
  | undefined ↦ undefined
]

unfoldable pub swap_block : BasicBlock → BasicBlock
unfolding swap_operands
swap_block bb = record bb { variables = map (swapped bb.variables) bb.variables }

unfoldable pub const_fold : Bool → List BasicBlock → Outcome (List BasicBlock)
unfolding fold_blocks swap_block
const_fold stale bbs = elim (fold_blocks stale bbs) [
  | ok bbs' ↦ ok (map swap_block bbs')
  | panics ↦ panics
  | undefined ↦ undefined
]
