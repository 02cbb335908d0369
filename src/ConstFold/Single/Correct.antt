-- ===== src/ConstFold/Single/Correct.antt =====
-- `simplify_bi_imm_left` and `simplify_bi_imm_right` of src/ir/optimizer/const_folding.cpp as a whole.
use erap_sbt.Base.{ℕ, ◌≡◌, Outcome}
use erap_sbt.Ir.Instruction.{Instruction, is_commutative}
use erap_sbt.Ir.Variable.{Operation, operation, SsaVar}
use erap_sbt.Eval.{Width}
use erap_sbt.ConstFold.State.{PassState}
use erap_sbt.ConstFold.Meaning.{int_type}
use erap_sbt.ConstFold.WordLaws.{run}
use erap_sbt.ConstFold.Single.{
  left_other, right_other, simplify_bi_comm, simplify_bi_imm_left, simplify_bi_imm_right,
}
use erap_sbt.ConstFold.WordLaws.{run_comm}
use erap_sbt.ConstFold.Single.Kept.{
  IsKeptBy, choose-IsKept, comm-IsKept, left_other-IsKept, right_other-IsKept,
}
use mathlib.Core.Path.{fun_ext}

-- The same for a goal that is equal everywhere.
kept_goal :
    (w : Width) (g g' : ℕ → Outcome ℕ) (cur inner : SsaVar) (s : PassState)
    (o : Outcome (SsaVar × PassState))
    → ((x : ℕ) → g' x ≡ g x)
    → IsKeptBy w g cur inner s o
    → IsKeptBy w g' cur inner s o
kept_goal w g g' cur inner s o e k = rw (fun_ext e) k

module _ (w : Width) (imm : ℕ) (cur inner : SsaVar) (s : PassState) (op : Operation)
    (is_op : cur.info ≡ operation op) where
  -- With the immediate on the left, at every width and for every operation: the call returns, and
  -- leaves the variable untouched, or replaces it by the other operand, by an immediate or by the
  -- negation of the other operand, such that the new value is the value of `insn imm x` for every
  -- value `x` of the operand at which the evaluator gives that operation one.
  pub simplify_bi_imm_left-IsKept :
      (insn : Instruction)
      → IsKeptBy w
          (λ x. run insn w imm x)
          cur
          inner
          s
          (simplify_bi_imm_left (int_type w) imm cur inner insn s)
  unfolding simplify_bi_imm_left
  simplify_bi_imm_left-IsKept insn =
      choose-IsKept w imm cur inner s op is_op (λ x. run insn w imm x) (is_commutative insn)
        (simplify_bi_comm (int_type w) imm cur inner insn)
        (left_other (int_type w) imm cur inner insn) (comm-IsKept w imm cur inner s op is_op insn)
        (λ _. left_other-IsKept w imm cur inner s op is_op insn)

  -- With the immediate on the right, at every width and for every operation: the call returns, and
  -- leaves the variable untouched, or replaces it by the other operand, by an immediate or by the
  -- negation of the other operand, such that the new value is the value of `insn x imm` for every
  -- value `x` of the operand at which the evaluator gives that operation one.
  pub simplify_bi_imm_right-IsKept :
      (insn : Instruction)
      → IsKeptBy w
          (λ x. run insn w x imm)
          cur
          inner
          s
          (simplify_bi_imm_right (int_type w) imm cur inner insn s)
  unfolding simplify_bi_imm_right
  simplify_bi_imm_right-IsKept insn =
      choose-IsKept w imm cur inner s op is_op (λ x. run insn w x imm) (is_commutative insn)
        (simplify_bi_comm (int_type w) imm cur inner insn)
        (right_other (int_type w) imm cur inner insn)
        (λ c.
          kept_goal w (λ x. run insn w imm x) (λ x. run insn w x imm) cur inner s
            (simplify_bi_comm (int_type w) imm cur inner insn s) (λ x. run_comm insn w x imm c)
            (comm-IsKept w imm cur inner s op is_op insn c))
        (λ _. right_other-IsKept w imm cur inner s op is_op insn)
