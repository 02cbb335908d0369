-- ===== src/ConstFold/DoubleOp/Bitwise.antt =====
-- The bitwise rewritings of src/ir/optimizer/const_folding.cpp: `and`, `or` and `xor` share one proof.
use erap_sbt.Base.{
  ℕ, ◌+◌, ◌≡◌, ◌<◌, ◌^◌, refl, ap, arith, false, some, ok, bit_and, bit_or, bit_xor,
}
use erap_sbt.Ir.Instruction.{Instruction}
use erap_sbt.Ir.Variable.{ImmInfo, SsaVar, immediate?}
use erap_sbt.Eval.{Width, narrow}
use erap_sbt.Eval.Binary.{eval_binary_op2}
use erap_sbt.ConstFold.State.{PassState, eval_to_imm}
use erap_sbt.ConstFold.Meaning.{Env, read, moved, imm_value, int_type, Suits, read-immediate}
use erap_sbt.ConstFold.DoubleOp.{imm_first}
use erap_sbt.ConstFold.DoubleOp.Sound.{IsSound, imm_first-IsSound}
use erap_sbt.ConstFold.DoubleOp.Branches.{goal_right}
use erap_sbt.ConstFold.WordLaws
use erap_sbt.ConstFold.WordLaws.{run}

module _ (w : Width) (imm : ImmInfo) (pa pb : SsaVar) (absolute : imm.binary_relative ≡ false) where
  module _ (insn : Instruction) (f : ℕ → ℕ → ℕ)
      (f_lt : (k a b : ℕ) → a < 2 ^ k → b < 2 ^ k → f a b < 2 ^ k)
      (f_comm : (a b : ℕ) → f a b ≡ f b a) (f_assoc : (a b c : ℕ) → f (f a b) c ≡ f a (f b c))
      (evaluates : (x y : ℕ) → eval_binary_op2 insn w x y ≡ ok (narrow w (f x y))) (s : PassState)
      (i : ImmInfo) (plain : i.binary_relative ≡ false) where
    unmoved :
        (env : Env) (v : SsaVar)
        → immediate? v ≡ some i
        → Suits w v.type
        → narrow w (read env v) ≡ narrow w i.val
    unmoved env v e h = rw (read-immediate w env v e h) (rw plain (ap (narrow w) (omega arith)))

    outer : (env : Env) → imm_value env imm ≡ imm.val
    outer env = rw absolute (omega arith)

    folded : (env : Env) (n : ℕ) → n + moved env false ≡ n
    folded env n = omega arith

    pub bitwise_left :
        immediate? pa ≡ some i
        → Suits w pa.type
        → IsSound w
            (goal_right w imm pa pb insn insn)
            s
            (imm_first insn pb (eval_to_imm insn (int_type w) i.val imm.val false) s)
    bitwise_left e h =
        imm_first-IsSound w (goal_right w imm pa pb insn insn) s insn insn pb i.val imm.val _ false
          (evaluates _ _)
          λ env.
            rw (folded env _, outer env, unmoved env pa e h)
              (simp evaluates
                (ap ok (WordLaws.bitwise_left f f_lt f_comm f_assoc w i.val imm.val (read env pb))))

    pub bitwise_right :
        immediate? pb ≡ some i
        → Suits w pb.type
        → IsSound w
            (goal_right w imm pa pb insn insn)
            s
            (imm_first insn pa (eval_to_imm insn (int_type w) i.val imm.val false) s)
    bitwise_right e h =
        imm_first-IsSound w (goal_right w imm pa pb insn insn) s insn insn pa i.val imm.val _ false
          (evaluates _ _)
          λ env.
            rw (folded env _, outer env, unmoved env pb e h)
              (simp evaluates (
                ap ok (WordLaws.bitwise_right f f_lt f_comm f_assoc w i.val imm.val (read env pa))))

  pub and_evaluates :
      (x y : ℕ) → eval_binary_op2 Instruction.and w x y ≡ ok (narrow w (bit_and x y))
  unfolding eval_binary_op2
  and_evaluates x y = refl

  pub or_evaluates : (x y : ℕ) → eval_binary_op2 Instruction.or w x y ≡ ok (narrow w (bit_or x y))
  unfolding eval_binary_op2
  or_evaluates x y = refl

  pub xor_evaluates :
      (x y : ℕ) → eval_binary_op2 Instruction.xor w x y ≡ ok (narrow w (bit_xor x y))
  unfolding eval_binary_op2
  xor_evaluates x y = refl
