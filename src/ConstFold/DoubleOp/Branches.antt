-- ===== src/ConstFold/DoubleOp/Branches.antt =====
-- The rewritings of src/ir/optimizer/const_folding.cpp one by one: each folds the immediate `i` of the
-- inner operation and the outer immediate into one, which is binary-relative if `relative` says so.
use erap_sbt.Base.{ℕ, ◌+◌, ◌≡◌, refl, ap, Bool, some, Outcome, ok, ◌>>=◌}
use erap_sbt.Ir.Instruction.{Instruction}
use erap_sbt.Ir.Variable.{ImmInfo, SsaVar, immediate?}
use erap_sbt.Eval.{Width}
use erap_sbt.Eval.Binary.{eval_binary_op2}
use erap_sbt.ConstFold.State.{PassState, eval_to_imm}
use erap_sbt.ConstFold.Meaning.{Env, read, moved, imm_value, int_type, Suits, read-immediate}
use erap_sbt.ConstFold.DoubleOp.{imm_first, imm_second}
use erap_sbt.ConstFold.DoubleOp.Sound.{IsSound, imm_first-IsSound, imm_second-IsSound}
use erap_sbt.ConstFold.WordLaws
use erap_sbt.ConstFold.WordLaws.{run}

module _ (w : Width) (imm : ImmInfo) (pa pb : SsaVar) where
  -- The value of the original operation, with the inner operation on the left or on the right of
  -- the immediate.
  abbrev pub goal_right : Instruction → Instruction → Env → Outcome ℕ
  goal_right cins pins env =
      run pins w (read env pa) (read env pb) >>= λ x. run cins w x (imm_value env imm)

  abbrev pub goal_left : Instruction → Instruction → Env → Outcome ℕ
  goal_left cins pins env =
      run pins w (read env pa) (read env pb) >>= λ x. run cins w (imm_value env imm) x

  -- What the base address adds to the folded immediate, for a sum and for the two differences.
  abbrev pub Adds : ImmInfo → Bool → Type 0
  Adds i relative =
      (env : Env) → moved env relative ≡ moved env i.binary_relative + moved env imm.binary_relative

  abbrev pub OuterMinus : ImmInfo → Bool → Type 0
  OuterMinus i relative =
      (env : Env) → moved env imm.binary_relative ≡ moved env relative + moved env i.binary_relative

  abbrev pub InnerMinus : ImmInfo → Bool → Type 0
  InnerMinus i relative =
      (env : Env) → moved env i.binary_relative ≡ moved env relative + moved env imm.binary_relative

  module _ (s : PassState) (i : ImmInfo) (relative : Bool) where
    pub add-add_left :
        immediate? pa ≡ some i
        → Suits w pa.type
        → Adds i relative
        → IsSound w (goal_right Instruction.add Instruction.add) s (
            imm_first Instruction.add pb
              (eval_to_imm Instruction.add (int_type w) i.val imm.val relative)
              s)
    unfolding eval_binary_op2
    add-add_left e h m =
        imm_first-IsSound w (goal_right Instruction.add Instruction.add) s Instruction.add
          Instruction.add pb i.val imm.val _ relative refl
          λ env. rw (read-immediate w env pa e h) (
            ap ok (
              WordLaws.plus-plus_left w i.val imm.val (moved env i.binary_relative)
                (moved env imm.binary_relative) (moved env relative) (read env pb) (m env)))

    pub add-add_right :
        immediate? pb ≡ some i
        → Suits w pb.type
        → Adds i relative
        → IsSound w (goal_right Instruction.add Instruction.add) s (
            imm_first Instruction.add pa
              (eval_to_imm Instruction.add (int_type w) i.val imm.val relative)
              s)
    unfolding eval_binary_op2
    add-add_right e h m =
        imm_first-IsSound w (goal_right Instruction.add Instruction.add) s Instruction.add
          Instruction.add pa i.val imm.val _ relative refl
          λ env. rw (read-immediate w env pb e h) (
            ap ok (
              WordLaws.plus-plus_right w i.val imm.val (moved env i.binary_relative)
                (moved env imm.binary_relative) (moved env relative) (read env pa) (m env)))

    pub add-sub_left :
        immediate? pa ≡ some i
        → Suits w pa.type
        → Adds i relative
        → IsSound w (goal_right Instruction.add Instruction.sub) s (
            imm_first Instruction.sub pb
              (eval_to_imm Instruction.add (int_type w) i.val imm.val relative)
              s)
    unfolding eval_binary_op2
    add-sub_left e h m =
        imm_first-IsSound w (goal_right Instruction.add Instruction.sub) s Instruction.add
          Instruction.sub pb i.val imm.val _ relative refl
          λ env. rw (read-immediate w env pa e h) (
            ap ok (
              WordLaws.plus-minus_left w i.val imm.val (moved env i.binary_relative)
                (moved env imm.binary_relative) (moved env relative) (read env pb) (m env)))

    pub add-sub_right :
        immediate? pb ≡ some i
        → Suits w pb.type
        → OuterMinus i relative
        → IsSound w (goal_right Instruction.add Instruction.sub) s (
            imm_first Instruction.add pa
              (eval_to_imm Instruction.sub (int_type w) imm.val i.val relative)
              s)
    unfolding eval_binary_op2
    add-sub_right e h m =
        imm_first-IsSound w (goal_right Instruction.add Instruction.sub) s Instruction.sub
          Instruction.add pa imm.val i.val _ relative refl
          λ env. rw (read-immediate w env pb e h) (
            ap ok (
              WordLaws.plus-minus_right w i.val imm.val (moved env i.binary_relative)
                (moved env imm.binary_relative) (moved env relative) (read env pa) (m env)))

    pub add-sub_inner :
        immediate? pb ≡ some i
        → Suits w pb.type
        → InnerMinus i relative
        → IsSound w (goal_right Instruction.add Instruction.sub) s (
            imm_second Instruction.sub pa
              (eval_to_imm Instruction.sub (int_type w) i.val imm.val relative)
              s)
    unfolding eval_binary_op2
    add-sub_inner e h m =
        imm_second-IsSound w (goal_right Instruction.add Instruction.sub) s Instruction.sub
          Instruction.sub pa i.val imm.val _ relative refl
          λ env. rw (read-immediate w env pb e h) (
            ap ok (
              WordLaws.plus-minus_inner w i.val imm.val (moved env i.binary_relative)
                (moved env imm.binary_relative) (moved env relative) (read env pa) (m env)))

    pub left_sub-add_left :
        immediate? pa ≡ some i
        → Suits w pa.type
        → OuterMinus i relative
        → IsSound w (goal_left Instruction.sub Instruction.add) s (
            imm_first Instruction.sub pb
              (eval_to_imm Instruction.sub (int_type w) imm.val i.val relative)
              s)
    unfolding eval_binary_op2
    left_sub-add_left e h m =
        imm_first-IsSound w (goal_left Instruction.sub Instruction.add) s Instruction.sub
          Instruction.sub pb imm.val i.val _ relative refl
          λ env. rw (read-immediate w env pa e h) (
            ap ok (
              WordLaws.minus-plus_left w i.val imm.val (moved env i.binary_relative)
                (moved env imm.binary_relative) (moved env relative) (read env pb) (m env)))

    pub left_sub-add_right :
        immediate? pb ≡ some i
        → Suits w pb.type
        → OuterMinus i relative
        → IsSound w (goal_left Instruction.sub Instruction.add) s (
            imm_first Instruction.sub pa
              (eval_to_imm Instruction.sub (int_type w) imm.val i.val relative)
              s)
    unfolding eval_binary_op2
    left_sub-add_right e h m =
        imm_first-IsSound w (goal_left Instruction.sub Instruction.add) s Instruction.sub
          Instruction.sub pa imm.val i.val _ relative refl
          λ env. rw (read-immediate w env pb e h) (
            ap ok (
              WordLaws.minus-plus_right w i.val imm.val (moved env i.binary_relative)
                (moved env imm.binary_relative) (moved env relative) (read env pa) (m env)))

    pub left_sub-sub_left :
        immediate? pa ≡ some i
        → Suits w pa.type
        → OuterMinus i relative
        → IsSound w (goal_left Instruction.sub Instruction.sub) s (
            imm_first Instruction.add pb
              (eval_to_imm Instruction.sub (int_type w) imm.val i.val relative)
              s)
    unfolding eval_binary_op2
    left_sub-sub_left e h m =
        imm_first-IsSound w (goal_left Instruction.sub Instruction.sub) s Instruction.sub
          Instruction.add pb imm.val i.val _ relative refl
          λ env. rw (read-immediate w env pa e h) (
            ap ok (
              WordLaws.minus-minus_left w i.val imm.val (moved env i.binary_relative)
                (moved env imm.binary_relative) (moved env relative) (read env pb) (m env)))

    pub left_sub-sub_right :
        immediate? pb ≡ some i
        → Suits w pb.type
        → Adds i relative
        → IsSound w (goal_left Instruction.sub Instruction.sub) s (
            imm_first Instruction.sub pa
              (eval_to_imm Instruction.add (int_type w) i.val imm.val relative)
              s)
    unfolding eval_binary_op2
    left_sub-sub_right e h m =
        imm_first-IsSound w (goal_left Instruction.sub Instruction.sub) s Instruction.add
          Instruction.sub pa i.val imm.val _ relative refl
          λ env. rw (read-immediate w env pb e h) (
            ap ok (
              WordLaws.minus-minus_right w i.val imm.val (moved env i.binary_relative)
                (moved env imm.binary_relative) (moved env relative) (read env pa) (m env)))

    pub right_sub-add_left :
        immediate? pa ≡ some i
        → Suits w pa.type
        → InnerMinus i relative
        → IsSound w (goal_right Instruction.sub Instruction.add) s (
            imm_second Instruction.add pb
              (eval_to_imm Instruction.sub (int_type w) i.val imm.val relative)
              s)
    unfolding eval_binary_op2
    right_sub-add_left e h m =
        imm_second-IsSound w (goal_right Instruction.sub Instruction.add) s Instruction.sub
          Instruction.add pb i.val imm.val _ relative refl
          λ env. rw (read-immediate w env pa e h) (
            ap ok (
              WordLaws.sub-plus_left w i.val imm.val (moved env i.binary_relative)
                (moved env imm.binary_relative) (moved env relative) (read env pb) (m env)))

    pub right_sub-add_right :
        immediate? pb ≡ some i
        → Suits w pb.type
        → InnerMinus i relative
        → IsSound w (goal_right Instruction.sub Instruction.add) s (
            imm_second Instruction.add pa
              (eval_to_imm Instruction.sub (int_type w) i.val imm.val relative)
              s)
    unfolding eval_binary_op2
    right_sub-add_right e h m =
        imm_second-IsSound w (goal_right Instruction.sub Instruction.add) s Instruction.sub
          Instruction.add pa i.val imm.val _ relative refl
          λ env. rw (read-immediate w env pb e h) (
            ap ok (
              WordLaws.sub-plus_right w i.val imm.val (moved env i.binary_relative)
                (moved env imm.binary_relative) (moved env relative) (read env pa) (m env)))

    pub right_sub-add_left_first :
        immediate? pa ≡ some i
        → Suits w pa.type
        → InnerMinus i relative
        → IsSound w (goal_right Instruction.sub Instruction.add) s (
            imm_first Instruction.add pb
              (eval_to_imm Instruction.sub (int_type w) i.val imm.val relative)
              s)
    unfolding eval_binary_op2
    right_sub-add_left_first e h m =
        imm_first-IsSound w (goal_right Instruction.sub Instruction.add) s Instruction.sub
          Instruction.add pb i.val imm.val _ relative refl
          λ env. rw (read-immediate w env pa e h) (
            ap ok (
              WordLaws.sub-plus_left_first w i.val imm.val (moved env i.binary_relative)
                (moved env imm.binary_relative) (moved env relative) (read env pb) (m env)))

    pub right_sub-add_right_first :
        immediate? pb ≡ some i
        → Suits w pb.type
        → InnerMinus i relative
        → IsSound w (goal_right Instruction.sub Instruction.add) s (
            imm_first Instruction.add pa
              (eval_to_imm Instruction.sub (int_type w) i.val imm.val relative)
              s)
    unfolding eval_binary_op2
    right_sub-add_right_first e h m =
        imm_first-IsSound w (goal_right Instruction.sub Instruction.add) s Instruction.sub
          Instruction.add pa i.val imm.val _ relative refl
          λ env. rw (read-immediate w env pb e h) (
            ap ok (
              WordLaws.sub-plus_right_first w i.val imm.val (moved env i.binary_relative)
                (moved env imm.binary_relative) (moved env relative) (read env pa) (m env)))

    pub right_sub-sub_left :
        immediate? pa ≡ some i
        → Suits w pa.type
        → InnerMinus i relative
        → IsSound w (goal_right Instruction.sub Instruction.sub) s (
            imm_first Instruction.sub pb
              (eval_to_imm Instruction.sub (int_type w) i.val imm.val relative)
              s)
    unfolding eval_binary_op2
    right_sub-sub_left e h m =
        imm_first-IsSound w (goal_right Instruction.sub Instruction.sub) s Instruction.sub
          Instruction.sub pb i.val imm.val _ relative refl
          λ env. rw (read-immediate w env pa e h) (
            ap ok (
              WordLaws.sub-minus_left w i.val imm.val (moved env i.binary_relative)
                (moved env imm.binary_relative) (moved env relative) (read env pb) (m env)))

    pub right_sub-sub_right :
        immediate? pb ≡ some i
        → Suits w pb.type
        → Adds i relative
        → IsSound w (goal_right Instruction.sub Instruction.sub) s (
            imm_second Instruction.sub pa
              (eval_to_imm Instruction.add (int_type w) i.val imm.val relative)
              s)
    unfolding eval_binary_op2
    right_sub-sub_right e h m =
        imm_second-IsSound w (goal_right Instruction.sub Instruction.sub) s Instruction.add
          Instruction.sub pa i.val imm.val _ relative refl
          λ env. rw (read-immediate w env pb e h) (
            ap ok (
              WordLaws.sub-minus_right w i.val imm.val (moved env i.binary_relative)
                (moved env imm.binary_relative) (moved env relative) (read env pa) (m env)))

    pub right_sub-sub_right_swapped :
        immediate? pb ≡ some i
        → Suits w pb.type
        → Adds i relative
        → IsSound w (goal_right Instruction.sub Instruction.sub) s (
            imm_second Instruction.sub pa
              (eval_to_imm Instruction.add (int_type w) imm.val i.val relative)
              s)
    unfolding eval_binary_op2
    right_sub-sub_right_swapped e h m =
        imm_second-IsSound w (goal_right Instruction.sub Instruction.sub) s Instruction.add
          Instruction.sub pa imm.val i.val _ relative refl
          λ env. rw (read-immediate w env pb e h) (
            ap ok (
              WordLaws.sub-minus_right_swapped w i.val imm.val (moved env i.binary_relative)
                (moved env imm.binary_relative) (moved env relative) (read env pa) (m env)))
