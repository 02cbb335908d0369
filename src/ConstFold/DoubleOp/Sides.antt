-- ===== src/ConstFold/DoubleOp/Sides.antt =====
-- The operations that do not commute (src/ir/optimizer/const_folding.cpp), with the immediate on the
-- left or on the right of the inner operation.
use erap_sbt.Base.{◌≡◌, refl, true, false, ◌||◌}
use erap_sbt.Ir.Instruction.{Instruction}
use erap_sbt.Ir.Variable.{ImmInfo, SsaVar}
use erap_sbt.Eval.{Width}
use erap_sbt.ConstFold.State.{PassState}
use erap_sbt.ConstFold.Meaning.{int_type}
use erap_sbt.ConstFold.DoubleOp.{
  left_relative, left_absolute, right_relative, right_inner_relative, right_absolute, is_relative,
}
use erap_sbt.ConstFold.DoubleOp.Sound.{IsSound, on_imm-IsSound}
use erap_sbt.ConstFold.DoubleOp.Branches
use erap_sbt.ConstFold.DoubleOp.Branches.{goal_left, goal_right}
use erap_sbt.ConstFold.DoubleOp.Flags.{
  Call, Adds-outer, Adds-inner, Adds-neither, OuterMinus-outer, OuterMinus-neither,
  InnerMinus-inner, InnerMinus-neither, outer_left, outer_right, neither_left, neither_right,
  inner_left, inner_right,
}

module _ (w : Width) (imm : ImmInfo) (pa pb : SsaVar) (call : Call w pa pb) (s : PassState) where
  module _ (c : imm.binary_relative ≡ true)
      (plain : (is_relative pa || is_relative pb) ≡ false) where
    pub left_relative-IsSound :
        (cins pins : Instruction)
        → IsSound w
            (goal_left w imm pa pb cins pins)
            s
            (left_relative (int_type w) imm pa pb cins pins s)
    unfolding left_relative
    left_relative-IsSound Instruction.sub Instruction.add =
        on_imm-IsSound w _ s pa pb _ _
          (λ i e.
            Branches.left_sub-add_left w imm pa pb s i true e call.suits_a
              (OuterMinus-outer w imm pa pb i (outer_left w imm pa pb call i plain c e)))
          (λ i e.
            Branches.left_sub-add_right w imm pa pb s i true e call.suits_b
              (OuterMinus-outer w imm pa pb i (outer_right w imm pa pb call i plain c e)))
    left_relative-IsSound Instruction.sub Instruction.sub =
        on_imm-IsSound w _ s pa pb _ _
          (λ i e.
            Branches.left_sub-sub_left w imm pa pb s i true e call.suits_a
              (OuterMinus-outer w imm pa pb i (outer_left w imm pa pb call i plain c e)))
          (λ i e.
            Branches.left_sub-sub_right w imm pa pb s i true e call.suits_b
              (Adds-outer w imm pa pb i (outer_right w imm pa pb call i plain c e)))
    left_relative-IsSound _ _ = refl

    pub right_relative-IsSound :
        (cins pins : Instruction)
        → IsSound w
            (goal_right w imm pa pb cins pins)
            s
            (right_relative (int_type w) imm pa pb cins pins s)
    unfolding right_relative
    right_relative-IsSound Instruction.sub Instruction.sub =
        on_imm-IsSound w _ s pa pb _ _ (λ i e. refl)
          (λ i e.
            Branches.right_sub-sub_right_swapped w imm pa pb s i true e call.suits_b
              (Adds-outer w imm pa pb i (outer_right w imm pa pb call i plain c e)))
    right_relative-IsSound _ _ = refl

  module _ (c : imm.binary_relative ≡ false)
      (relative : (is_relative pa || is_relative pb) ≡ true) where
    pub right_inner_relative-IsSound :
        (cins pins : Instruction)
        → IsSound w
            (goal_right w imm pa pb cins pins)
            s
            (right_inner_relative (int_type w) imm pa pb cins pins s)
    unfolding right_inner_relative
    right_inner_relative-IsSound Instruction.sub Instruction.add =
        on_imm-IsSound w _ s pa pb _ _
          (λ i e.
            Branches.right_sub-add_left w imm pa pb s i true e call.suits_a
              (InnerMinus-inner w imm pa pb i (inner_left w imm pa pb call i c relative e)))
          (λ i e.
            Branches.right_sub-add_right w imm pa pb s i true e call.suits_b
              (InnerMinus-inner w imm pa pb i (inner_right w imm pa pb call i c relative e)))
    right_inner_relative-IsSound Instruction.sub Instruction.sub =
        on_imm-IsSound w _ s pa pb _ _
          (λ i e.
            Branches.right_sub-sub_left w imm pa pb s i true e call.suits_a
              (InnerMinus-inner w imm pa pb i (inner_left w imm pa pb call i c relative e)))
          (λ i e.
            Branches.right_sub-sub_right w imm pa pb s i true e call.suits_b
              (Adds-inner w imm pa pb i (inner_right w imm pa pb call i c relative e)))
    right_inner_relative-IsSound _ _ = refl

  module _ (c : imm.binary_relative ≡ false)
      (plain : (is_relative pa || is_relative pb) ≡ false) where
    pub left_absolute-IsSound :
        (cins pins : Instruction)
        → IsSound w
            (goal_left w imm pa pb cins pins)
            s
            (left_absolute (int_type w) imm pa pb cins pins s)
    unfolding left_absolute
    left_absolute-IsSound Instruction.sub Instruction.add =
        on_imm-IsSound w _ s pa pb _ _
          (λ i e.
            Branches.left_sub-add_left w imm pa pb s i false e call.suits_a
              (OuterMinus-neither w imm pa pb i (neither_left w imm pa pb call i plain c e)))
          (λ i e.
            Branches.left_sub-add_right w imm pa pb s i false e call.suits_b
              (OuterMinus-neither w imm pa pb i (neither_right w imm pa pb call i plain c e)))
    left_absolute-IsSound Instruction.sub Instruction.sub =
        on_imm-IsSound w _ s pa pb _ _
          (λ i e.
            Branches.left_sub-sub_left w imm pa pb s i false e call.suits_a
              (OuterMinus-neither w imm pa pb i (neither_left w imm pa pb call i plain c e)))
          (λ i e.
            Branches.left_sub-sub_right w imm pa pb s i false e call.suits_b
              (Adds-neither w imm pa pb i (neither_right w imm pa pb call i plain c e)))
    left_absolute-IsSound _ _ = refl

    pub right_absolute-IsSound :
        (cins pins : Instruction)
        → IsSound w
            (goal_right w imm pa pb cins pins)
            s
            (right_absolute (int_type w) imm pa pb cins pins s)
    unfolding right_absolute
    right_absolute-IsSound Instruction.sub Instruction.add =
        on_imm-IsSound w _ s pa pb _ _
          (λ i e.
            Branches.right_sub-add_left_first w imm pa pb s i false e call.suits_a
              (InnerMinus-neither w imm pa pb i (neither_left w imm pa pb call i plain c e)))
          (λ i e.
            Branches.right_sub-add_right_first w imm pa pb s i false e call.suits_b
              (InnerMinus-neither w imm pa pb i (neither_right w imm pa pb call i plain c e)))
    right_absolute-IsSound Instruction.sub Instruction.sub =
        on_imm-IsSound w _ s pa pb _ _
          (λ i e.
            Branches.right_sub-sub_left w imm pa pb s i false e call.suits_a
              (InnerMinus-neither w imm pa pb i (neither_left w imm pa pb call i plain c e)))
          (λ i e.
            Branches.right_sub-sub_right w imm pa pb s i false e call.suits_b
              (Adds-neither w imm pa pb i (neither_right w imm pa pb call i plain c e)))
    right_absolute-IsSound _ _ = refl
