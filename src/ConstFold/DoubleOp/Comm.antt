-- ===== src/ConstFold/DoubleOp/Comm.antt =====
-- The commutative operations of src/ir/optimizer/const_folding.cpp: `simplify_double_op_comm`.
use erap_sbt.Base.{◌≡◌, refl, true, false, ◌||◌}
use erap_sbt.Ir.Instruction.{Instruction}
use erap_sbt.Ir.Variable.{ImmInfo, SsaVar}
use erap_sbt.Eval.{Width}
use erap_sbt.ConstFold.State.{PassState}
use erap_sbt.ConstFold.Meaning.{int_type}
use erap_sbt.ConstFold.DoubleOp.{
  comm_relative, comm_inner_relative, comm_absolute, simplify_double_op_comm, is_relative,
}
use erap_sbt.ConstFold.DoubleOp.Sound.{IsSound, on_imm-IsSound, by_relative-IsSound}
use erap_sbt.ConstFold.DoubleOp.Branches
use erap_sbt.ConstFold.DoubleOp.Branches.{goal_left, goal_right}
use erap_sbt.ConstFold.DoubleOp.Flags.{
  Call, Adds-outer, Adds-inner, Adds-neither, OuterMinus-outer, OuterMinus-neither,
  InnerMinus-inner, outer_left, outer_right, neither_left, neither_right, inner_left, inner_right,
}
use erap_sbt.ConstFold.DoubleOp.Bitwise.{
  bitwise_left, bitwise_right, and_evaluates, or_evaluates, xor_evaluates,
}
use erap_sbt.Base.{bit_and, bit_or, bit_xor}
use erap_sbt.Base.Bits.{
  or_lt, or_comm, or_assoc, and_lt, and_comm, and_assoc, xor_lt, xor_comm, xor_assoc,
}

module _ (w : Width) (imm : ImmInfo) (pa pb : SsaVar) (call : Call w pa pb) (s : PassState) where
  module _ (c : imm.binary_relative ≡ true)
      (plain : (is_relative pa || is_relative pb) ≡ false) where
    pub comm_relative-IsSound :
        (cins pins : Instruction)
        → IsSound w
            (goal_right w imm pa pb cins pins)
            s
            (comm_relative (int_type w) imm pa pb cins pins s)
    unfolding comm_relative
    comm_relative-IsSound Instruction.add Instruction.add =
        on_imm-IsSound w _ s pa pb _ _
          (λ i e.
            Branches.add-add_left w imm pa pb s i true e call.suits_a
              (Adds-outer w imm pa pb i (outer_left w imm pa pb call i plain c e)))
          (λ i e.
            Branches.add-add_right w imm pa pb s i true e call.suits_b
              (Adds-outer w imm pa pb i (outer_right w imm pa pb call i plain c e)))
    comm_relative-IsSound Instruction.add Instruction.sub =
        on_imm-IsSound w _ s pa pb _ _
          (λ i e.
            Branches.add-sub_left w imm pa pb s i true e call.suits_a
              (Adds-outer w imm pa pb i (outer_left w imm pa pb call i plain c e)))
          (λ i e.
            Branches.add-sub_right w imm pa pb s i true e call.suits_b
              (OuterMinus-outer w imm pa pb i (outer_right w imm pa pb call i plain c e)))
    comm_relative-IsSound _ _ = refl

  module _ (c : imm.binary_relative ≡ false)
      (relative : (is_relative pa || is_relative pb) ≡ true) where
    pub comm_inner_relative-IsSound :
        (cins pins : Instruction)
        → IsSound w
            (goal_right w imm pa pb cins pins)
            s
            (comm_inner_relative (int_type w) imm pa pb cins pins s)
    unfolding comm_inner_relative
    comm_inner_relative-IsSound Instruction.add Instruction.add =
        on_imm-IsSound w _ s pa pb _ _
          (λ i e.
            Branches.add-add_left w imm pa pb s i true e call.suits_a
              (Adds-inner w imm pa pb i (inner_left w imm pa pb call i c relative e)))
          (λ i e.
            Branches.add-add_right w imm pa pb s i true e call.suits_b
              (Adds-inner w imm pa pb i (inner_right w imm pa pb call i c relative e)))
    comm_inner_relative-IsSound Instruction.add Instruction.sub =
        on_imm-IsSound w _ s pa pb _ _
          (λ i e.
            Branches.add-sub_left w imm pa pb s i true e call.suits_a
              (Adds-inner w imm pa pb i (inner_left w imm pa pb call i c relative e)))
          (λ i e.
            Branches.add-sub_inner w imm pa pb s i true e call.suits_b
              (InnerMinus-inner w imm pa pb i (inner_right w imm pa pb call i c relative e)))
    comm_inner_relative-IsSound _ _ = refl

  module _ (c : imm.binary_relative ≡ false)
      (plain : (is_relative pa || is_relative pb) ≡ false) where
    pub comm_absolute-IsSound :
        (cins pins : Instruction)
        → IsSound w
            (goal_right w imm pa pb cins pins)
            s
            (comm_absolute (int_type w) imm pa pb cins pins s)
    unfolding comm_absolute
    comm_absolute-IsSound Instruction.add Instruction.add =
        on_imm-IsSound w _ s pa pb _ _
          (λ i e.
            Branches.add-add_left w imm pa pb s i false e call.suits_a
              (Adds-neither w imm pa pb i (neither_left w imm pa pb call i plain c e)))
          (λ i e.
            Branches.add-add_right w imm pa pb s i false e call.suits_b
              (Adds-neither w imm pa pb i (neither_right w imm pa pb call i plain c e)))
    comm_absolute-IsSound Instruction.add Instruction.sub =
        on_imm-IsSound w _ s pa pb _ _
          (λ i e.
            Branches.add-sub_left w imm pa pb s i false e call.suits_a
              (Adds-neither w imm pa pb i (neither_left w imm pa pb call i plain c e)))
          (λ i e.
            Branches.add-sub_right w imm pa pb s i false e call.suits_b
              (OuterMinus-neither w imm pa pb i (neither_right w imm pa pb call i plain c e)))
    comm_absolute-IsSound Instruction.and Instruction.and =
        on_imm-IsSound w _ s pa pb _ _
          (λ i e.
            bitwise_left w imm pa pb c Instruction.and bit_and and_lt and_comm and_assoc
              (and_evaluates w imm pa pb c) s i (neither_left w imm pa pb call i plain c e).0 e
              call.suits_a)
          (λ i e.
            bitwise_right w imm pa pb c Instruction.and bit_and and_lt and_comm and_assoc
              (and_evaluates w imm pa pb c) s i (neither_right w imm pa pb call i plain c e).0 e
              call.suits_b)
    comm_absolute-IsSound Instruction.or Instruction.or =
        on_imm-IsSound w _ s pa pb _ _
          (λ i e.
            bitwise_left w imm pa pb c Instruction.or bit_or or_lt or_comm or_assoc
              (or_evaluates w imm pa pb c) s i (neither_left w imm pa pb call i plain c e).0 e
              call.suits_a)
          (λ i e.
            bitwise_right w imm pa pb c Instruction.or bit_or or_lt or_comm or_assoc
              (or_evaluates w imm pa pb c) s i (neither_right w imm pa pb call i plain c e).0 e
              call.suits_b)
    comm_absolute-IsSound Instruction.xor Instruction.xor =
        on_imm-IsSound w _ s pa pb _ _
          (λ i e.
            bitwise_left w imm pa pb c Instruction.xor bit_xor xor_lt xor_comm xor_assoc
              (xor_evaluates w imm pa pb c) s i (neither_left w imm pa pb call i plain c e).0 e
              call.suits_a)
          (λ i e.
            bitwise_right w imm pa pb c Instruction.xor bit_xor xor_lt xor_comm xor_assoc
              (xor_evaluates w imm pa pb c) s i (neither_right w imm pa pb call i plain c e).0 e
              call.suits_b)
    comm_absolute-IsSound _ _ = refl

  -- All the cases together.
  pub simplify_double_op_comm-IsSound :
      (cins pins : Instruction)
      → IsSound w
          (goal_right w imm pa pb cins pins)
          s
          (simplify_double_op_comm (int_type w) imm pa pb cins pins s)
  unfolding simplify_double_op_comm
  simplify_double_op_comm-IsSound cins pins =
      by_relative-IsSound w (goal_right w imm pa pb cins pins) s imm pa pb
        (comm_relative (int_type w) imm pa pb cins pins)
        (comm_inner_relative (int_type w) imm pa pb cins pins)
        (comm_absolute (int_type w) imm pa pb cins pins)
        (λ c r. comm_relative-IsSound c r cins pins)
        (λ c r. comm_inner_relative-IsSound c r cins pins)
        (λ c r. comm_absolute-IsSound c r cins pins)
