-- ===== src/ConstFold/DoubleOp/Correct.antt =====
-- `simplify_double_op_imm_left` and `simplify_double_op_imm_right` of
-- src/ir/optimizer/const_folding.cpp as a whole.
use erap_sbt.Base.{
  ℕ, ◌≡◌, refl, Bool, true, false, not, ◌||◌, ◌&&◌, Option, some, if◌then◌else◌, Outcome, ok,
  panics, undefined, ◌>>=◌, arith,
}
use erap_sbt.Ir.Instruction.{Instruction, is_binary_op, is_commutative}
use erap_sbt.Ir.Variable.{ImmInfo, SsaVar}
use erap_sbt.Eval.{Width}
use erap_sbt.ConstFold.State.{Pass, PassState, lift, can_handle_type}
use erap_sbt.ConstFold.Meaning.{Env, read, imm_value, int_type}
use erap_sbt.ConstFold.DoubleOp.{
  BinOp, nothing, by_relative, left_body, right_body, is_imm, is_relative, guarded, left_relative,
  left_absolute, left_inner_relative, right_relative, right_inner_relative, right_absolute,
  simplify_double_op_comm, simplify_double_op_imm_left, simplify_double_op_imm_right,
}
use erap_sbt.ConstFold.DoubleOp.Sound.{
  IsSound, on_imm-IsSound, if-IsSound, by_relative-IsSound, IsSound-goal,
}
use erap_sbt.ConstFold.DoubleOp.Branches.{goal_left, goal_right}
use erap_sbt.ConstFold.DoubleOp.Flags.{Call, inner_right}
use erap_sbt.ConstFold.DoubleOp.Comm.{simplify_double_op_comm-IsSound}
use erap_sbt.ConstFold.DoubleOp.Sides
use erap_sbt.ConstFold.WordLaws.{run, run_comm}

bind_ext : (m : Outcome ℕ) (f g : ℕ → Outcome ℕ) → ((x : ℕ) → f x ≡ g x) → (m >>= f) ≡ (m >>= g)
bind_ext (ok x) f g h = h x
bind_ext panics f g h = refl
bind_ext undefined f g h = refl

-- `imm - (pa - pb)` where `pb` alone is moved by the base address: here the source subtracts the
-- wrong way round.
abbrev pub flips : Instruction → Instruction → ImmInfo → SsaVar → Bool
flips Instruction.sub Instruction.sub imm pb = not imm.binary_relative && is_relative pb
flips _ _ imm pb = false

module _ (w : Width) (imm : ImmInfo) (pa pb : SsaVar) (call : Call w pa pb) (s : PassState) where
  guarded-IsSound :
      (goal : Env → Outcome ℕ) (pins : Instruction) (body : SsaVar → SsaVar → Pass (Option BinOp))
      → IsSound w goal s (body pa pb s)
      → IsSound w goal s (guarded pins (some pa) (some pb) body s)
  guarded-IsSound goal pins body h =
      if-IsSound w goal s (not (is_binary_op pins)) nothing three (λ _. refl)
        λ _.
          if-IsSound w goal s (not (is_imm pa) && not (is_imm pb)) nothing two (λ _. refl)
            λ _.
              if-IsSound w goal s (not (can_handle_type pa.type && can_handle_type pb.type)) nothing
                one (λ _. refl)
                λ _.
                  if-IsSound w goal s (is_imm pa && is_imm pb) (lift panics) (body pa pb)
                    (λ both. absurd (ground (arith, call.one_imm))) λ _. h
    where
      one : Pass (Option BinOp)
      one = if is_imm pa && is_imm pb then lift panics else body pa pb

      two : Pass (Option BinOp)
      two = if not (can_handle_type pa.type && can_handle_type pb.type) then nothing else one

      three : Pass (Option BinOp)
      three = if not (is_imm pa) && not (is_imm pb) then nothing else two

  left_inner_relative-IsSound :
      imm.binary_relative ≡ false
      → (is_relative pa || is_relative pb) ≡ true
      → (cins pins : Instruction) → flips cins pins imm pb ≡ false
      → IsSound w
          (goal_left w imm pa pb cins pins)
          s
          (left_inner_relative (int_type w) imm pa pb cins pins s)
  unfolding left_inner_relative
  left_inner_relative-IsSound c r Instruction.sub Instruction.sub f =
      on_imm-IsSound w _ s pa pb _ _ (λ i e. refl)
        (λ i e. absurd (ground (arith, inner_right w imm pa pb call i c r e)))
  left_inner_relative-IsSound c r _ _ f = refl

  right_body-IsSound :
      (cins pins : Instruction)
      → IsSound w
          (goal_right w imm pa pb cins pins)
          s
          (right_body (int_type w) cins imm pins pa pb s)
  unfolding right_body
  right_body-IsSound cins pins =
      if-IsSound w (goal_right w imm pa pb cins pins) s (is_commutative cins)
        (simplify_double_op_comm (int_type w) imm pa pb cins pins)
        (by_relative imm pa pb (right_relative (int_type w) imm pa pb cins pins)
          (right_inner_relative (int_type w) imm pa pb cins pins)
          (right_absolute (int_type w) imm pa pb cins pins))
        (λ commutes. simplify_double_op_comm-IsSound w imm pa pb call s cins pins)
        (λ _.
          by_relative-IsSound w (goal_right w imm pa pb cins pins) s imm pa pb
            (right_relative (int_type w) imm pa pb cins pins)
            (right_inner_relative (int_type w) imm pa pb cins pins)
            (right_absolute (int_type w) imm pa pb cins pins)
            (λ c r. Sides.right_relative-IsSound w imm pa pb call s c r cins pins)
            (λ c r. Sides.right_inner_relative-IsSound w imm pa pb call s c r cins pins)
            (λ c r. Sides.right_absolute-IsSound w imm pa pb call s c r cins pins))

  left_body-IsSound :
      (cins pins : Instruction)
      → flips cins pins imm pb ≡ false
      → IsSound w (goal_left w imm pa pb cins pins) s (left_body (int_type w) cins imm pins pa pb s)
  unfolding left_body
  left_body-IsSound cins pins f =
      if-IsSound w (goal_left w imm pa pb cins pins) s (is_commutative cins)
        (simplify_double_op_comm (int_type w) imm pa pb cins pins)
        (by_relative imm pa pb (left_relative (int_type w) imm pa pb cins pins)
          (left_inner_relative (int_type w) imm pa pb cins pins)
          (left_absolute (int_type w) imm pa pb cins pins))
        (λ commutes.
          IsSound-goal w (goal_right w imm pa pb cins pins) (goal_left w imm pa pb cins pins) s
            (simplify_double_op_comm (int_type w) imm pa pb cins pins s)
            (λ env.
              bind_ext (run pins w (read env pa) (read env pb))
                (λ x. run cins w x (imm_value env imm)) (λ x. run cins w (imm_value env imm) x)
                (λ x. run_comm cins w x (imm_value env imm) commutes))
            (simplify_double_op_comm-IsSound w imm pa pb call s cins pins))
        (λ _.
          by_relative-IsSound w (goal_left w imm pa pb cins pins) s imm pa pb
            (left_relative (int_type w) imm pa pb cins pins)
            (left_inner_relative (int_type w) imm pa pb cins pins)
            (left_absolute (int_type w) imm pa pb cins pins)
            (λ c r. Sides.left_relative-IsSound w imm pa pb call s c r cins pins)
            (λ c r. left_inner_relative-IsSound c r cins pins f)
            (λ c r. Sides.left_absolute-IsSound w imm pa pb call s c r cins pins))

  -- With the immediate on the right, for every width, every well-typed inner operation with at most
  -- one immediate and every state: the function neither aborts nor meets undefined behaviour. It
  -- either finds nothing and leaves the state alone, or adds one fresh immediate of the operation's
  -- type and returns an operation that in every environment has the value of the original one,
  -- `cins (pins pa pb) imm`, the base address included.
  pub simplify_double_op_imm_right-IsSound :
      (cins pins : Instruction)
      → IsSound w
          (goal_right w imm pa pb cins pins)
          s
          (simplify_double_op_imm_right (int_type w) cins imm pins (some pa) (some pb) s)
  unfolding simplify_double_op_imm_right
  simplify_double_op_imm_right-IsSound cins pins =
      guarded-IsSound (goal_right w imm pa pb cins pins) pins
        (right_body (int_type w) cins imm pins) (right_body-IsSound cins pins)

  -- With the immediate on the left, for every width, every well-typed inner operation with at most
  -- one immediate and every state, but for a difference from a difference whose subtrahend alone is
  -- binary-relative: the function neither aborts nor meets undefined behaviour. It either finds
  -- nothing and leaves the state alone, or adds one fresh immediate of the operation's type and
  -- returns an operation that in every environment has the value of the original one,
  -- `cins imm (pins pa pb)`, the base address included.
  pub simplify_double_op_imm_left-IsSound :
      (cins pins : Instruction)
      → flips cins pins imm pb ≡ false
      → IsSound w
          (goal_left w imm pa pb cins pins)
          s
          (simplify_double_op_imm_left (int_type w) cins imm pins (some pa) (some pb) s)
  unfolding simplify_double_op_imm_left
  simplify_double_op_imm_left-IsSound cins pins f =
      guarded-IsSound (goal_left w imm pa pb cins pins) pins (left_body (int_type w) cins imm pins)
        (left_body-IsSound cins pins f)
