-- ===== src/ConstFold/Single/Kept.antt =====
-- The simplifications of src/ir/optimizer/const_folding.cpp with one immediate operand keep the value.
use erap_sbt.Base.{
  ℕ, ◌≡◌, ◌∙◌, refl, sym, Bool, true, false, if◌then◌else◌, ◌==◌, ==_iff, Outcome, ok, panics,
  undefined, arith, ◌∷◌,
}
use erap_sbt.Ir.Instruction.{Instruction, is_commutative}
use erap_sbt.Ir.Variable.{operation?, Operation, operation, SsaVar}
use erap_sbt.Eval.{Width, w8, w16, w32, w64, narrow}
use erap_sbt.Eval.Binary.{eval_binary_op2, eval_unary_op2}
use erap_sbt.Eval.Compare.{typed_equal, typed_narrow}
use erap_sbt.ConstFold.State.{Pass, return, PassState, replace_var}
use erap_sbt.ConstFold.Meaning.{int_type}
use erap_sbt.ConstFold.Single.Identities
use erap_sbt.ConstFold.Single.Identities.{narrow-zero}
use erap_sbt.ConstFold.WordLaws.{run}
use erap_sbt.ConstFold.Single.Shifts
use erap_sbt.ConstFold.Single.{
  replace, negate, shift_of_zero, by_zero, left_other, right_other, simplify_bi_comm,
  replace_with_immediate, becomes_not, uint64_max,
}

-- How the call leaves the current variable, an operation of value `goal x` where its operand `inner`
-- holds `x`: untouched; replaced by `inner`; an immediate; or the operation `not inner`. In the last
-- three cases the new value is the one that the operation has wherever it has one.
pub data IsKept (w : Width) (goal : ℕ → Outcome ℕ) (cur inner : SsaVar) (s : PassState) (v : SsaVar)
    (s' : PassState) : Type 0 where
  untouched : v ≡ cur → s' ≡ s → IsKept w goal cur inner s v s'
  replaced :
      v ≡ cur
      → s' ≡ record s { rewrites = (cur.id, inner.id) ∷ s.rewrites }
      → ((x y : ℕ) → goal x ≡ ok y → y ≡ narrow w x)
      → IsKept w goal cur inner s v s'
  folded :
      (n : ℕ)
      → v ≡ replace_with_immediate cur n false
      → s' ≡ s
      → ((x y : ℕ) → goal x ≡ ok y → y ≡ n)
      → IsKept w goal cur inner s v s'
  negated :
      (op : Operation)
      → cur.info ≡ operation op
      → v ≡ becomes_not cur op inner
      → s' ≡ s
      → ((x y : ℕ) → goal x ≡ ok y → eval_unary_op2 Instruction.not w (narrow w x) ≡ ok y)
      → IsKept w goal cur inner s v s'

typed_equal-int :
    (w : Width) (a b : ℕ) → typed_equal (int_type w) a b ≡ ok (narrow w a == narrow w b)
unfolding typed_equal
typed_equal-int w8 a b = refl
typed_equal-int w16 a b = refl
typed_equal-int w32 a b = refl
typed_equal-int w64 a b = refl

typed_narrow-int : (w : Width) (a : ℕ) → typed_narrow (int_type w) a ≡ ok (narrow w a)
unfolding typed_narrow
typed_narrow-int w8 a = refl
typed_narrow-int w16 a = refl
typed_narrow-int w32 a = refl
typed_narrow-int w64 a = refl

-- The call returns.
module _ (w : Width) (goal : ℕ → Outcome ℕ) (cur inner : SsaVar) (s : PassState) where
  abbrev pub IsKeptBy : Outcome (SsaVar × PassState) → Type 0
  IsKeptBy (ok (v, s')) = IsKept w goal cur inner s v s'
  IsKeptBy panics = ⊥
  IsKeptBy undefined = ⊥

  kept_as :
      (o : Outcome (SsaVar × PassState)) {v : SsaVar} {s' : PassState}
      → o ≡ ok (v, s')
      → IsKept w goal cur inner s v s'
      → IsKeptBy o
  kept_as o e k = rw e k

  exactly : (f : ℕ → ℕ) → ((x : ℕ) → goal x ≡ ok (f x)) → (x y : ℕ) → goal x ≡ ok y → y ≡ f x
  exactly f h x y e = ground (arith, h x)

module _ (w : Width) (imm : ℕ) (cur inner : SsaVar) (s : PassState) (op : Operation)
    (is_op : cur.info ≡ operation op) where
  module _ (goal : ℕ → Outcome ℕ) where
    pub choose-IsKept :
        (b : Bool) (m n : Pass SsaVar)
        → (b ≡ true → IsKeptBy w goal cur inner s (m s))
        → (b ≡ false → IsKeptBy w goal cur inner s (n s))
        → IsKeptBy w goal cur inner s ((if b then m else n) s)
    choose-IsKept true m n h k = h refl
    choose-IsKept false m n h k = k refl

    -- `narrow w imm == narrow w other`, as the source tests it.
    choose_at :
        (other : ℕ) (m n : Pass SsaVar)
        → (narrow w imm ≡ narrow w other → IsKeptBy w goal cur inner s (m s))
        → IsKeptBy w goal cur inner s (n s)
        → IsKeptBy w goal cur inner s ((if narrow w imm == narrow w other then m else n) s)
    choose_at other m n h k =
        choose-IsKept (narrow w imm == narrow w other) m n (λ e. h ((==_iff _ _).0 e)) (λ _. k)

    replace_kept :
        ((x : ℕ) → goal x ≡ ok (narrow w x)) → IsKeptBy w goal cur inner s (replace cur inner s)
    unfolding replace_var
    replace_kept h = replaced refl refl (exactly w goal cur inner s (narrow w) h)

    fold_kept :
        (n : ℕ)
        → ((x y : ℕ) → goal x ≡ ok y → y ≡ n)
        → IsKeptBy w goal cur inner s (ok (replace_with_immediate cur n false, s))
    fold_kept n h = folded n refl refl h

    negate_kept :
        ((x : ℕ) → goal x ≡ eval_unary_op2 Instruction.not w (narrow w x))
        → IsKeptBy w goal cur inner s (negate (int_type w) imm cur inner (operation? cur) s)
    negate_kept h =
        kept_as w goal cur inner s (negate (int_type w) imm cur inner (operation? cur) s)
          {v = becomes_not cur op inner} {s' = s} (rw is_op)
          (negated op is_op refl refl (λ x y e. sym (h x) ∙ e))

  -- With `x` the value of the operand, the immediate on the left.
  pub comm-IsKept :
      (insn : Instruction)
      → is_commutative insn ≡ true
      → IsKeptBy w
          (λ x. run insn w imm x)
          cur
          inner
          s
          (simplify_bi_comm (int_type w) imm cur inner insn s)
  unfolding simplify_bi_comm is_commutative
  comm-IsKept Instruction.add c =
      choose-IsKept (λ x. run Instruction.add w imm x) (imm == 0) (replace cur inner) (return cur)
        (λ z. replace_kept _ (λ x. Identities.add_zero w imm x ((==_iff _ _).0 z)))
        (λ _. untouched refl refl)
  comm-IsKept Instruction.and c =
      rw (typed_equal-int, typed_equal-int)
        (choose_at (λ x. run Instruction.and w imm x) uint64_max (replace cur inner) _
          (λ e. replace_kept _ (λ x. Identities.and_ones w imm x e))
          (choose_at (λ x. run Instruction.and w imm x) 0
            (return (replace_with_immediate cur 0 false)) (return cur)
            (λ e.
              fold_kept _ 0 (exactly w _ cur inner s (λ _. 0) (λ x. Identities.and_zero w imm x e)))
            (untouched refl refl)))
  comm-IsKept Instruction.or c =
      rw (typed_equal-int, typed_equal-int, typed_narrow-int)
        (choose_at (λ x. run Instruction.or w imm x) uint64_max
          (return (replace_with_immediate cur (narrow w uint64_max) false)) _
          (λ e. fold_kept _ (narrow w uint64_max) (
            exactly w _ cur inner s (λ _. narrow w uint64_max) (λ x. Identities.or_ones w imm x e)))
          (choose_at (λ x. run Instruction.or w imm x) 0 (replace cur inner) (return cur)
            (λ e. replace_kept _ (λ x. Identities.or_zero w imm x e)) (untouched refl refl)))
  comm-IsKept Instruction.xor c =
      rw (typed_equal-int, typed_equal-int)
        (choose_at (λ x. run Instruction.xor w imm x) 0 (replace cur inner) _
          (λ e. replace_kept _ (λ x. Identities.xor_zero w imm x e))
          (choose_at (λ x. run Instruction.xor w imm x) uint64_max
            (negate (int_type w) imm cur inner (operation? cur)) (return cur)
            (λ e. negate_kept _ (λ x. Identities.xor_ones w imm x e)) (untouched refl refl)))
  comm-IsKept _ c = absurd (cc)

  shift_kept :
      (insn : Instruction)
      → ((n y : ℕ) → eval_binary_op2 insn w 0 n ≡ ok y → y ≡ 0)
      → IsKeptBy w (λ x. run insn w imm x) cur inner s (shift_of_zero (int_type w) imm cur inner s)
  unfolding shift_of_zero
  shift_kept insn h = rw typed_equal-int (
      choose_at (λ x. run insn w imm x) 0 (return (replace_with_immediate cur 0 false)) (return cur)
        (λ e. fold_kept _ 0 (λ x y g. h (narrow w x) y (rw (e ∙ narrow-zero w) at g)))
        (untouched refl refl))

  zero_kept :
      (insn : Instruction)
      → ((x : ℕ) → narrow w imm ≡ narrow w 0 → run insn w x imm ≡ ok (narrow w x))
      → IsKeptBy w (λ x. run insn w x imm) cur inner s (by_zero (int_type w) imm cur inner s)
  unfolding by_zero
  zero_kept insn h = rw typed_equal-int (
      choose_at (λ x. run insn w x imm) 0 (replace cur inner) (return cur)
        (λ e. replace_kept _ (λ x. h x e)) (untouched refl refl))

  amount_zero :
      (insn : Instruction)
      → ((x : ℕ) → eval_binary_op2 insn w (narrow w x) 0 ≡ ok (narrow w x))
      → (x : ℕ) → narrow w imm ≡ narrow w 0
      → run insn w x imm ≡ ok (narrow w x)
  amount_zero insn h x e = rw (e ∙ narrow-zero w) (h x)

  pub left_other-IsKept :
      (insn : Instruction)
      → IsKeptBy w
          (λ x. run insn w imm x)
          cur
          inner
          s
          (left_other (int_type w) imm cur inner insn s)
  unfolding left_other
  left_other-IsKept Instruction.shl = shift_kept Instruction.shl (λ n y. Shifts.zero_shl n y w)
  left_other-IsKept Instruction.shr = shift_kept Instruction.shr (λ n y. Shifts.zero_shr n y w)
  left_other-IsKept Instruction.sar = shift_kept Instruction.sar (λ n y. Shifts.zero_sar n y w)
  left_other-IsKept _ = untouched refl refl

  pub right_other-IsKept :
      (insn : Instruction)
      → IsKeptBy w
          (λ x. run insn w x imm)
          cur
          inner
          s
          (right_other (int_type w) imm cur inner insn s)
  unfolding right_other
  right_other-IsKept Instruction.sub =
      zero_kept Instruction.sub (λ x e. Identities.sub_zero w imm x e)
  right_other-IsKept Instruction.shl =
      zero_kept Instruction.shl (amount_zero Instruction.shl (λ x. Shifts.shl_zero x w))
  right_other-IsKept Instruction.shr =
      zero_kept Instruction.shr (amount_zero Instruction.shr (λ x. Shifts.shr_zero x w))
  right_other-IsKept Instruction.sar =
      zero_kept Instruction.sar (amount_zero Instruction.sar (λ x. Shifts.sar_zero x w))
  right_other-IsKept _ = untouched refl refl
