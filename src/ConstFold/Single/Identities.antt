-- ===== src/ConstFold/Single/Identities.antt =====
-- The identities of word arithmetic behind the simplifications of
-- src/ir/optimizer/const_folding.cpp that have one immediate operand.
use erap_sbt.Base.{ℕ, ◌+◌, ◌-◌, ◌^◌, ◌≡◌, ◌<◌, ◌∙◌, refl, ap, sym, ok, arith}
use erap_sbt.Base.Bits.{zero-or, zero-and, zero-xor, or-ones, and-ones, xor-ones}
use erap_sbt.Ir.Instruction.{Instruction}
use erap_sbt.Eval.{Width, w8, w16, w32, w64, narrow, modulus, bit_count}
use erap_sbt.Eval.Binary.{eval_binary_op2, eval_unary_op2}
use erap_sbt.ConstFold.WordLaws.{run}
use erap_sbt.ConstFold.Single.{uint64_max}

narrow_idem : (w : Width) (x : ℕ) → narrow w (narrow w x) ≡ narrow w x
narrow_idem w8 x = omega arith
narrow_idem w16 x = omega arith
narrow_idem w32 x = omega arith
narrow_idem w64 x = omega arith

pub narrow-zero : (w : Width) → narrow w 0 ≡ 0
narrow-zero w8 = refl
narrow-zero w16 = refl
narrow-zero w32 = refl
narrow-zero w64 = refl

narrow-lt : (w : Width) (n : ℕ) → narrow w n < 2 ^ bit_count w
narrow-lt w8 n = omega arith
narrow-lt w16 n = omega arith
narrow-lt w32 n = omega arith
narrow-lt w64 n = omega arith

-- The largest 64-bit value is all ones at every width.
narrow-max : (w : Width) → narrow w uint64_max ≡ 2 ^ bit_count w - 1
narrow-max w8 = refl
narrow-max w16 = refl
narrow-max w32 = refl
narrow-max w64 = refl

modulus-eq : (w : Width) → modulus w ≡ 2 ^ bit_count w
modulus-eq w8 = refl
modulus-eq w16 = refl
modulus-eq w32 = refl
modulus-eq w64 = refl

module _ (w : Width) (imm x : ℕ) where
  pub add_zero : imm ≡ 0 → run Instruction.add w imm x ≡ ok (narrow w x)
  unfolding eval_binary_op2
  add_zero e = rw e (rw (narrow-zero w) (ap ok (ap (narrow w) (omega arith) ∙ narrow_idem w x)))

  module _ (e : narrow w imm ≡ narrow w 0) where
    none : narrow w imm ≡ 0
    none = e ∙ narrow-zero w

    pub and_zero : run Instruction.and w imm x ≡ ok 0
    unfolding eval_binary_op2
    and_zero = rw none (ap ok (ap (narrow w) (zero-and (narrow w x)) ∙ narrow-zero w))

    pub or_zero : run Instruction.or w imm x ≡ ok (narrow w x)
    unfolding eval_binary_op2
    or_zero = rw none (ap ok (ap (narrow w) (zero-or (narrow w x)) ∙ narrow_idem w x))

    pub xor_zero : run Instruction.xor w imm x ≡ ok (narrow w x)
    unfolding eval_binary_op2
    xor_zero = rw none (ap ok (ap (narrow w) (zero-xor (narrow w x)) ∙ narrow_idem w x))

    pub sub_zero : run Instruction.sub w x imm ≡ ok (narrow w x)
    unfolding eval_binary_op2
    sub_zero = rw none (ap ok (dropped w))
      where
        dropped : (v : Width) → narrow v (narrow v x + modulus v - 0) ≡ narrow v x
        dropped w8 = omega arith
        dropped w16 = omega arith
        dropped w32 = omega arith
        dropped w64 = omega arith

  module _ (e : narrow w imm ≡ narrow w uint64_max) where
    all : narrow w imm ≡ 2 ^ bit_count w - 1
    all = e ∙ narrow-max w

    pub and_ones : run Instruction.and w imm x ≡ ok (narrow w x)
    unfolding eval_binary_op2
    and_ones = rw all (
        ap ok
          (ap (narrow w) (and-ones (bit_count w) (narrow w x) (narrow-lt w x)) ∙ narrow_idem w x))

    pub or_ones : run Instruction.or w imm x ≡ ok (narrow w uint64_max)
    unfolding eval_binary_op2
    or_ones = rw all (
        ap ok (
          ap (narrow w) (or-ones (bit_count w) (narrow w x) (narrow-lt w x) ∙ sym (narrow-max w))
          ∙ narrow_idem w uint64_max))

    pub xor_ones : run Instruction.xor w imm x ≡ eval_unary_op2 Instruction.not w (narrow w x)
    unfolding eval_binary_op2 eval_unary_op2
    xor_ones =
        rw all
          (ap ok (ap (narrow w) (xor-ones (bit_count w) (narrow w x) (narrow-lt w x)) ∙ small w))
      where
        small :
            (v : Width) → narrow v (2 ^ bit_count v - 1 - narrow v x) ≡ modulus v - 1 - narrow v x
        small w8 = omega arith
        small w16 = omega arith
        small w32 = omega arith
        small w64 = omega arith
