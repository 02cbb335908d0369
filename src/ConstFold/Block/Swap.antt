-- ===== src/ConstFold/Block/Swap.antt =====
-- src/ir/optimizer/const_folding.cpp: the swap of operands at the end of `const_fold`.
use erap_sbt.Base.{ℕ, ◌/◌, ◌^◌, ◌≡◌, ap, true, ltb, if◌then◌else◌, ok, undefined, arith}
use erap_sbt.Base.Bits.{or_comm, and_comm, xor_comm}
use erap_sbt.Base.Int.{ℤ, ◌*ℤ◌, ltb_ℤ, *ℤ_parts, eq_of_parts}
use erap_sbt.Ir.Instruction.{Instruction}
use erap_sbt.Eval.{Width, w8, w16, w32, w64, modulus, narrow, signed}
use erap_sbt.Eval.Binary.{eval_binary_op2, mul_low, uumul_high, high_half}
use erap_sbt.Eval.Laws.Products.{Fits}
use erap_sbt.Eval.Laws.Bounds.{narrow-Fits}
use erap_sbt.ConstFold.WordLaws.{run}
use erap_sbt.ConstFold.Block.{swaps}
use native.Mathlib.Nat.{add_comm, mul_comm}

*ℤ_comm : (x y : ℤ) → x *ℤ y ≡ y *ℤ x
*ℤ_comm x y = eq_of_parts (x *ℤ y) (y *ℤ x) (omega (arith, *ℤ_parts x y, *ℤ_parts y x))

larger_comm : (a b : ℕ) → (if ltb a b then b else a) ≡ (if ltb b a then a else b)
larger_comm a b = ground arith

smaller_comm : (a b : ℕ) → (if ltb b a then b else a) ≡ (if ltb a b then a else b)
smaller_comm a b = ground arith

-- A tie of the signed readings is a tie of the words.
signed_larger_comm :
    (w : Width) (a b : ℕ)
    → Fits w a
    → Fits w b
    → (if ltb_ℤ (signed w a) (signed w b) then b else a)
      ≡ (if ltb_ℤ (signed w b) (signed w a) then a else b)
signed_larger_comm w8 a b p q = ground arith
signed_larger_comm w16 a b p q = ground arith
signed_larger_comm w32 a b p q = ground arith
signed_larger_comm w64 a b p q = ground arith

signed_smaller_comm :
    (w : Width) (a b : ℕ)
    → Fits w a
    → Fits w b
    → (if ltb_ℤ (signed w b) (signed w a) then b else a)
      ≡ (if ltb_ℤ (signed w a) (signed w b) then a else b)
signed_smaller_comm w8 a b p q = ground arith
signed_smaller_comm w16 a b p q = ground arith
signed_smaller_comm w32 a b p q = ground arith
signed_smaller_comm w64 a b p q = ground arith

mul_low_comm : (w : Width) (a b : ℕ) → mul_low w a b ≡ mul_low w b a
unfolding mul_low
mul_low_comm w8 a b = ap (λ t. ok (narrow w8 t)) (mul_comm a b)
mul_low_comm w16 a b =
    ap (λ t. if ltb t (2 ^ 31) then ok (narrow w16 t) else undefined) (mul_comm a b)
mul_low_comm w32 a b = ap (λ t. ok (narrow w32 t)) (mul_comm a b)
mul_low_comm w64 a b = ap (λ t. ok (narrow w64 t)) (mul_comm a b)

uumul_high_comm : (w : Width) (a b : ℕ) → uumul_high w a b ≡ uumul_high w b a
unfolding uumul_high
uumul_high_comm w8 a b = ap (λ t. ok (narrow w8 (t / modulus w8))) (mul_comm a b)
uumul_high_comm w16 a b = ap (λ t. ok (narrow w16 (t / modulus w16))) (mul_comm a b)
uumul_high_comm w32 a b = ap (λ t. ok (narrow w32 (t / modulus w32))) (mul_comm a b)
uumul_high_comm w64 a b =
    ap (λ t. if ltb t (2 ^ 127) then ok (narrow w64 (t / modulus w64)) else undefined)
      (mul_comm a b)

words_comm :
    (w : Width) (insn : Instruction) (a b : ℕ)
    → Fits w a
    → Fits w b
    → swaps insn ≡ true
    → eval_binary_op2 insn w a b ≡ eval_binary_op2 insn w b a
unfolding swaps eval_binary_op2
words_comm w Instruction.add a b p q h = ap (λ t. ok (narrow w t)) (add_comm a b)
words_comm w Instruction.or a b p q h = ap (λ t. ok (narrow w t)) (or_comm a b)
words_comm w Instruction.and a b p q h = ap (λ t. ok (narrow w t)) (and_comm a b)
words_comm w Instruction.xor a b p q h = ap (λ t. ok (narrow w t)) (xor_comm a b)
words_comm w Instruction.umax a b p q h = ap ok (larger_comm a b)
words_comm w Instruction.umin a b p q h = ap ok (smaller_comm a b)
words_comm w Instruction.max a b p q h = ap ok (signed_larger_comm w a b p q)
words_comm w Instruction.min a b p q h = ap ok (signed_smaller_comm w a b p q)
words_comm w Instruction.mul_l a b p q h = mul_low_comm w a b
words_comm w Instruction.ssmul_h a b p q h =
    ap (λ t. ok (high_half w t)) (*ℤ_comm (signed w a) (signed w b))
words_comm w Instruction.uumul_h a b p q h = uumul_high_comm w a b
words_comm w _ a b p q h = absurd (ground arith)

-- For every operation whose operands `const_fold` swaps in the end, every width and all operands: the
-- operation has the same outcome with its operands swapped.
pub run-swaps :
    (insn : Instruction) (w : Width) (x y : ℕ) → swaps insn ≡ true → run insn w x y ≡ run insn w y x
run-swaps insn w x y h =
    words_comm w insn (narrow w x) (narrow w y) (narrow-Fits w x) (narrow-Fits w y) h
