-- ===== src/Eval/Laws/Bounds.antt =====
-- src/ir/eval.cpp: the results of the evaluator are values of the type it evaluates at.
use erap_sbt.Base.{
  ℕ, ◌≡◌, ◌^◌, ◌*◌, ◌/◌, ltb, if◌then◌else◌, Bool, true, false, Outcome, ok, panics, undefined,
  arith,
}
use erap_sbt.Base.Int.{ℤ}
use erap_sbt.Ir.Instruction.{Instruction}
use erap_sbt.Eval.Words.{Width, w8, w16, w32, w64, modulus, narrow, wrap, promoted_bits}
use erap_sbt.Eval.Binary.{
  eval_binary_op2, mul_low, uumul_high, checked_shift, shift, shift_left, high_half,
}
use erap_sbt.Eval.Laws.Products.{Fits}
use std.Path.{subst}

pub narrow-Fits : (w : Width) (n : ℕ) → Fits w (narrow w n)
narrow-Fits w8 n = omega arith
narrow-Fits w16 n = omega arith
narrow-Fits w32 n = omega arith
narrow-Fits w64 n = omega arith

pub wrap-Fits : (w : Width) (z : ℤ) → Fits w (wrap (modulus w) z)
wrap-Fits w8 z = ground arith
wrap-Fits w16 z = ground arith
wrap-Fits w32 z = ground arith
wrap-Fits w64 z = ground arith

-- An outcome whose value, if there is one, fits.
abbrev pub FitsBy : Width → Outcome ℕ → Type 0
FitsBy w (ok r) = Fits w r
FitsBy w panics = Unit
FitsBy w undefined = Unit

pub if-FitsBy :
    (w : Width) (b : Bool) (x y : Outcome ℕ)
    → FitsBy w x
    → FitsBy w y
    → FitsBy w (if b then x else y)
if-FitsBy w true x y h k = h
if-FitsBy w false x y h k = k

pub if-Fits : (w : Width) (b : Bool) (x y : ℕ) → Fits w x → Fits w y → Fits w (if b then x else y)
if-Fits w true x y h k = h
if-Fits w false x y h k = k

mul_low-FitsBy : (w : Width) (a b : ℕ) → FitsBy w (mul_low w a b)
unfolding mul_low
mul_low-FitsBy w8 a b = narrow-Fits w8 (a * b)
mul_low-FitsBy w16 a b =
    if-FitsBy w16 (ltb (a * b) (2 ^ 31)) (ok (narrow w16 (a * b))) undefined
      (narrow-Fits w16 (a * b)) tt
mul_low-FitsBy w32 a b = narrow-Fits w32 (a * b)
mul_low-FitsBy w64 a b = narrow-Fits w64 (a * b)

uumul_high-FitsBy : (w : Width) (a b : ℕ) → FitsBy w (uumul_high w a b)
unfolding uumul_high
uumul_high-FitsBy w8 a b = narrow-Fits w8 _
uumul_high-FitsBy w16 a b = narrow-Fits w16 _
uumul_high-FitsBy w32 a b = narrow-Fits w32 _
uumul_high-FitsBy w64 a b =
    if-FitsBy w64 (ltb (a * b) (2 ^ 127)) _ undefined (narrow-Fits w64 (a * b / modulus w64)) tt

shift_left-FitsBy : (w : Width) (a b : ℕ) → FitsBy w (shift_left w a b)
unfolding shift_left
shift_left-FitsBy w8 a b =
    if-FitsBy w8 (ltb (a * 2 ^ b) (2 ^ 32)) _ undefined (narrow-Fits w8 (a * 2 ^ b)) tt
shift_left-FitsBy w16 a b =
    if-FitsBy w16 (ltb (a * 2 ^ b) (2 ^ 32)) _ undefined (narrow-Fits w16 (a * 2 ^ b)) tt
shift_left-FitsBy w32 a b = narrow-Fits w32 _
shift_left-FitsBy w64 a b = narrow-Fits w64 _

amount-FitsBy :
    (w : Width) (x : Bool) (o : Outcome ℕ)
    → FitsBy w o
    → FitsBy w (elim x [ true ↦ o | false ↦ undefined ])
amount-FitsBy w true o h = h
amount-FitsBy w false o h = tt

checked-FitsBy :
    (w : Width) (insn : Instruction) (a b : ℕ)
    → FitsBy w (shift insn w a b)
    → FitsBy w (checked_shift insn w a b)
unfolding checked_shift
checked-FitsBy w insn a b h = amount-FitsBy w (ltb b (promoted_bits w)) (shift insn w a b) h

eval_binary_op2-FitsBy :
    (insn : Instruction) (w : Width) (a b : ℕ)
    → Fits w a
    → Fits w b
    → FitsBy w (eval_binary_op2 insn w a b)
unfolding eval_binary_op2 shift high_half
eval_binary_op2-FitsBy Instruction.add w a b p q = narrow-Fits w _
eval_binary_op2-FitsBy Instruction.sub w a b p q = narrow-Fits w _
eval_binary_op2-FitsBy Instruction.mul_l w a b p q = mul_low-FitsBy w a b
eval_binary_op2-FitsBy Instruction.ssmul_h w a b p q = narrow-Fits w _
eval_binary_op2-FitsBy Instruction.uumul_h w a b p q = uumul_high-FitsBy w a b
eval_binary_op2-FitsBy Instruction.sumul_h w a b p q = narrow-Fits w _
eval_binary_op2-FitsBy Instruction.shl w a b p q =
    checked-FitsBy w Instruction.shl a b (shift_left-FitsBy w a b)
eval_binary_op2-FitsBy Instruction.shr w a b p q =
    checked-FitsBy w Instruction.shr a b (narrow-Fits w _)
eval_binary_op2-FitsBy Instruction.sar w a b p q =
    checked-FitsBy w Instruction.sar a b (wrap-Fits w _)
eval_binary_op2-FitsBy Instruction.or w a b p q = narrow-Fits w _
eval_binary_op2-FitsBy Instruction.and w a b p q = narrow-Fits w _
eval_binary_op2-FitsBy Instruction.xor w a b p q = narrow-Fits w _
eval_binary_op2-FitsBy Instruction.umax w a b p q = if-Fits w _ b a q p
eval_binary_op2-FitsBy Instruction.max w a b p q = if-Fits w _ b a q p
eval_binary_op2-FitsBy Instruction.umin w a b p q = if-Fits w _ b a q p
eval_binary_op2-FitsBy Instruction.min w a b p q = if-Fits w _ b a q p
eval_binary_op2-FitsBy _ w a b p q = tt

-- For words `a` and `b` of every width and every operation: a value that `eval_binary_op2` returns
-- is a value of the type.
pub eval_binary_op2-Fits :
    (insn : Instruction) (w : Width) (a b r : ℕ)
    → Fits w a
    → Fits w b
    → eval_binary_op2 insn w a b ≡ ok r
    → Fits w r
eval_binary_op2-Fits insn w a b r p q e = subst (FitsBy w) e (eval_binary_op2-FitsBy insn w a b p q)
