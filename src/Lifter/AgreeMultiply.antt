-- ===== src/Lifter/AgreeMultiply.antt =====
-- src/generator/x86_64/helper/interpreter.cpp against src/ir/eval.cpp: multiplications and divisions.
use erap_sbt.Base.{
  ℕ, suc, ◌+◌, ◌*◌, ◌/◌, ◌%◌, ◌^◌, ◌<◌, ◌==◌, ◌≡◌, refl, sym, ◌∙◌, ap, Bool, true, false, inl, inr,
  if◌then◌else◌, Outcome, ok, panics, undefined, arith,
}
use std.Path.{subst}
use native.Mathlib.Nat.{div-le_self, mod-le}
use erap_sbt.Base.Int.{ℤ, pos, negsuc, ◌*ℤ◌, *ℤ_parts, pos_part, neg_part}
use erap_sbt.Eval.{Width, w32, w64, modulus, narrow, signed, wrap}
use erap_sbt.Eval.Binary.{eval_binary_op2, shift_signed, high_half}
use erap_sbt.Eval.Division.{eval_div2, quotient, remainder, overflows}
use erap_sbt.Eval.Laws.Products.{Fits, signed_product, signed-cases, complement_left}
use erap_sbt.Eval.Laws.Bounds.{FitsBy, if-FitsBy, wrap-Fits}
use erap_sbt.Ir.Instruction.{Instruction}
use erap_sbt.Interpreter.Machine.{low, extended, int_result, sign_extend_int64_t}
use erap_sbt.Interpreter.Multiply.{Multiply, multiply_value, signed_division, unsigned_division}
use erap_sbt.Lifter.Builder.{int64_of}
use erap_sbt.Lifter.Steps.{widened}
use erap_sbt.Lifter.MultiplyRuns.{part}
use erap_sbt.Lifter.Agree.{word}

-- The evaluator has a result of which the value is made.
abbrev pub Evaluates : Width → Outcome ℕ → ℕ → Type 0
Evaluates w o v = (r : ℕ) × (o ≡ ok r) × Fits w r × (v ≡ widened w r)

extended_int :
    (z : ℤ) (v : ℕ) → extended (int_result z) ≡ ok v → v ≡ int64_of (wrap (modulus w32) z)
unfolding int_result sign_extend_int64_t
extended_int z v e = ground arith

extended_value :
    (o : Outcome ℕ) (v : ℕ) → extended o ≡ ok v → (u : ℕ) × (o ≡ ok u) × (v ≡ int64_of u)
unfolding sign_extend_int64_t
extended_value (ok u) v e = (u, refl, ground arith)
extended_value panics v e = ground arith
extended_value undefined v e = ground arith

value_of : (x v : ℕ) → ok x ≡ ok v → v ≡ x
value_of x v e = ground arith

-- The upper half of a product of signed numbers is the same taken at either width.
upper_half : (z : ℤ) → wrap (modulus w64) (shift_signed z 64) ≡ high_half w64 z
unfolding high_half
upper_half (pos n) = omega arith
upper_half (negsuc n) = omega arith

wrap_double :
    (z : ℤ) (r : ℕ)
    → r < 2 ^ 128
    → (r + neg_part z) % 2 ^ 128 ≡ pos_part z % 2 ^ 128
    → wrap (2 ^ 128) z ≡ r
wrap_double z r p e = ground arith

-- A mixed product modulo the double width.
mixed_pos : (a b : ℕ) → wrap (2 ^ 128) (pos a *ℤ pos b) ≡ a * b % 2 ^ 128
mixed_pos a b =
    wrap_double (pos a *ℤ pos b) (a * b % 2 ^ 128) (omega arith)
      (omega (arith, *ℤ_parts (pos a) (pos b)))

mixed_neg : (c k b : ℕ) → c + suc k ≡ 2 ^ 128 → wrap (2 ^ 128) (negsuc k *ℤ pos b) ≡ c * b % 2 ^ 128
mixed_neg c k b e =
    wrap_double (negsuc k *ℤ pos b) (c * b % 2 ^ 128) (omega arith)
      (omega (arith, *ℤ_parts (negsuc k) (pos b), complement_left (2 ^ 128) c (suc k) b e))

wrap_small : (a : ℕ) → Fits w64 a → wrap (2 ^ 128) (pos a) ≡ a
wrap_small a p = omega arith

wrap_negative : (a k : ℕ) → a + suc k ≡ modulus w64 → wrap (2 ^ 128) (negsuc k) + suc k ≡ 2 ^ 128
wrap_negative a k e = omega arith

mixed_double :
    (a b : ℕ)
    → Fits w64 a
    → wrap (2 ^ 128) (signed w64 a *ℤ pos b) ≡ wrap (2 ^ 128) (signed w64 a) * b % 2 ^ 128
mixed_double a b p = elim (signed-cases w64 a p) [
  | inl e ↦ rw e (mixed_pos a b ∙ ap (λ n. n * b % 2 ^ 128) (sym (wrap_small a p)))
  | inr (k, e, c) ↦ rw e (mixed_neg (wrap (2 ^ 128) (negsuc k)) k b (wrap_negative a k c))
]

part_quotient :
    (x y : Bool) (q r : ℕ)
    → part false (if x then undefined else if y then undefined else ok (q, r))
      ≡ (if x then undefined else if y then undefined else ok q)
part_quotient true y q r = refl
part_quotient false true q r = refl
part_quotient false false q r = refl

part_remainder :
    (x y : Bool) (q r : ℕ)
    → part true (if x then undefined else if y then undefined else ok (q, r))
      ≡ (if x then undefined else if y then undefined else ok r)
part_remainder true y q r = refl
part_remainder false true q r = refl
part_remainder false false q r = refl

part_unsigned :
    (rem x : Bool) (q r : ℕ)
    → part rem (if x then undefined else ok (q, r))
      ≡ (if x then undefined else ok (if rem then r else q))
part_unsigned rem true q r = refl
part_unsigned rem false q r = refl

signed_division-Fits :
    (op : ℤ → ℤ → ℤ) (w : Width) (a b u : ℕ) → signed_division op w a b ≡ ok u → Fits w u
signed_division-Fits op w a b u e = subst (FitsBy w) e (
    if-FitsBy w (b == 0) undefined _ tt
      (if-FitsBy w (overflows w a b) undefined _ tt (wrap-Fits w _)))

unsigned_division-Fits :
    (op : ℕ → ℕ → ℕ) (w : Width) (a b u : ℕ)
    → Fits w (op a b)
    → unsigned_division op a b ≡ ok u
    → Fits w u
unsigned_division-Fits op w a b u h e =
    subst (FitsBy w) e (if-FitsBy w (b == 0) undefined (ok (op a b)) tt h)

low_quotient : (a m : ℕ) → low a / m < 2 ^ 32
low_quotient a m = omega (arith, div-le_self (low a) m)

quotient_word : (a m : ℕ) → Fits w64 a → Fits w64 (a / m)
quotient_word a m h = omega (arith, div-le_self a m)

remainder_word : (a m : ℕ) → Fits w64 a → Fits w64 (a % m)
remainder_word a m h = omega (arith, mod-le a m)

low_remainder : (a m : ℕ) → low a % m < 2 ^ 32
low_remainder a m = omega (arith, mod-le (low a) m)

high_product :
    (a b v : ℕ)
    → a * b < 2 ^ 127
    → v ≡ narrow w64 (a * b / 2 ^ 64)
    → eval_binary_op2 Instruction.uumul_h w64 a b ≡ ok v
unfolding eval_binary_op2
high_product a b v h e = ground arith

module _ (a b v : ℕ) (p : Fits w64 a) (q : Fits w64 b) where
  pub mul-Evaluates :
      multiply_value Multiply.mul a b ≡ ok v
      → Evaluates w64 (eval_binary_op2 Instruction.mul_l w64 (narrow w64 a) (narrow w64 b)) v
  unfolding multiply_value eval_binary_op2
  mul-Evaluates e = (_, refl, omega arith, rw (word a p, word b q) (value_of _ v e))

  pub mulw-Evaluates :
      multiply_value Multiply.mulw a b ≡ ok v
      → Evaluates w32 (eval_binary_op2 Instruction.mul_l w32 (narrow w32 a) (narrow w32 b)) v
  unfolding multiply_value eval_binary_op2
  mulw-Evaluates e = (
    _,
    refl,
    omega arith,
    extended_int _ v e
        ∙ ap int64_of (signed_product w32 (low a) (low b) (omega arith) (omega arith)),
  )

  pub mulh-Evaluates :
      multiply_value Multiply.mulh a b ≡ ok v
      → Evaluates w64 (eval_binary_op2 Instruction.ssmul_h w64 (narrow w64 a) (narrow w64 b)) v
  unfolding multiply_value eval_binary_op2 high_half
  mulh-Evaluates e = (
    _,
    refl,
    omega arith,
    rw (word a p, word b q) (value_of _ v e ∙ upper_half (signed w64 a *ℤ signed w64 b)),
  )

  pub mulhsu-Evaluates :
      multiply_value Multiply.mulhsu a b ≡ ok v
      → Evaluates w64 (eval_binary_op2 Instruction.sumul_h w64 (narrow w64 a) (narrow w64 b)) v
  unfolding multiply_value eval_binary_op2 high_half
  mulhsu-Evaluates e = (
    _,
    refl,
    omega arith,
    rw (word a p, word b q)
        (value_of _ v e ∙ ap (λ n. narrow w64 (n / 2 ^ 64)) (sym (mixed_double a b p))),
  )

  pub mulhu-Evaluates :
      a * b < 2 ^ 127
      → multiply_value Multiply.mulhu a b ≡ ok v
      → Evaluates w64 (eval_binary_op2 Instruction.uumul_h w64 (narrow w64 a) (narrow w64 b)) v
  unfolding multiply_value
  mulhu-Evaluates h e = (
    v,
    rw (word a p, word b q) (high_product a b v h (value_of _ v e)),
    rw (value_of _ v e) (omega arith),
    refl,
  )

  pub div-Evaluates :
      multiply_value Multiply.div a b ≡ ok v
      → Evaluates w64 (part false (eval_div2 Instruction.div w64 (narrow w64 a) (narrow w64 b))) v
  unfolding multiply_value eval_div2
  div-Evaluates e = (
    v,
    rw (word a p, word b q) (part_quotient (b == 0) (overflows w64 a b) _ _ ∙ e),
    signed_division-Fits quotient w64 a b v e,
    refl,
  )

  pub divw-Evaluates :
      multiply_value Multiply.divw a b ≡ ok v
      → Evaluates w32 (part false (eval_div2 Instruction.div w32 (narrow w32 a) (narrow w32 b))) v
  unfolding multiply_value eval_div2
  divw-Evaluates e =
      let (u, f, g) = extended_value _ v e in
      (
        u,
        part_quotient ((low b) == 0) (overflows w32 (low a) (low b)) _ _ ∙ f,
        signed_division-Fits quotient w32 (low a) (low b) u f,
        g,
      )

  pub rem-Evaluates :
      multiply_value Multiply.rem a b ≡ ok v
      → Evaluates w64 (part true (eval_div2 Instruction.div w64 (narrow w64 a) (narrow w64 b))) v
  unfolding multiply_value eval_div2
  rem-Evaluates e = (
    v,
    rw (word a p, word b q) (part_remainder (b == 0) (overflows w64 a b) _ _ ∙ e),
    signed_division-Fits remainder w64 a b v e,
    refl,
  )

  pub remw-Evaluates :
      multiply_value Multiply.remw a b ≡ ok v
      → Evaluates w32 (part true (eval_div2 Instruction.div w32 (narrow w32 a) (narrow w32 b))) v
  unfolding multiply_value eval_div2
  remw-Evaluates e =
      let (u, f, g) = extended_value _ v e in
      (
        u,
        part_remainder ((low b) == 0) (overflows w32 (low a) (low b)) _ _ ∙ f,
        signed_division-Fits remainder w32 (low a) (low b) u f,
        g,
      )

  pub divu-Evaluates :
      multiply_value Multiply.divu a b ≡ ok v
      → Evaluates w64 (part false (eval_div2 Instruction.udiv w64 (narrow w64 a) (narrow w64 b))) v
  unfolding multiply_value eval_div2
  divu-Evaluates e = (
    v,
    rw (word a p, word b q) (part_unsigned false (b == 0) _ _ ∙ e),
    unsigned_division-Fits (λ x y. x / y) w64 a b v (quotient_word a b p) e,
    refl,
  )

  pub divuw-Evaluates :
      multiply_value Multiply.divuw a b ≡ ok v
      → Evaluates w32 (part false (eval_div2 Instruction.udiv w32 (narrow w32 a) (narrow w32 b))) v
  unfolding multiply_value eval_div2
  divuw-Evaluates e =
      let (u, f, g) = extended_value _ v e in
      (
        u,
        part_unsigned false ((low b) == 0) _ _ ∙ f,
        unsigned_division-Fits (λ x y. x / y) w32 (low a) (low b) u (low_quotient a (low b)) f,
        g,
      )

  pub remu-Evaluates :
      multiply_value Multiply.remu a b ≡ ok v
      → Evaluates w64 (part true (eval_div2 Instruction.udiv w64 (narrow w64 a) (narrow w64 b))) v
  unfolding multiply_value eval_div2
  remu-Evaluates e = (
    v,
    rw (word a p, word b q) (part_unsigned true (b == 0) _ _ ∙ e),
    unsigned_division-Fits (λ x y. x % y) w64 a b v (remainder_word a b p) e,
    refl,
  )

  pub remuw-Evaluates :
      multiply_value Multiply.remuw a b ≡ ok v
      → Evaluates w32 (part true (eval_div2 Instruction.udiv w32 (narrow w32 a) (narrow w32 b))) v
  unfolding multiply_value eval_div2
  remuw-Evaluates e =
      let (u, f, g) = extended_value _ v e in
      (
        u,
        part_unsigned true ((low b) == 0) _ _ ∙ f,
        unsigned_division-Fits (λ x y. x % y) w32 (low a) (low b) u (low_remainder a (low b)) f,
        g,
      )
