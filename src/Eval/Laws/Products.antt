-- ===== src/Eval/Laws/Products.antt =====
-- src/ir/eval.cpp: the multiplications. `mul_l` with one of the three upper-half operations gives
-- both halves of the double-width product.
use erap_sbt.Base.{
  ℕ, suc, ◌+◌, ◌-◌, ◌*◌, ◌/◌, ◌%◌, ◌<◌, ◌≡◌, ◌∙◌, refl, ap, ltb, ◌⊎◌, inl, inr, Bool-cases, ok,
  arith,
}
use erap_sbt.Base.Int.{ℤ, pos, negsuc, ◌*ℤ◌, pos_part, neg_part, *ℤ_parts}
use erap_sbt.Ir.Instruction.{Instruction}
use erap_sbt.Eval.Words.{Width, w8, w16, w32, w64, modulus, next_modulus, narrow, signed, wrap}
use erap_sbt.Eval.Binary.{eval_binary_op2}

-- A value of the type.
abbrev pub Fits : Width → ℕ → Type 0
Fits w n = n < modulus w

-- Converting to the larger type and then to the type itself is converting at once.
wrap_low : (w : Width) (z : ℤ) → wrap (next_modulus w) z % modulus w ≡ wrap (modulus w) z
wrap_low w8 z = ground arith
wrap_low w16 z = ground arith
wrap_low w32 z = ground arith
wrap_low w64 z = ground arith

-- The two halves of a number of the larger type.
halves :
    (w : Width) (z : ℤ)
    → wrap (next_modulus w) z
      ≡ narrow w (wrap (next_modulus w) z / modulus w) * modulus w + wrap (modulus w) z
halves w8 z = ground arith
halves w16 z = ground arith
halves w32 z = ground arith
halves w64 z = ground arith

-- A word's signed reading is the word itself, or the word less the modulus.
pub signed-cases :
    (w : Width) (a : ℕ)
    → Fits w a
    → (signed w a ≡ pos a) ⊎ ((k : ℕ) × (signed w a ≡ negsuc k) × (a + suc k ≡ modulus w))
signed-cases w a p = elim (Bool-cases (ltb (a * 2) (modulus w))) [
  | inl small ↦ inl (rw small)
  | inr large ↦ inr (modulus w - a - 1, rw large, omega arith)
]

-- The converted value is the word that is congruent to the integer.
wrap_unique :
    (w : Width) (z : ℤ) (r : ℕ)
    → Fits w r
    → narrow w (r + neg_part z) ≡ narrow w (pos_part z)
    → wrap (modulus w) z ≡ r
wrap_unique w8 z r p e = ground arith
wrap_unique w16 z r p e = ground arith
wrap_unique w32 z r p e = ground arith
wrap_unique w64 z r p e = ground arith

-- The same, when the difference is a multiple of the modulus on either side.
wrap_product :
    (w : Width) (x y : ℤ) (n s t : ℕ)
    → n + (pos_part x * neg_part y + neg_part x * pos_part y) + modulus w * s
      ≡ pos_part x * pos_part y + neg_part x * neg_part y + modulus w * t
    → wrap (modulus w) (x *ℤ y) ≡ narrow w n
wrap_product w8 x y n s t e =
    wrap_unique w8 (x *ℤ y) (narrow w8 n) (omega arith) (omega (arith, *ℤ_parts x y))
wrap_product w16 x y n s t e =
    wrap_unique w16 (x *ℤ y) (narrow w16 n) (omega arith) (omega (arith, *ℤ_parts x y))
wrap_product w32 x y n s t e =
    wrap_unique w32 (x *ℤ y) (narrow w32 n) (omega arith) (omega (arith, *ℤ_parts x y))
wrap_product w64 x y n s t e =
    wrap_unique w64 (x *ℤ y) (narrow w64 n) (omega arith) (omega (arith, *ℤ_parts x y))

-- `a` and `m` make up the modulus.
pub complement_left : (M a m b : ℕ) → a + m ≡ M → a * b + m * b ≡ M * b
complement_left M a m b e = omega (arith, ap (λ t. t * b) e)

complement_both : (M a m b n : ℕ) → a + m ≡ M → b + n ≡ M → a * b + M * (m + n) ≡ m * n + M * M
complement_both M a m b n e f =
    omega (arith, complement_left M a m b e, ap (λ t. m * t) f, ap (λ t. M * t) f)

-- A product of signed readings is congruent to the product of the words.
pub signed_product :
    (w : Width) (a b : ℕ)
    → Fits w a
    → Fits w b
    → wrap (modulus w) (signed w a *ℤ signed w b) ≡ narrow w (a * b)
signed_product w a b p q = elim (signed-cases w a p) [
  | inl x ↦ elim (signed-cases w b q) [
    | inl y ↦ rw (x, y) (wrap_product w (pos a) (pos b) (a * b) 0 0 (omega arith))
    | inr (l, y, f) ↦
        rw (x, y)
          (wrap_product w (pos a) (negsuc l) (a * b) 0 a
            (omega (arith, complement_left (modulus w) b (suc l) a f)))
  ]
  | inr (k, x, e) ↦ elim (signed-cases w b q) [
    | inl y ↦
        rw (x, y)
          (wrap_product w (negsuc k) (pos b) (a * b) 0 b
            (omega (arith, complement_left (modulus w) a (suc k) b e)))
    | inr (l, y, f) ↦
        rw (x, y)
          (wrap_product w (negsuc k) (negsuc l) (a * b) (suc k + suc l) (modulus w)
            (omega (arith, complement_both (modulus w) a (suc k) b (suc l) e f)))
  ]
]

-- What `mul_l` returns is the product in the type.
mul_l-eq :
    (w : Width) (a b l : ℕ) → eval_binary_op2 Instruction.mul_l w a b ≡ ok l → l ≡ narrow w (a * b)
unfolding eval_binary_op2
mul_l-eq w8 a b l e = ground arith
mul_l-eq w16 a b l e = ground arith
mul_l-eq w32 a b l e = ground arith
mul_l-eq w64 a b l e = ground arith

-- For words `a` and `b` of every width: `ssmul_h` always returns, and where `mul_l` returns too,
-- the upper half `h` of the first and the result `l` of the second put together are the product of
-- the two signed readings, converted to the type of twice the width.
pub ssmul_h-mul_l :
    (w : Width) (a b l : ℕ)
    → Fits w a
    → Fits w b
    → eval_binary_op2 Instruction.mul_l w a b ≡ ok l
    → (h : ℕ) × (eval_binary_op2 Instruction.ssmul_h w a b ≡ ok h)
      × (wrap (next_modulus w) (signed w a *ℤ signed w b) ≡ h * modulus w + l)
unfolding eval_binary_op2
ssmul_h-mul_l w a b l p q e = (
  _,
  refl,
  halves w (signed w a *ℤ signed w b) ∙ omega (arith, signed_product w a b p q, mul_l-eq w a b l e),
)

-- A mixed product, the first operand read as signed.
mixed_product :
    (w : Width) (a b : ℕ) → Fits w a → wrap (modulus w) (signed w a *ℤ pos b) ≡ narrow w (a * b)
mixed_product w a b p = elim (signed-cases w a p) [
  | inl x ↦ rw x (wrap_product w (pos a) (pos b) (a * b) 0 0 (omega arith))
  | inr (k, x, e) ↦ rw x (
      wrap_product w (negsuc k) (pos b) (a * b) 0 b
        (omega (arith, complement_left (modulus w) a (suc k) b e)))
]

-- For words `a` and `b` of every width: `sumul_h` always returns, and where `mul_l` returns too,
-- the upper half `h` of the first and the result `l` of the second put together are the product of
-- the signed reading of `a` and of `b` itself, converted to the type of twice the width.
pub sumul_h-mul_l :
    (w : Width) (a b l : ℕ)
    → Fits w a
    → Fits w b
    → eval_binary_op2 Instruction.mul_l w a b ≡ ok l
    → (h : ℕ) × (eval_binary_op2 Instruction.sumul_h w a b ≡ ok h)
      × (wrap (next_modulus w) (signed w a *ℤ pos b) ≡ h * modulus w + l)
unfolding eval_binary_op2
sumul_h-mul_l w a b l p q e = (
  _,
  refl,
  halves w (signed w a *ℤ pos b) ∙ omega (arith, mixed_product w a b p, mul_l-eq w a b l e),
)

product-lt : (w : Width) (a b : ℕ) → Fits w a → Fits w b → a * b < next_modulus w
product-lt w8 a b p q = grind arith
product-lt w16 a b p q = grind arith
product-lt w32 a b p q = grind arith
product-lt w64 a b p q = grind arith

uumul_h-eq :
    (w : Width) (a b h : ℕ)
    → Fits w a
    → Fits w b
    → eval_binary_op2 Instruction.uumul_h w a b ≡ ok h
    → h ≡ a * b / modulus w
unfolding eval_binary_op2
uumul_h-eq w8 a b h p q e = ground (arith, product-lt w8 a b)
uumul_h-eq w16 a b h p q e = ground (arith, product-lt w16 a b)
uumul_h-eq w32 a b h p q e = ground (arith, product-lt w32 a b)
uumul_h-eq w64 a b h p q e = ground (arith, product-lt w64 a b)

quotient_remainder : (w : Width) (n : ℕ) → n ≡ n / modulus w * modulus w + narrow w n
quotient_remainder w8 n = omega arith
quotient_remainder w16 n = omega arith
quotient_remainder w32 n = omega arith
quotient_remainder w64 n = omega arith

-- For words `a` and `b` of every width: where `uumul_h` and `mul_l` both return, their results `h`
-- and `l` are the upper and the lower half of the product of `a` and `b`.
pub uumul_h-mul_l :
    (w : Width) (a b h l : ℕ)
    → Fits w a
    → Fits w b
    → eval_binary_op2 Instruction.uumul_h w a b ≡ ok h
    → eval_binary_op2 Instruction.mul_l w a b ≡ ok l
    → a * b ≡ h * modulus w + l
uumul_h-mul_l w a b h l p q e f =
    rw (uumul_h-eq w a b h p q e, mul_l-eq w a b l f) (quotient_remainder w (a * b))
