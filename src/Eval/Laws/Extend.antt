-- ===== src/Eval/Laws/Extend.antt =====
-- src/ir/eval.cpp: a cast undoes an extension, as `process_block` of
-- src/ir/optimizer/const_folding.cpp relies on.
use erap_sbt.Base.{ℕ, suc, ◌+◌, ◌≡◌, ◌≤◌, inl, inr, ok, arith}
use erap_sbt.Base.Int.{negsuc}
use erap_sbt.Ir.Instruction.{Instruction}
use erap_sbt.Eval.Words.{Width, w8, w16, w32, w64, bit_count, modulus, narrow, wrap}
use erap_sbt.Eval.Morph.{eval_morphing_op3}
use erap_sbt.Eval.Laws.Products.{Fits, signed-cases}

-- The two extensions.
pub data Extends : Instruction → Type 0 where
  by_sign : Extends Instruction.sign_extend
  by_zero : Extends Instruction.zero_extend

-- Converting a value to a type and then to one that is not larger.
narrow-narrow :
    (i t : Width) (n : ℕ) → bit_count t ≤ bit_count i → narrow t (narrow i n) ≡ narrow t n
narrow-narrow w8 w8 n h = omega arith
narrow-narrow w8 w16 n h = absurd (omega (arith, h))
narrow-narrow w8 w32 n h = absurd (omega (arith, h))
narrow-narrow w8 w64 n h = absurd (omega (arith, h))
narrow-narrow w16 w8 n h = omega arith
narrow-narrow w16 w16 n h = omega arith
narrow-narrow w16 w32 n h = absurd (omega (arith, h))
narrow-narrow w16 w64 n h = absurd (omega (arith, h))
narrow-narrow w32 w8 n h = omega arith
narrow-narrow w32 w16 n h = omega arith
narrow-narrow w32 w32 n h = omega arith
narrow-narrow w32 w64 n h = absurd (omega (arith, h))
narrow-narrow w64 w8 n h = omega arith
narrow-narrow w64 w16 n h = omega arith
narrow-narrow w64 w32 n h = omega arith
narrow-narrow w64 w64 n h = omega arith

-- The negative values: the complement in the larger type, converted back.
narrow-complement :
    (p i : Width) (k a : ℕ)
    → bit_count p ≤ bit_count i
    → a + suc k ≡ modulus p
    → narrow p (wrap (modulus i) (negsuc k)) ≡ a
narrow-complement w8 w8 k a h e = omega arith
narrow-complement w8 w16 k a h e = omega arith
narrow-complement w8 w32 k a h e = omega arith
narrow-complement w8 w64 k a h e = omega arith
narrow-complement w16 w8 k a h e = absurd (omega (arith, h))
narrow-complement w16 w16 k a h e = omega arith
narrow-complement w16 w32 k a h e = omega arith
narrow-complement w16 w64 k a h e = omega arith
narrow-complement w32 w8 k a h e = absurd (omega (arith, h))
narrow-complement w32 w16 k a h e = absurd (omega (arith, h))
narrow-complement w32 w32 k a h e = omega arith
narrow-complement w32 w64 k a h e = omega arith
narrow-complement w64 w8 k a h e = absurd (omega (arith, h))
narrow-complement w64 w16 k a h e = absurd (omega (arith, h))
narrow-complement w64 w32 k a h e = absurd (omega (arith, h))
narrow-complement w64 w64 k a h e = omega arith

-- The extended value, converted to a type that is not larger than the source's.
narrow-extend :
    (ext : Instruction)
    → Extends ext
    → (p i t : Width) (x y : ℕ) → Fits p x
    → bit_count t ≤ bit_count p
    → eval_morphing_op3 ext p i x ≡ ok y
    → (narrow t y ≡ narrow t x) × (bit_count p ≤ bit_count i)
unfolding eval_morphing_op3
narrow-extend _ by_zero p i t x y f h e = ground (arith, narrow-narrow i t x)
narrow-extend _ by_sign p i t x y f h e = elim (signed-cases p x f) [
  | inl q ↦ ground (arith, narrow-narrow i t x)
  | inr (k, q, r) ↦
      ground (arith, narrow-complement p i k x, narrow-narrow p t (wrap (modulus i) (negsuc k)))
]

-- Where a sign or zero extension of the word `x` from a width to another returns `y`, casting `y` to
-- a type that is not larger than the first one has the same outcome as casting `x` itself.
pub cast-extend :
    (ext : Instruction)
    → Extends ext
    → (p i t : Width) (x y : ℕ) → Fits p x
    → bit_count t ≤ bit_count p
    → eval_morphing_op3 ext p i x ≡ ok y
    → eval_morphing_op3 Instruction.cast i t y ≡ eval_morphing_op3 Instruction.cast p t x
unfolding eval_morphing_op3
cast-extend ext k p i t x y f h e = ground (arith, narrow-extend ext k p i t x y f h e)
