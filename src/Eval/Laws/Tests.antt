-- ===== src/Eval/Laws/Tests.antt =====
-- The laws of the evaluator at some words.
use erap_sbt.Base.{ℕ, ◌+◌, ◌*◌, ◌≡◌, refl, arith, ok}
use erap_sbt.Base.Int.{pos, ◌*ℤ◌}
use erap_sbt.Ir.Instruction.{Instruction}
use erap_sbt.Eval.Words.{w8, w16, w64, modulus, next_modulus, signed, wrap}
use erap_sbt.Eval.Binary.{eval_binary_op2}
use erap_sbt.Eval.Morph.{eval_morphing_op3}
use erap_sbt.Eval.Laws.Products.{ssmul_h-mul_l, sumul_h-mul_l, uumul_h-mul_l}
use erap_sbt.Eval.Laws.Extend.{by_sign, cast-extend}

low : eval_binary_op2 Instruction.mul_l w8 200 100 ≡ ok 32
unfolding eval_binary_op2
low = refl

high : eval_binary_op2 Instruction.uumul_h w8 200 100 ≡ ok 78
unfolding eval_binary_op2
high = refl

-- The product of -56 and 100.
ssmul_h-mul_l_example :
    (h : ℕ) × (eval_binary_op2 Instruction.ssmul_h w8 200 100 ≡ ok h)
    × (wrap (next_modulus w8) (signed w8 200 *ℤ signed w8 100) ≡ h * modulus w8 + 32)
ssmul_h-mul_l_example = ssmul_h-mul_l w8 200 100 32 (omega arith) (omega arith) low

sumul_h-mul_l_example :
    (h : ℕ) × (eval_binary_op2 Instruction.sumul_h w8 200 100 ≡ ok h)
    × (wrap (next_modulus w8) (signed w8 200 *ℤ pos 100) ≡ h * modulus w8 + 32)
sumul_h-mul_l_example = sumul_h-mul_l w8 200 100 32 (omega arith) (omega arith) low

uumul_h-mul_l_example : 200 * 100 ≡ 78 * modulus w8 + 32
uumul_h-mul_l_example = uumul_h-mul_l w8 200 100 78 32 (omega arith) (omega arith) high low

extended : eval_morphing_op3 Instruction.sign_extend w16 w64 65531 ≡ ok 18446744073709551611
unfolding eval_morphing_op3
extended = refl

cast-extend_example :
    eval_morphing_op3 Instruction.cast w64 w8 18446744073709551611
    ≡ eval_morphing_op3 Instruction.cast w16 w8 65531
cast-extend_example =
    cast-extend Instruction.sign_extend by_sign w16 w64 w8 65531 18446744073709551611 (omega arith)
      (omega arith) extended
