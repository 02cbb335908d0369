-- ===== src/Eval/Division.antt =====
-- src/ir/eval.cpp: `eval_div`.
use erap_sbt.Base.{
  ℕ, zero, suc, ◌-◌, ◌/◌, ◌%◌, ◌^◌, ◌==◌, ◌&&◌, Bool, false, if◌then◌else◌, Outcome, ok, panics,
  undefined,
}
use erap_sbt.Base.Int.{ℤ, pos, negsuc}
use erap_sbt.Ir.IrType.{IrType}
use erap_sbt.Ir.Instruction.{Instruction}
use erap_sbt.Eval.Words.{Width, w8, w16, w32, w64, modulus, narrow, signed, wrap, switch_int_types}

abbrev pub negate : ℕ → ℤ
negate zero = pos 0
negate (suc n) = negsuc n

-- `/` and `%` on signed values: rounding towards zero, the remainder with the sign of the dividend.
abbrev pub quotient : ℤ → ℤ → ℤ
quotient (pos a) (pos b) = pos (a / b)
quotient (pos a) (negsuc b) = negate (a / suc b)
quotient (negsuc a) (pos b) = negate (suc a / b)
quotient (negsuc a) (negsuc b) = pos (suc a / suc b)

abbrev pub remainder : ℤ → ℤ → ℤ
remainder (pos a) (pos b) = pos (a % b)
remainder (pos a) (negsuc b) = pos (a % suc b)
remainder (negsuc a) (pos b) = negate (suc a % b)
remainder (negsuc a) (negsuc b) = negate (suc a % suc b)

-- The quotient of the least value by -1 overflows where no promotion makes room for it.
abbrev pub overflows : Width → ℕ → ℕ → Bool
overflows w8 a b = false
overflows w16 a b = false
overflows w32 a b = (a == 2 ^ 31) && (b == 2 ^ 32 - 1)
overflows w64 a b = (a == 2 ^ 63) && (b == 2 ^ 64 - 1)

unfoldable pub eval_div2 : Instruction → Width → ℕ → ℕ → Outcome (ℕ × ℕ)
eval_div2 Instruction.div w a b =
    if b == 0
    then undefined
    else if overflows w a b
    then undefined
    else ok (
      wrap (modulus w) (quotient (signed w a) (signed w b)),
      wrap (modulus w) (remainder (signed w a) (signed w b)),
    )
eval_div2 Instruction.udiv w a b = if b == 0 then undefined else ok (a / b, a % b)
eval_div2 _ w a b = panics

unfoldable pub eval_div : Instruction → IrType → ℕ → ℕ → Outcome (ℕ × ℕ)
unfolding eval_div2
eval_div insn t a b = switch_int_types t (λ w. eval_div2 insn w (narrow w a) (narrow w b))
