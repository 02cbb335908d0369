-- ===== src/Eval/Binary.antt =====
-- src/ir/eval.cpp: `eval_binary_op` and `eval_unary_op`.
use erap_sbt.Base.{
  ℕ, ◌+◌, ◌-◌, ◌*◌, ◌/◌, ◌^◌, bit_and, bit_or, bit_xor, true, false, ltb, if◌then◌else◌, Outcome,
  ok, panics, undefined,
}
use erap_sbt.Base.Int.{ℤ, pos, negsuc, ◌*ℤ◌, ltb_ℤ}
use erap_sbt.Ir.IrType.{IrType}
use erap_sbt.Ir.Instruction.{Instruction}
use erap_sbt.Eval.Words.{
  Width, w8, w16, w64, modulus, next_modulus, promoted_bits, narrow, signed, wrap, switch_int_types,
}

-- `a * b`. The product of two uint16_t is computed in `int`, where it may overflow.
unfoldable pub mul_low : Width → ℕ → ℕ → Outcome ℕ
mul_low w16 a b = if ltb (a * b) (2 ^ 31) then ok (narrow w16 (a * b)) else undefined
mul_low w a b = ok (narrow w (a * b))

-- The upper half of an unsigned product. `uint128` is declared as `__int128`, which is signed, so
-- that the product of two uint64_t may overflow.
unfoldable pub uumul_high : Width → ℕ → ℕ → Outcome ℕ
uumul_high w64 a b =
    if ltb (a * b) (2 ^ 127) then ok (narrow w64 (a * b / modulus w64)) else undefined
uumul_high w a b = ok (narrow w (a * b / modulus w))

-- The upper half of a product that is taken as an integer and converted to the larger type.
unfoldable pub high_half : Width → ℤ → ℕ
high_half w product = narrow w (wrap (next_modulus w) product / modulus w)

-- `a << b` for an amount below the promoted width. In `int` the result has to fit 32 bits.
unfoldable pub shift_left : Width → ℕ → ℕ → Outcome ℕ
shift_left w8 a b = if ltb (a * 2 ^ b) (2 ^ 32) then ok (narrow w8 (a * 2 ^ b)) else undefined
shift_left w16 a b = if ltb (a * 2 ^ b) (2 ^ 32) then ok (narrow w16 (a * 2 ^ b)) else undefined
shift_left w a b = ok (narrow w (a * 2 ^ b))

-- `a >> b` on a signed value, an arithmetic shift (the file's `static_assert`).
abbrev pub shift_signed : ℤ → ℕ → ℤ
shift_signed (pos n) b = pos (n / 2 ^ b)
shift_signed (negsuc n) b = negsuc (n / 2 ^ b)

-- The shifts, whose amount is tested against the promoted width first.
unfoldable pub shift : Instruction → Width → ℕ → ℕ → Outcome ℕ
unfolding shift_left
shift Instruction.shl w a b = shift_left w a b
shift Instruction.shr w a b = ok (narrow w (a / 2 ^ b))
shift Instruction.sar w a b = ok (wrap (modulus w) (shift_signed (signed w a) b))
shift _ w a b = panics

unfoldable pub checked_shift : Instruction → Width → ℕ → ℕ → Outcome ℕ
unfolding shift
checked_shift insn w a b = elim (ltb b (promoted_bits w)) [
  | true ↦ shift insn w a b
  | false ↦ undefined
]

-- `std::max` and `std::min` give the first argument on a tie.
unfoldable pub eval_binary_op2 : Instruction → Width → ℕ → ℕ → Outcome ℕ
unfolding mul_low uumul_high high_half checked_shift ◌*ℤ◌
eval_binary_op2 Instruction.add w a b = ok (narrow w (a + b))
eval_binary_op2 Instruction.sub w a b = ok (narrow w (a + modulus w - b))
eval_binary_op2 Instruction.mul_l w a b = mul_low w a b
eval_binary_op2 Instruction.ssmul_h w a b = ok (high_half w (signed w a *ℤ signed w b))
eval_binary_op2 Instruction.uumul_h w a b = uumul_high w a b
eval_binary_op2 Instruction.sumul_h w a b = ok (high_half w (signed w a *ℤ pos b))
eval_binary_op2 Instruction.shl w a b = checked_shift Instruction.shl w a b
eval_binary_op2 Instruction.shr w a b = checked_shift Instruction.shr w a b
eval_binary_op2 Instruction.sar w a b = checked_shift Instruction.sar w a b
eval_binary_op2 Instruction.or w a b = ok (narrow w (bit_or a b))
eval_binary_op2 Instruction.and w a b = ok (narrow w (bit_and a b))
eval_binary_op2 Instruction.xor w a b = ok (narrow w (bit_xor a b))
eval_binary_op2 Instruction.umax w a b = ok (if ltb a b then b else a)
eval_binary_op2 Instruction.max w a b = ok (if ltb_ℤ (signed w a) (signed w b) then b else a)
eval_binary_op2 Instruction.umin w a b = ok (if ltb b a then b else a)
eval_binary_op2 Instruction.min w a b = ok (if ltb_ℤ (signed w b) (signed w a) then b else a)
eval_binary_op2 _ w a b = panics

unfoldable pub eval_binary_op : Instruction → IrType → ℕ → ℕ → Outcome ℕ
unfolding eval_binary_op2
eval_binary_op insn t a b =
    switch_int_types t (λ w. eval_binary_op2 insn w (narrow w a) (narrow w b))

-- `~val`, converted back.
unfoldable pub eval_unary_op2 : Instruction → Width → ℕ → Outcome ℕ
eval_unary_op2 Instruction.not w val = ok (modulus w - 1 - val)
eval_unary_op2 _ w val = panics

unfoldable pub eval_unary_op : Instruction → IrType → ℕ → Outcome ℕ
unfolding eval_unary_op2
eval_unary_op insn t val = switch_int_types t (λ w. eval_unary_op2 insn w (narrow w val))
