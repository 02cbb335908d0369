-- ===== src/Interpreter/Multiply.antt =====
-- src/generator/x86_64/helper/interpreter.cpp: the M extension. Nothing tests for a divisor that is
-- zero.
use erap_sbt.Base.{ℕ, ◌*◌, ◌/◌, ◌%◌, ◌^◌, ◌==◌, if◌then◌else◌, Outcome, ok, undefined}
use erap_sbt.Base.Int.{ℤ, ◌*ℤ◌}
use erap_sbt.Eval.{Width, w32, w64, modulus, next_modulus, narrow, signed, wrap}
use erap_sbt.Eval.Binary.{shift_signed}
use erap_sbt.Eval.Division.{quotient, remainder, overflows}
use erap_sbt.Interpreter.Machine.{
  FrvInst, Registers, assign, low, as_int64, as_int32, int_result, extended,
}

pub data Multiply : Type 0 where
  mul mulw mulh mulhu mulhsu div divu divw divuw rem remu remw remuw : Multiply

-- `a / b` and `a % b`: at a signed type, and at an unsigned type.
abbrev pub signed_division : (ℤ → ℤ → ℤ) → Width → ℕ → ℕ → Outcome ℕ
signed_division op w a b =
    if b == 0
    then undefined
    else if overflows w a b
    then undefined
    else ok (wrap (modulus w) (op (signed w a) (signed w b)))

abbrev pub unsigned_division : (ℕ → ℕ → ℕ) → ℕ → ℕ → Outcome ℕ
unsigned_division op a b = if b == 0 then undefined else ok (op a b)

unfoldable pub multiply_value : Multiply → ℕ → ℕ → Outcome ℕ
unfolding int_result ◌*ℤ◌
multiply_value mul a b = ok (narrow w64 (a * b))
multiply_value mulw a b = extended (int_result (as_int32 a *ℤ as_int32 b))
multiply_value mulh a b = ok (wrap (modulus w64) (shift_signed (as_int64 a *ℤ as_int64 b) 64))
multiply_value mulhu a b = ok (narrow w64 (a * b / 2 ^ 64))
multiply_value mulhsu a b =
    ok (narrow w64 (wrap (next_modulus w64) (as_int64 a) * b % next_modulus w64 / 2 ^ 64))
multiply_value div a b = signed_division quotient w64 a b
multiply_value divu a b = unsigned_division (λ x y. x / y) a b
multiply_value divw a b = extended (signed_division quotient w32 (low a) (low b))
multiply_value divuw a b = extended (unsigned_division (λ x y. x / y) (low a) (low b))
multiply_value rem a b = signed_division remainder w64 a b
multiply_value remu a b = unsigned_division (λ x y. x % y) a b
multiply_value remw a b = extended (signed_division remainder w32 (low a) (low b))
multiply_value remuw a b = extended (unsigned_division (λ x y. x % y) (low a) (low b))

unfoldable pub multiply : Multiply → FrvInst → Registers → Outcome Registers
unfolding multiply_value assign
multiply mnem instr regs = assign instr regs (multiply_value mnem (regs instr.rs1) (regs instr.rs2))
