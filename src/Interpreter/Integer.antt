-- ===== src/Interpreter/Integer.antt =====
-- src/generator/x86_64/helper/interpreter.cpp: the integer computational instructions.
use erap_sbt.Base.{
  ℕ, ◌+◌, ◌-◌, ◌*◌, ◌/◌, ◌^◌, ltb, if◌then◌else◌, bit_and, bit_or, bit_xor, Outcome, ok,
}
use erap_sbt.Base.Int.{◌+ℤ◌, ◌-ℤ◌, ltb_ℤ}
use erap_sbt.Eval.{w32, w64, modulus, narrow, signed, wrap}
use erap_sbt.Eval.Binary.{shift_signed}
use erap_sbt.Interpreter.Machine.{
  FrvInst, Registers, assign, low, sign_extend_int64_t, as_int64, as_int32, int_result, extended,
  shifted,
}

-- The cases of section 2.4, without the prefix `FRV_`.
pub data Integer : Type 0 where
  addi addiw add addw sub subw slti sltiu slt sltu andi ori xori and or xor : Integer
  slli srli srai slliw srliw sraiw sll srl sra sllw srlw sraw lui auipc : Integer

-- What a case computes for `register_file[instr.rd]`, at the address `pc`, from the two registers
-- `a` and `b` and the immediate.
unfoldable pub integer_value : Integer → ℕ → ℕ → ℕ → ℕ → Outcome ℕ
unfolding sign_extend_int64_t int_result ◌+ℤ◌ ◌-ℤ◌
integer_value addi pc a b imm = ok (narrow w64 (a + sign_extend_int64_t imm))
integer_value addiw pc a b imm = extended (int_result (as_int32 a +ℤ signed w32 imm))
integer_value add pc a b imm = ok (narrow w64 (a + b))
integer_value addw pc a b imm = extended (int_result (as_int32 a +ℤ as_int32 b))
integer_value sub pc a b imm = ok (narrow w64 (a + modulus w64 - b))
integer_value subw pc a b imm = extended (int_result (as_int32 a -ℤ as_int32 b))
integer_value slti pc a b imm = ok (if ltb_ℤ (as_int64 a) (signed w32 imm) then 1 else 0)
integer_value sltiu pc a b imm = ok (if ltb a (sign_extend_int64_t imm) then 1 else 0)
integer_value slt pc a b imm = ok (if ltb_ℤ (as_int64 a) (as_int64 b) then 1 else 0)
integer_value sltu pc a b imm = ok (if ltb a b then 1 else 0)
integer_value andi pc a b imm = ok (bit_and a (sign_extend_int64_t imm))
integer_value ori pc a b imm = ok (bit_or a (sign_extend_int64_t imm))
integer_value xori pc a b imm = ok (bit_xor a (sign_extend_int64_t imm))
integer_value and pc a b imm = ok (bit_and a b)
integer_value or pc a b imm = ok (bit_or a b)
integer_value xor pc a b imm = ok (bit_xor a b)
integer_value slli pc a b imm = shifted 64 imm (narrow w64 (a * 2 ^ imm))
integer_value srli pc a b imm = shifted 64 imm (a / 2 ^ imm)
integer_value srai pc a b imm = shifted 64 imm (wrap (modulus w64) (shift_signed (as_int64 a) imm))
integer_value slliw pc a b imm = extended (shifted 32 imm (low (low a * 2 ^ imm)))
integer_value srliw pc a b imm = extended (shifted 32 imm (low a / 2 ^ imm))
integer_value sraiw pc a b imm =
    extended (shifted 32 imm (wrap (modulus w32) (shift_signed (as_int32 a) imm)))
integer_value sll pc a b imm = ok (narrow w64 (a * 2 ^ bit_and b 63))
integer_value srl pc a b imm = ok (a / 2 ^ bit_and b 63)
integer_value sra pc a b imm = ok (wrap (modulus w64) (shift_signed (as_int64 a) (bit_and b 63)))
integer_value sllw pc a b imm = ok (sign_extend_int64_t (low (low a * 2 ^ bit_and b 31)))
integer_value srlw pc a b imm = ok (sign_extend_int64_t (low a / 2 ^ bit_and b 31))
integer_value sraw pc a b imm =
    ok (sign_extend_int64_t (wrap (modulus w32) (shift_signed (as_int32 a) (bit_and b 31))))
integer_value lui pc a b imm = ok (sign_extend_int64_t imm)
integer_value auipc pc a b imm = ok (narrow w64 (pc + sign_extend_int64_t imm))

unfoldable pub integer : Integer → ℕ → FrvInst → Registers → Outcome Registers
unfolding integer_value assign
integer mnem pc instr regs =
    assign instr regs (integer_value mnem pc (regs instr.rs1) (regs instr.rs2) instr.imm)
