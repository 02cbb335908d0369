-- ===== src/Interpreter/Machine.antt =====
-- src/generator/x86_64/helper/interpreter.cpp: the state that the interpreter works on. A register
-- holds a number below 2 ^ 64, memory is a function from addresses to bytes, and `int32_t` values are
-- given by their 32 bits. Addresses wrap around; what the operating system does on an address that
-- is not mapped is left out.
use erap_sbt.Base.{
  ℕ, zero, suc, ◌+◌, ◌-◌, ◌*◌, ◌/◌, ◌%◌, ◌^◌, ◌==◌, ◌&&◌, not, ltb, if◌then◌else◌, Outcome, ok,
  undefined, ◌>>=◌,
}
use erap_sbt.Base.Int.{ℤ, pos, negsuc, ltb_ℤ}
use erap_sbt.Eval.{w32, w64, modulus, narrow, signed, wrap}

-- The fields of a decoded instruction that the interpreter reads. `imm` is an `int32_t`.
pub record FrvInst : Type 0 where
  pub rd : ℕ
  pub rs1 : ℕ
  pub rs2 : ℕ
  pub imm : ℕ

abbrev pub Registers : Type 0
Registers = ℕ → ℕ

abbrev pub Memory : Type 0
Memory = ℕ → ℕ

-- `register_file[i] = v`, and a write of one byte.
abbrev pub update : (ℕ → ℕ) → ℕ → ℕ → ℕ → ℕ
update f i v j = if i == j then v else f j

-- `if (instr.rd != 0) register_file[instr.rd] = value`
unfoldable pub assign : FrvInst → Registers → Outcome ℕ → Outcome Registers
assign instr regs value =
    if instr.rd == 0 then ok regs else do v ← value; ok (update regs instr.rd v)

-- `static_cast<uint32_t>`
abbrev pub low : ℕ → ℕ
low n = narrow w32 n

unfoldable pub sign_extend_int64_t : ℕ → ℕ
sign_extend_int64_t v = wrap (modulus w64) (signed w32 v)

-- `static_cast<int64_t>` and `static_cast<int32_t>` of a register.
abbrev pub as_int64 : ℕ → ℤ
as_int64 n = signed w64 n

abbrev pub as_int32 : ℕ → ℤ
as_int32 n = signed w32 (low n)

-- A result of `int` arithmetic, which is undefined out of range.
unfoldable pub int_result : ℤ → Outcome ℕ
int_result z =
    if ltb_ℤ z (pos (2 ^ 31)) && not (ltb_ℤ z (negsuc (2 ^ 31 - 1)))
    then ok (wrap (modulus w32) z)
    else undefined

-- `sign_extend_int64_t` of a result of 32 bits.
abbrev pub extended : Outcome ℕ → Outcome ℕ
extended value = do v ← value; ok (sign_extend_int64_t v)

-- An amount of `bits` or more leaves a shift undefined.
abbrev pub shifted : ℕ → ℕ → ℕ → Outcome ℕ
shifted bits amount value = if ltb amount bits then ok value else undefined

-- The little-endian value of `n` bytes, and its write.
unfoldable pub load_bytes : ℕ → Memory → ℕ → ℕ
load_bytes zero mem a = 0
load_bytes (suc n) mem a = mem a + 256 * load_bytes n mem ((a + 1) % 2 ^ 64)

unfoldable pub store_bytes : ℕ → Memory → ℕ → ℕ → Memory
store_bytes zero mem a v = mem
store_bytes (suc n) mem a v = store_bytes n (update mem a (v % 256)) ((a + 1) % 2 ^ 64) (v / 256)
