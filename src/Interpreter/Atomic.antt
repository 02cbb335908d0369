-- ===== src/Interpreter/Atomic.antt =====
-- src/generator/x86_64/helper/interpreter.cpp: the A extension, with the macro `AMO_OP`.
use erap_sbt.Base.{ℕ, ◌+◌, ltb, if◌then◌else◌, bit_and, bit_or, bit_xor, Outcome, ok, ◌>>=◌}
use erap_sbt.Base.Int.{ltb_ℤ}
use erap_sbt.Eval.{Width, w8, w16, w32, w64, narrow, signed}
use erap_sbt.Interpreter.Machine.{
  FrvInst, Registers, Memory, assign, low, sign_extend_int64_t, load_bytes, store_bytes,
}

pub data AmoOp : Type 0 where
  amoswap amoadd amoand amoor amoxor amomax amomaxu amomin amominu : AmoOp

-- The macro `operation` of a case, at the case's `type`.
unfoldable pub operation : AmoOp → Width → ℕ → ℕ → ℕ
operation amoswap w val1 val2 = val2
operation amoadd w val1 val2 = narrow w (val1 + val2)
operation amoand w val1 val2 = bit_and val1 val2
operation amoor w val1 val2 = bit_or val1 val2
operation amoxor w val1 val2 = bit_xor val1 val2
operation amomax w val1 val2 = if ltb_ℤ (signed w val2) (signed w val1) then val1 else val2
operation amomaxu w val1 val2 = if ltb val2 val1 then val1 else val2
operation amomin w val1 val2 = if ltb_ℤ (signed w val1) (signed w val2) then val1 else val2
operation amominu w val1 val2 = if ltb val1 val2 then val1 else val2

-- The bytes of `ptr_type`; the instructions have 4 or 8.
abbrev pub bytes : Width → ℕ
bytes w8 = 1
bytes w16 = 2
bytes w32 = 4
bytes w64 = 8

-- The parameter of `sign_extend_int64_t` is an `int32_t` for both types. The first operand is read
-- from `register_file[instr.rd]` again.
unfoldable pub amo_op : AmoOp → Width → FrvInst → Memory → Registers → Outcome (Registers × Memory)
unfolding operation load_bytes store_bytes assign
amo_op op w instr mem regs = do
  let ptr = regs instr.rs1
  let rs2_val = narrow w (regs instr.rs2)
  loaded ← assign instr regs (ok (sign_extend_int64_t (low (load_bytes (bytes w) mem ptr))))
  ok (loaded, store_bytes (bytes w) mem ptr (operation op w (narrow w (loaded instr.rd)) rs2_val))

unfoldable pub lrw : FrvInst → Memory → Registers → Outcome Registers
unfolding load_bytes assign
lrw instr mem regs =
    assign instr regs (ok (sign_extend_int64_t (load_bytes 4 mem (regs instr.rs1))))

unfoldable pub lrd : FrvInst → Memory → Registers → Outcome Registers
unfolding load_bytes assign
lrd instr mem regs = assign instr regs (ok (load_bytes 8 mem (regs instr.rs1)))

-- `FRV_SCW` and `FRV_SCD`, which always succeed.
unfoldable pub sc : Width → FrvInst → Memory → Registers → Outcome (Registers × Memory)
unfolding store_bytes assign
sc w instr mem regs = do
  written ← assign instr regs (ok 0)
  ok (written, store_bytes (bytes w) mem (regs instr.rs1) (narrow w (regs instr.rs2)))
