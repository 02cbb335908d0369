-- ===== src/Interpreter/Access.antt =====
-- src/generator/x86_64/helper/interpreter.cpp: loads and stores.
use erap_sbt.Base.{ℕ, ◌+◌, Outcome, ok}
use erap_sbt.Eval.{w8, w16, w64, modulus, narrow, signed, wrap}
use erap_sbt.Interpreter.Machine.{
  FrvInst, Registers, Memory, assign, low, sign_extend_int64_t, load_bytes, store_bytes,
}

pub data Load : Type 0 where
  ld lw lwu lh lhu lb lbu : Load

pub data Store : Type 0 where
  sd sw sh sb : Store

-- `register_file[instr.rs1] + sign_extend_int64_t(instr.imm)`
abbrev pub address : FrvInst → Registers → ℕ
address instr regs = narrow w64 (regs instr.rs1 + sign_extend_int64_t instr.imm)

-- `*ptr`, converted to 64 bits.
unfoldable pub load_value : Load → Memory → ℕ → ℕ
unfolding load_bytes sign_extend_int64_t
load_value ld mem a = load_bytes 8 mem a
load_value lw mem a = sign_extend_int64_t (load_bytes 4 mem a)
load_value lwu mem a = load_bytes 4 mem a
load_value lh mem a = wrap (modulus w64) (signed w16 (load_bytes 2 mem a))
load_value lhu mem a = load_bytes 2 mem a
load_value lb mem a = wrap (modulus w64) (signed w8 (load_bytes 1 mem a))
load_value lbu mem a = load_bytes 1 mem a

unfoldable pub load : Load → FrvInst → Memory → Registers → Outcome Registers
unfolding load_value assign
load mnem instr mem regs = assign instr regs (ok (load_value mnem mem (address instr regs)))

unfoldable pub store_value : Store → Memory → ℕ → ℕ → Memory
unfolding store_bytes
store_value sd mem a v = store_bytes 8 mem a v
store_value sw mem a v = store_bytes 4 mem a (low v)
store_value sh mem a v = store_bytes 2 mem a (narrow w16 v)
store_value sb mem a v = store_bytes 1 mem a (narrow w8 v)

unfoldable pub store : Store → FrvInst → Memory → Registers → Memory
unfolding store_value
store mnem instr mem regs = store_value mnem mem (address instr regs) (regs instr.rs2)
