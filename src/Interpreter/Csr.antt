-- ===== src/Interpreter/Csr.antt =====
-- src/generator/x86_64/helper/interpreter.cpp: the Zicsr extension, with the macro `CSR_OP`, and the
-- rounding modes.
use erap_sbt.Base.{
  ℕ, ◌-◌, ◌/◌, ◌%◌, ◌^◌, ◌*◌, ◌==◌, ◌||◌, if◌then◌else◌, Bool, bit_and, bit_or, Outcome, ok, panics,
  ◌>>=◌,
}
use erap_sbt.Interpreter.Machine.{FrvInst, Registers, assign, update, low}

abbrev pub fcsr_idx : ℕ
fcsr_idx = 65

unfoldable pub evaluate_csr_index : ℕ → Outcome ℕ
evaluate_csr_index csr_id =
    if (csr_id == 1) || (csr_id == 2) || (csr_id == 3) then ok fcsr_idx else panics

pub data CsrOp : Type 0 where
  csrrw csrrs csrrc csrrwi csrrsi csrrci : CsrOp

-- `source`: a register, or the number of the register as an immediate.
abbrev pub csr_source : CsrOp → FrvInst → Registers → ℕ
csr_source csrrw instr regs = regs instr.rs1
csr_source csrrs instr regs = regs instr.rs1
csr_source csrrc instr regs = regs instr.rs1
csr_source csrrwi instr regs = instr.rs1
csr_source csrrsi instr regs = instr.rs1
csr_source csrrci instr regs = instr.rs1

-- `old operation static_cast<uint32_t>(src)`; the complement has 32 bits.
abbrev pub csr_combined : CsrOp → ℕ → ℕ → ℕ
csr_combined csrrw old src = low src
csr_combined csrrs old src = bit_or old (low src)
csr_combined csrrc old src = bit_and old (2 ^ 32 - 1 - low src)
csr_combined csrrwi old src = low src
csr_combined csrrsi old src = bit_or old (low src)
csr_combined csrrci old src = bit_and old (2 ^ 32 - 1 - low src)

unfoldable pub csr_op : CsrOp → FrvInst → Registers → Outcome Registers
unfolding evaluate_csr_index assign
csr_op op instr regs = do
  csr_idx ← evaluate_csr_index instr.imm
  let src = csr_source op instr regs
  read ← assign instr regs (ok (regs csr_idx))
  ok (update read csr_idx (bit_and (csr_combined op (read csr_idx) src) 224))

-- The rounding modes of an instruction's field other than the dynamic one, as x86-64 encodes them.
unfoldable pub static_rounding_mode : ℕ → Outcome ℕ
static_rounding_mode m =
    if (m == 0) || (m == 4)
    then ok 0
    else if m == 1
    then ok (6 * 16 ^ 3)
    else if m == 2
    then ok (2 * 16 ^ 3)
    else if m == 3
    then ok (4 * 16 ^ 3)
    else panics

-- The mode 7 takes bits 5 to 7 of `fcsr`, among which 7 is no mode.
unfoldable pub evaluate_rounding_mode : ℕ → Registers → Bool → Outcome ℕ
unfolding static_rounding_mode
evaluate_rounding_mode m regs is_rm_field =
    if m == 7
    then if is_rm_field then static_rounding_mode (low (regs fcsr_idx) / 32 % 8) else panics
    else static_rounding_mode m
