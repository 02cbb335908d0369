-- ===== src/Interpreter/Control.antt =====
-- src/generator/x86_64/helper/interpreter.cpp: the control transfer instructions.
use erap_sbt.Base.{
  ℕ, ◌+◌, ◌-◌, ◌^◌, ltb, ◌==◌, not, Bool, true, false, if◌then◌else◌, bit_and, Outcome, ok, ◌>>=◌,
}
use erap_sbt.Base.Int.{ltb_ℤ}
use erap_sbt.Eval.{w64, narrow}
use erap_sbt.Interpreter.Machine.{FrvInst, Registers, assign, sign_extend_int64_t, as_int64}

pub data Branch : Type 0 where
  beq bne blt bltu bge bgeu : Branch

-- The registers, `pc`, `jump` and `is_cfop` behind the switch.
pub record Flow : Type 0 where
  pub registers : Registers
  pub pc : ℕ
  pub jump : Bool
  pub is_cfop : Bool

-- The condition of a branch.
unfoldable pub taken? : Branch → ℕ → ℕ → Bool
taken? beq a b = a == b
taken? bne a b = not (a == b)
taken? blt a b = ltb_ℤ (as_int64 a) (as_int64 b)
taken? bltu a b = ltb a b
taken? bge a b = not (ltb_ℤ (as_int64 a) (as_int64 b))
taken? bgeu a b = not (ltb a b)

-- `pc += static_cast<int64_t>(instr.imm)`
abbrev pub relative : ℕ → FrvInst → ℕ
relative pc instr = narrow w64 (pc + sign_extend_int64_t instr.imm)

unfoldable pub branch : Branch → ℕ → FrvInst → Registers → Outcome Flow
unfolding taken?
branch mnem pc instr regs =
    if taken? mnem (regs instr.rs1) (regs instr.rs2)
    then ok (record { registers = regs; pc = relative pc instr; jump = true; is_cfop = true })
    else ok (record { registers = regs; pc = pc; jump = false; is_cfop = true })

-- The address behind an instruction of `r` bytes is put into `rd`.
unfoldable pub jal : ℕ → ℕ → FrvInst → Registers → Outcome Flow
unfolding assign
jal pc r instr regs = do
  linked ← assign instr regs (ok (narrow w64 (pc + r)))
  ok (record { registers = linked; pc = relative pc instr; jump = true; is_cfop = true })

-- The target is computed before `rd` is written.
unfoldable pub jalr : ℕ → ℕ → FrvInst → Registers → Outcome Flow
unfolding assign
jalr pc r instr regs = do
  let jmp_addr = bit_and (relative (regs instr.rs1) instr) (2 ^ 64 - 2)
  linked ← assign instr regs (ok (narrow w64 (pc + r)))
  ok (record { registers = linked; pc = jmp_addr; jump = true; is_cfop = true })
