-- ===== src/Interpreter/Handler.antt =====
-- src/generator/x86_64/helper/interpreter.cpp: `unresolved_ijump_handler` without the instructions
-- that compute with floating-point numbers. The decoder, the table lookup `calc_target` and the system
-- calls are parameters.
use erap_sbt.Base.{
  ℕ, ◌+◌, Bool, true, false, not, ◌||◌, ◌==◌, ◌≡◌, if◌then◌else◌, Option, none, some, List, [], ◌∷◌,
  Outcome, ok, panics, ◌>>=◌,
}
use erap_sbt.Eval.{Width, w64, narrow}
use erap_sbt.Interpreter.Machine.{FrvInst, Registers, Memory, update}
use erap_sbt.Interpreter.Integer.{Integer, integer}
use erap_sbt.Interpreter.Multiply.{Multiply, multiply}
use erap_sbt.Interpreter.Control.{Branch, Flow, branch, jal, jalr}
use erap_sbt.Interpreter.Access.{Load, Store, load, store}
use erap_sbt.Interpreter.Atomic.{AmoOp, amo_op, lrw, lrd, sc}
use erap_sbt.Interpreter.Csr.{CsrOp, csr_op}
use erap_sbt.Interpreter.Float.{FloatOp, float_op, fsw, fsd}

-- The cases of the switch, by group. `amo` and `sc` have the width of their access. The cases that
-- compute with `float` and `double`, from arithmetic to conversions and comparisons, are not in this
-- type: no step of the model decodes one of them. `other` is the default case of the switch.
pub data Mnemonic : Type 0 where
  integer_op : Integer → Mnemonic
  branch_op : Branch → Mnemonic
  load_op : Load → Mnemonic
  store_op : Store → Mnemonic
  multiply_op : Multiply → Mnemonic
  csr : CsrOp → Mnemonic
  float : FloatOp → Mnemonic
  amo : AmoOp → Width → Mnemonic
  store_conditional : Width → Mnemonic
  load_reserved_w load_reserved_d jal_op jalr_op fence fencei ecall fsw_op fsd_op other : Mnemonic

-- The register file, memory, and the local variables `pc`, `jump` and `is_cfop`.
pub record State : Type 0 where
  pub registers : Registers
  pub memory : Memory
  pub pc : ℕ
  pub jump : Bool
  pub is_cfop : Bool

abbrev pub with_registers : State → Outcome Registers → Outcome State
with_registers s registers = do regs ← registers; ok (record s { registers = regs })

abbrev pub with_both : State → Outcome (Registers × Memory) → Outcome State
with_both s both = do (regs, mem) ← both; ok (record s { registers = regs; memory = mem })

abbrev pub with_flow : State → Outcome Flow → Outcome State
with_flow s flow = do
  f ← flow
  ok (record s { registers = f.registers; pc = f.pc; jump = f.jump; is_cfop = f.is_cfop })

-- `if (!jump) pc += r;`
abbrev pub advance : ℕ → State → State
advance r s = if s.jump then s else record s { pc = narrow w64 (s.pc + r) }

-- The condition under which the loop goes on.
abbrev pub goes_on : (ℕ → ℕ) → State → Bool
goes_on calc_target s = not s.is_cfop || (calc_target s.pc == 0)

-- The number of the call and its six arguments.
abbrev pub arguments : Registers → List ℕ
arguments regs = regs 17 ∷ regs 10 ∷ regs 11 ∷ regs 12 ∷ regs 13 ∷ regs 14 ∷ regs 15 ∷ []

module _ (syscall_impl : List ℕ → Memory → ℕ × Memory) where
  abbrev pub environment_call : State → State
  environment_call s =
      let result = syscall_impl (arguments s.registers) s.memory in
      record s { registers = update s.registers 10 result.0; memory = result.1 }

  -- The switch, for an instruction of `r` bytes.
  unfoldable pub execute : Mnemonic → FrvInst → ℕ → State → Outcome State
  unfolding integer multiply branch jal jalr load store amo_op lrw lrd sc csr_op float_op fsw fsd
  execute (integer_op m) instr r s = with_registers s (integer m s.pc instr s.registers)
  execute (branch_op m) instr r s = with_flow s (branch m s.pc instr s.registers)
  execute (load_op m) instr r s = with_registers s (load m instr s.memory s.registers)
  execute (store_op m) instr r s = ok (record s { memory = store m instr s.memory s.registers })
  execute (multiply_op m) instr r s = with_registers s (multiply m instr s.registers)
  execute (csr op) instr r s = with_registers s (csr_op op instr s.registers)
  execute (float op) instr r s = with_registers s (float_op op instr s.memory s.registers)
  execute fsw_op instr r s = ok (record s { memory = fsw instr s.memory s.registers })
  execute fsd_op instr r s = ok (record s { memory = fsd instr s.memory s.registers })
  execute (amo op w) instr r s = with_both s (amo_op op w instr s.memory s.registers)
  execute (store_conditional w) instr r s = with_both s (sc w instr s.memory s.registers)
  execute load_reserved_w instr r s = with_registers s (lrw instr s.memory s.registers)
  execute load_reserved_d instr r s = with_registers s (lrd instr s.memory s.registers)
  execute jal_op instr r s = with_flow s (jal s.pc r instr s.registers)
  execute jalr_op instr r s = with_flow s (jalr s.pc r instr s.registers)
  execute fence instr r s = ok s
  execute fencei instr r s = ok s
  execute ecall instr r s = ok (environment_call s)
  execute other instr r s = panics

  module _ (frv_decode : Memory → ℕ → Option (ℕ × Mnemonic × FrvInst)) where
    abbrev pub dispatch : Option (ℕ × Mnemonic × FrvInst) → State → Outcome State
    dispatch none s = panics
    dispatch (some (r, mnem, instr)) s = do
      after ← execute mnem instr r (record s { jump = false; is_cfop = false })
      ok (advance r after)

    -- One run of the loop's body.
    unfoldable pub body : State → Outcome State
    unfolding execute
    body s = dispatch (frv_decode s.memory s.pc) s

    module _ (calc_target : ℕ → ℕ) where
      -- The loop that has left, with `return_addr` and the state.
      pub data Leaves : State → ℕ → State → Type 0 where
        left :
            {s t : State}
            → body s ≡ ok t
            → goes_on calc_target t ≡ false
            → Leaves s (calc_target t.pc) t
        again :
            {s t u : State} {a : ℕ}
            → body s ≡ ok t
            → goes_on calc_target t ≡ true
            → Leaves t a u
            → Leaves s a u
