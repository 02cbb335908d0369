-- ===== src/Interpreter/Rounding.antt =====
-- src/generator/x86_64/helper/interpreter.cpp: for which rounding modes `evaluate_rounding_mode` aborts.
use erap_sbt.Base.{ℕ, ◌<◌, ◌/◌, ◌%◌, ◌≡◌, ◌≢◌, ◌⊎◌, ◌↔◌, true, panics, arith}
use erap_sbt.Interpreter.Machine.{Registers, low}
use erap_sbt.Interpreter.Csr.{fcsr_idx, static_rounding_mode, evaluate_rounding_mode}

-- The modes 5, 6 and from 8 on, and the dynamic mode 7 where bits 5 to 7 of `fcsr` are above 4.
abbrev pub IsReserved : ℕ → Registers → Type 0
IsReserved m regs = ((4 < m) × (m ≢ 7)) ⊎ ((m ≡ 7) × (4 < low (regs fcsr_idx) / 32 % 8))

static-panics : (m : ℕ) → static_rounding_mode m ≡ panics → 4 < m
unfolding static_rounding_mode
static-panics m e = ground arith

panics-static : (m : ℕ) → 4 < m → static_rounding_mode m ≡ panics
unfolding static_rounding_mode
panics-static m h = ground arith

-- For every mode of an instruction's field and all registers: `evaluate_rounding_mode` aborts exactly
-- if the mode is reserved, or dynamic with a reserved mode in `fcsr`.
pub evaluate_rounding_mode-IsReserved :
    (m : ℕ) (regs : Registers) → (evaluate_rounding_mode m regs true ≡ panics) ↔ IsReserved m regs
unfolding evaluate_rounding_mode
evaluate_rounding_mode-IsReserved m regs = (λ e. ground arith, λ h. ground arith)
