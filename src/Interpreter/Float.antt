-- ===== src/Interpreter/Float.antt =====
-- src/generator/x86_64/helper/interpreter.cpp: the instructions of the F and D extensions that move
-- floating-point numbers or look at their bits. Those that compute with `float` and `double` are left
-- out.
use erap_sbt.Base.{
  ℕ, ◌+◌, ◌-◌, ◌^◌, ◌==◌, Bool, if◌then◌else◌, bit_and, bit_or, bit_xor, Outcome, ok,
}
use erap_sbt.Interpreter.Machine.{
  FrvInst, Registers, Memory, update, assign, low, sign_extend_int64_t, load_bytes, store_bytes,
}
use erap_sbt.Interpreter.Access.{address}
use erap_sbt.Interpreter.Classify.{fclass_s, fclass_d}

abbrev pub start_fp_statics : ℕ
start_fp_statics = 33

-- `register_file[i + START_FP_STATICS]`, read and written.
abbrev pub fp_register : Registers → ℕ → ℕ
fp_register regs i = regs (i + start_fp_statics)

abbrev pub set_fp : FrvInst → Registers → ℕ → Outcome Registers
set_fp instr regs v = ok (update regs (instr.rd + start_fp_statics) v)

pub data SignOp : Type 0 where
  fsgnj fsgnjn fsgnjx : SignOp

-- FSGNJ.S, FSGNJN.S and FSGNJX.S on the two registers; `same` is the test `instr.rs1 == instr.rs2`.
unfoldable pub sign_injected_s : SignOp → Bool → ℕ → ℕ → ℕ
sign_injected_s fsgnj same a b =
    if same then a else bit_or (bit_and (low a) 0x7fff_ffff) (bit_and (low b) 0x8000_0000)
sign_injected_s fsgnjn same a b =
    if same
    then bit_xor (low a) 0x8000_0000
    else bit_or (bit_and (low a) 0x7fff_ffff) (bit_and (2 ^ 32 - 1 - low b) 0x8000_0000)
sign_injected_s fsgnjx same a b =
    if same
    then bit_and a 0x7fff_ffff
    else bit_or (bit_and (low a) 0x7fff_ffff)
        (bit_xor (bit_and (low a) 0x8000_0000) (bit_and (low b) 0x8000_0000))

-- FSGNJ.D, FSGNJN.D and FSGNJX.D.
unfoldable pub sign_injected_d : SignOp → Bool → ℕ → ℕ → ℕ
sign_injected_d fsgnj same a b =
    if same then a else bit_or (bit_and a 0x7fff_ffff_ffff_ffff) (bit_and b 0x8000_0000_0000_0000)
sign_injected_d fsgnjn same a b =
    if same
    then bit_xor a 0x8000_0000_0000_0000
    else bit_or (bit_and a 0x7fff_ffff_ffff_ffff) (bit_and (2 ^ 64 - 1 - b) 0x8000_0000_0000_0000)
sign_injected_d fsgnjx same a b =
    if same
    then bit_and a 0x7fff_ffff_ffff_ffff
    else bit_or (bit_and a 0x7fff_ffff_ffff_ffff)
        (bit_xor (bit_and a 0x8000_0000_0000_0000) (bit_and b 0x8000_0000_0000_0000))

pub data FloatOp : Type 0 where
  flw fld fmv_x_w fmv_w_x fmv_x_d fmv_d_x class_of_s class_of_d : FloatOp
  sign_s sign_d : SignOp → FloatOp

unfoldable pub float_op : FloatOp → FrvInst → Memory → Registers → Outcome Registers
unfolding assign sign_extend_int64_t load_bytes sign_injected_s sign_injected_d fclass_s fclass_d
float_op flw instr mem regs = set_fp instr regs (load_bytes 4 mem (address instr regs))
float_op fld instr mem regs = set_fp instr regs (load_bytes 8 mem (address instr regs))
float_op fmv_x_w instr mem regs =
    assign instr regs (ok (sign_extend_int64_t (low (fp_register regs instr.rs1))))
float_op fmv_w_x instr mem regs = set_fp instr regs (low (regs instr.rs1))
float_op fmv_x_d instr mem regs = assign instr regs (ok (fp_register regs instr.rs1))
float_op fmv_d_x instr mem regs = set_fp instr regs (regs instr.rs1)
float_op (sign_s op) instr mem regs = set_fp instr regs (
    sign_injected_s op (instr.rs1 == instr.rs2) (fp_register regs instr.rs1)
      (fp_register regs instr.rs2))
float_op (sign_d op) instr mem regs = set_fp instr regs (
    sign_injected_d op (instr.rs1 == instr.rs2) (fp_register regs instr.rs1)
      (fp_register regs instr.rs2))
float_op class_of_s instr mem regs =
    assign instr regs (ok (fclass_s (low (fp_register regs instr.rs1))))
float_op class_of_d instr mem regs = assign instr regs (ok (fclass_d (fp_register regs instr.rs1)))

-- FSW and FSD.
unfoldable pub fsw : FrvInst → Memory → Registers → Memory
unfolding store_bytes
fsw instr mem regs = store_bytes 4 mem (address instr regs) (low (fp_register regs instr.rs2))

unfoldable pub fsd : FrvInst → Memory → Registers → Memory
unfolding store_bytes
fsd instr mem regs = store_bytes 8 mem (address instr regs) (fp_register regs instr.rs2)
