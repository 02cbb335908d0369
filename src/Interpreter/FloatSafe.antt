-- ===== src/Interpreter/FloatSafe.antt =====
-- src/generator/x86_64/helper/interpreter.cpp: the instructions that move floating-point numbers keep
-- the registers in range.
use erap_sbt.Base.{ℕ, ◌+◌, Bool, true, false, bit_and, bit_or, bit_xor, ok, arith}
use erap_sbt.Base.Bits.{and_lt, or_lt, xor_lt}
use erap_sbt.Eval.{w64}
use erap_sbt.Eval.Laws.Products.{Fits}
use erap_sbt.Interpreter.Machine.{FrvInst, Registers, Memory, low}
use erap_sbt.Interpreter.Access.{address}
use erap_sbt.Interpreter.Classify.{
  fclass_s, fclass_d, class_s, class_d, fclass_s-class_of, fclass_d-class_of,
}
use erap_sbt.Interpreter.Float.{
  SignOp, FloatOp, sign_injected_s, sign_injected_d, float_op, start_fp_statics, set_fp,
  fp_register,
}
use erap_sbt.Interpreter.Valid.{
  WordRegisters, ByteMemory, Holds, update-WordRegisters, assign-WordRegisters, load_bytes-lt,
}
use erap_sbt.Interpreter.Values.{sign_extend_int64_t-Fits}

low-Fits : (n : ℕ) → Fits w64 (low n)
low-Fits n = omega arith

class_s-Fits : (n : ℕ) → Fits w64 (class_s n)
class_s-Fits n = ground arith

class_d-Fits : (n : ℕ) → Fits w64 (class_d n)
class_d-Fits n = ground arith

fclass_s-Fits : (n : ℕ) → Fits w64 (fclass_s (low n))
fclass_s-Fits n = rw (fclass_s-class_of (low n) (omega arith)) (class_s-Fits (low n))

fclass_d-Fits : (n : ℕ) → Fits w64 n → Fits w64 (fclass_d n)
fclass_d-Fits n h = rw (fclass_d-class_of n h) (class_d-Fits n)

and-Fits : (a b : ℕ) → Fits w64 a → Fits w64 b → Fits w64 (bit_and a b)
and-Fits a b h k = and_lt 64 a b h k

or-Fits : (a b : ℕ) → Fits w64 a → Fits w64 b → Fits w64 (bit_or a b)
or-Fits a b h k = or_lt 64 a b h k

xor-Fits : (a b : ℕ) → Fits w64 a → Fits w64 b → Fits w64 (bit_xor a b)
xor-Fits a b h k = xor_lt 64 a b h k

sign_injected_s-Fits :
    (op : SignOp) (same : Bool) (a b : ℕ) → Fits w64 a → Fits w64 (sign_injected_s op same a b)
unfolding sign_injected_s
sign_injected_s-Fits SignOp.fsgnj true a b h = h
sign_injected_s-Fits SignOp.fsgnj false a b h =
    or-Fits _ _ (and-Fits (low a) _ (low-Fits a) (omega arith))
      (and-Fits (low b) _ (low-Fits b) (omega arith))
sign_injected_s-Fits SignOp.fsgnjn true a b h = xor-Fits (low a) _ (low-Fits a) (omega arith)
sign_injected_s-Fits SignOp.fsgnjn false a b h =
    or-Fits _ _ (and-Fits (low a) _ (low-Fits a) (omega arith))
      (and-Fits _ _ (omega arith) (omega arith))
sign_injected_s-Fits SignOp.fsgnjx true a b h = and-Fits a _ h (omega arith)
sign_injected_s-Fits SignOp.fsgnjx false a b h =
    or-Fits _ _ (and-Fits (low a) _ (low-Fits a) (omega arith)) (
      xor-Fits _ _ (and-Fits (low a) _ (low-Fits a) (omega arith))
        (and-Fits (low b) _ (low-Fits b) (omega arith)))

sign_injected_d-Fits :
    (op : SignOp) (same : Bool) (a b : ℕ)
    → Fits w64 a
    → Fits w64 b
    → Fits w64 (sign_injected_d op same a b)
unfolding sign_injected_d
sign_injected_d-Fits SignOp.fsgnj true a b h k = h
sign_injected_d-Fits SignOp.fsgnj false a b h k =
    or-Fits _ _ (and-Fits a _ h (omega arith)) (and-Fits b _ k (omega arith))
sign_injected_d-Fits SignOp.fsgnjn true a b h k = xor-Fits a _ h (omega arith)
sign_injected_d-Fits SignOp.fsgnjn false a b h k =
    or-Fits _ _ (and-Fits a _ h (omega arith)) (and-Fits _ _ (omega arith) (omega arith))
sign_injected_d-Fits SignOp.fsgnjx true a b h k = and-Fits a _ h (omega arith)
sign_injected_d-Fits SignOp.fsgnjx false a b h k =
    or-Fits _ _ (and-Fits a _ h (omega arith))
      (xor-Fits _ _ (and-Fits a _ h (omega arith)) (and-Fits b _ k (omega arith)))

set_fp-WordRegisters :
    (instr : FrvInst) (regs : Registers) (v : ℕ)
    → WordRegisters regs
    → Fits w64 v
    → Holds WordRegisters (set_fp instr regs v)
set_fp-WordRegisters instr regs v h k =
    update-WordRegisters regs (instr.rd + start_fp_statics) v (ground arith) h k

-- Every instruction that moves a floating-point number or looks at its bits, on registers in range
-- and memory of bytes: the registers after it are in range, register 0 still zero.
pub float_op-WordRegisters :
    (op : FloatOp) (instr : FrvInst) (mem : Memory) (regs : Registers)
    → WordRegisters regs
    → ByteMemory mem
    → Holds WordRegisters (float_op op instr mem regs)
unfolding float_op
float_op-WordRegisters FloatOp.flw instr mem regs h b =
    set_fp-WordRegisters instr regs _ h (omega (arith, load_bytes-lt 4 mem (address instr regs) b))
float_op-WordRegisters FloatOp.fld instr mem regs h b =
    set_fp-WordRegisters instr regs _ h (load_bytes-lt 8 mem (address instr regs) b)
float_op-WordRegisters FloatOp.fmv_x_w instr mem regs h b =
    assign-WordRegisters instr regs (ok _) h (sign_extend_int64_t-Fits _)
float_op-WordRegisters FloatOp.fmv_w_x instr mem regs h b =
    set_fp-WordRegisters instr regs _ h (low-Fits (regs instr.rs1))
float_op-WordRegisters FloatOp.fmv_x_d instr mem regs h b =
    assign-WordRegisters instr regs (ok _) h (h.0 (instr.rs1 + start_fp_statics))
float_op-WordRegisters FloatOp.fmv_d_x instr mem regs h b =
    set_fp-WordRegisters instr regs _ h (h.0 instr.rs1)
float_op-WordRegisters (FloatOp.sign_s op) instr mem regs h b =
    set_fp-WordRegisters instr regs _ h
      (sign_injected_s-Fits op _ _ _ (h.0 (instr.rs1 + start_fp_statics)))
float_op-WordRegisters (FloatOp.sign_d op) instr mem regs h b =
    set_fp-WordRegisters instr regs _ h (
      sign_injected_d-Fits op _ _ _ (h.0 (instr.rs1 + start_fp_statics))
        (h.0 (instr.rs2 + start_fp_statics)))
float_op-WordRegisters FloatOp.class_of_s instr mem regs h b =
    assign-WordRegisters instr regs (ok _) h (fclass_s-Fits (fp_register regs instr.rs1))
float_op-WordRegisters FloatOp.class_of_d instr mem regs h b =
    assign-WordRegisters instr regs (ok _) h (fclass_d-Fits _ (h.0 (instr.rs1 + start_fp_statics)))
