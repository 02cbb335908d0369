-- ===== src/Interpreter/SignInjection.antt =====
-- src/generator/x86_64/helper/interpreter.cpp: the sign injections against a sign and a magnitude.
use erap_sbt.Base.{
  ℕ, ◌+◌, ◌-◌, ◌*◌, ◌/◌, ◌%◌, ◌^◌, ◌<◌, ◌==◌, ◌≡◌, refl, ap, Bool, true, false, bit_xor, ok, arith,
}
use erap_sbt.Base.SignBit.{word, masked, joined, crossed, flipped}
use erap_sbt.Interpreter.Machine.{FrvInst, Registers, Memory, update, low}
use erap_sbt.Interpreter.Float.{
  SignOp, FloatOp, sign_injected_s, sign_injected_d, float_op, fp_register, set_fp,
}

-- The sign that an injection gives to a number with the sign `s`, from one with the sign `t`.
abbrev pub new_sign : SignOp → ℕ → ℕ → ℕ
new_sign SignOp.fsgnj s t = t
new_sign SignOp.fsgnjn s t = 1 - t
new_sign SignOp.fsgnjx s t = (s + t) % 2

abbrev pub injected : ℕ → SignOp → ℕ → ℕ → ℕ
injected k op a b = new_sign op (a / 2 ^ k) (b / 2 ^ k) * 2 ^ k + a % 2 ^ k

parts_s : (a : ℕ) → a ≡ word 31 (a / 2 ^ 31) (a % 2 ^ 31)
parts_s a = omega arith

parts_d : (a : ℕ) → a ≡ word 63 (a / 2 ^ 63) (a % 2 ^ 63)
parts_d a = omega arith

rest_s : (a : ℕ) → a % 2 ^ 31 < 2 ^ 31
rest_s a = omega arith

rest_d : (a : ℕ) → a % 2 ^ 63 < 2 ^ 63
rest_d a = omega arith

low_id : (a : ℕ) → a < 2 ^ 32 → low a ≡ a
low_id a h = omega arith

-- The code's operations give the number, for equal registers and for others.
sign_injected_s-injected :
    (op : SignOp) (same : Bool) (a b : ℕ)
    → a < 2 ^ 32
    → b < 2 ^ 32
    → (same ≡ true → a ≡ b)
    → sign_injected_s op same a b ≡ injected 31 op a b
unfolding sign_injected_s
sign_injected_s-injected SignOp.fsgnj true a b h k e = omega (arith, e refl)
sign_injected_s-injected SignOp.fsgnj false a b h k e =
    rw (low_id a h, low_id b k) (joined 31 parts_s rest_s a b (omega arith))
sign_injected_s-injected SignOp.fsgnjn true a b h k e = omega (
  arith,
  e refl,
  ap (λ x. bit_xor x (2 ^ 31)) (low_id a h),
  flipped 31 parts_s rest_s a (omega arith),
)
sign_injected_s-injected SignOp.fsgnjn false a b h k e =
    rw (low_id a h, low_id b k)
      (omega (arith, joined 31 parts_s rest_s a (2 ^ 32 - 1 - b) (omega arith)))
sign_injected_s-injected SignOp.fsgnjx true a b h k e =
    omega (arith, e refl, masked 31 parts_s rest_s a)
sign_injected_s-injected SignOp.fsgnjx false a b h k e =
    rw (low_id a h, low_id b k) (crossed 31 parts_s rest_s a b (omega arith) (omega arith))

sign_injected_d-injected :
    (op : SignOp) (same : Bool) (a b : ℕ)
    → a < 2 ^ 64
    → b < 2 ^ 64
    → (same ≡ true → a ≡ b)
    → sign_injected_d op same a b ≡ injected 63 op a b
unfolding sign_injected_d
sign_injected_d-injected SignOp.fsgnj true a b h k e = omega (arith, e refl)
sign_injected_d-injected SignOp.fsgnj false a b h k e = joined 63 parts_d rest_d a b (omega arith)
sign_injected_d-injected SignOp.fsgnjn true a b h k e =
    omega (arith, e refl, flipped 63 parts_d rest_d a (omega arith))
sign_injected_d-injected SignOp.fsgnjn false a b h k e =
    omega (arith, joined 63 parts_d rest_d a (2 ^ 64 - 1 - b) (omega arith))
sign_injected_d-injected SignOp.fsgnjx true a b h k e =
    omega (arith, e refl, masked 63 parts_d rest_d a)
sign_injected_d-injected SignOp.fsgnjx false a b h k e =
    crossed 63 parts_d rest_d a b (omega arith) (omega arith)

same_register :
    (regs : Registers) (i j : ℕ) → (i == j) ≡ true → fp_register regs i ≡ fp_register regs j
same_register regs i j e = ap (fp_register regs) (ground arith)

-- FSGNJ.S, FSGNJN.S and FSGNJX.S on registers that hold numbers of 32 bits, whether they are one
-- register or two: the destination gets the magnitude of the first number, with the sign of the
-- second, the opposite sign, or the product of both signs; no other register changes.
pub float_op-sign_s :
    (op : SignOp) (instr : FrvInst) (mem : Memory) (regs : Registers)
    → regs (instr.rs1 + 33) < 2 ^ 32
    → regs (instr.rs2 + 33) < 2 ^ 32
    → float_op (FloatOp.sign_s op) instr mem regs
      ≡ ok (
          update regs
            (instr.rd + 33)
            (injected 31 op (regs (instr.rs1 + 33)) (regs (instr.rs2 + 33))))
unfolding float_op
float_op-sign_s op instr mem regs h k = ap (set_fp instr regs) (
    sign_injected_s-injected op (instr.rs1 == instr.rs2) _ _ h k
      (same_register regs instr.rs1 instr.rs2))

-- FSGNJ.D, FSGNJN.D and FSGNJX.D, whether the two registers are one or two: the destination gets the
-- magnitude of the first number, with the sign of the second, the opposite sign, or the product of
-- both signs; no other register changes.
pub float_op-sign_d :
    (op : SignOp) (instr : FrvInst) (mem : Memory) (regs : Registers)
    → regs (instr.rs1 + 33) < 2 ^ 64
    → regs (instr.rs2 + 33) < 2 ^ 64
    → float_op (FloatOp.sign_d op) instr mem regs
      ≡ ok (
          update regs
            (instr.rd + 33)
            (injected 63 op (regs (instr.rs1 + 33)) (regs (instr.rs2 + 33))))
unfolding float_op
float_op-sign_d op instr mem regs h k = ap (set_fp instr regs) (
    sign_injected_d-injected op (instr.rs1 == instr.rs2) _ _ h k
      (same_register regs instr.rs1 instr.rs2))
