-- ===== src/Interpreter/Tests.antt =====
-- A jump and an atomic operation that the interpreter runs.
use erap_sbt.Base.{panics, ◌↔◌, ℕ, ◌+◌, ◌≡◌, ◌≢◌, refl, true, false, List, Option, some, ok, arith}
use erap_sbt.Interpreter.Machine.{
  FrvInst, Memory, Registers, update, low, sign_extend_int64_t, load_bytes, store_bytes,
}
use erap_sbt.Eval.{w32}
use erap_sbt.Interpreter.Atomic.{AmoOp, amo_op, operation}
use erap_sbt.Interpreter.Classify.{
  fclass_s, fclass_d, class_s, class_d, fclass_s-class_of, fclass_d-class_of,
}
use erap_sbt.Interpreter.Float.{SignOp, FloatOp, float_op}
use erap_sbt.Interpreter.SignInjection.{injected, float_op-sign_s, float_op-sign_d}
use erap_sbt.Interpreter.Csr.{evaluate_rounding_mode}
use erap_sbt.Interpreter.Rounding.{IsReserved, evaluate_rounding_mode-IsReserved}
use erap_sbt.Interpreter.Exchange.{amo_op-exchanges}
use erap_sbt.Interpreter.Handler.{Mnemonic, State, body, Leaves, left}
use erap_sbt.Interpreter.Safe.{IsValid, SyscallFits, Leaves-IsValid}

-- jal x1, 8
abbrev jal : FrvInst
jal = record { rd = 1; rs1 = 0; rs2 = 0; imm = 8 }

abbrev decode : Memory → ℕ → Option (ℕ × Mnemonic × FrvInst)
decode mem pc = some (4, Mnemonic.jal_op, jal)

abbrev silent : List ℕ → Memory → ℕ × Memory
silent args mem = (0, mem)

abbrev entry : ℕ → ℕ
entry pc = pc + 4096

abbrev address : ℕ
address = 4168

abbrev before : State
before = record { registers = λ r. 0; memory = λ a. 0; pc = 64; jump = false; is_cfop = false }

abbrev behind : State
behind = record {
  registers = update (λ r. 0) 1 68;
  memory = λ a. 0;
  pc = 72;
  jump = true;
  is_cfop = true;
}

before-IsValid : IsValid before
before-IsValid = ((λ r. omega arith, refl), λ a. omega arith, omega arith)

silent-SyscallFits : SyscallFits silent
silent-SyscallFits args mem h = (omega arith, h)

jumps : Leaves silent decode entry before address behind
unfolding body
jumps = left refl refl

Leaves-IsValid_example :
    IsValid behind × (behind.is_cfop ≡ true) × (address ≡ entry behind.pc) × (address ≢ 0)
Leaves-IsValid_example = Leaves-IsValid silent silent-SyscallFits decode entry jumps before-IsValid

-- amoadd.w x5, x6, (x0) on memory that holds zeros
abbrev amoadd : FrvInst
amoadd = record { rd = 5; rs1 = 0; rs2 = 6; imm = 0 }

amo_op-exchanges_example :
    amo_op AmoOp.amoadd w32 amoadd (λ a. 0) (λ r. 7)
    ≡ ok (
      update (λ r. 7) 5 (sign_extend_int64_t (load_bytes 4 (λ a. 0) 7)),
      store_bytes 4 (λ a. 0) 7 (operation AmoOp.amoadd w32 (load_bytes 4 (λ a. 0) 7) (low 7)),
    )
amo_op-exchanges_example =
    amo_op-exchanges AmoOp.amoadd amoadd (λ a. 0) (λ r. 7) (λ a. omega arith) refl

-- A signalling NaN, and minus infinity.
fclass_s-class_of_example : fclass_s 0x7fa0_0000 ≡ class_s 0x7fa0_0000
fclass_s-class_of_example = fclass_s-class_of 0x7fa0_0000 (omega arith)

fclass_d-class_of_example : fclass_d 0xfff0_0000_0000_0000 ≡ class_d 0xfff0_0000_0000_0000
fclass_d-class_of_example = fclass_d-class_of 0xfff0_0000_0000_0000 (omega arith)

-- fsgnjn.s f1, f2, f3 and fsgnjx.d f1, f2, f2
abbrev negated : FrvInst
negated = record { rd = 1; rs1 = 2; rs2 = 3; imm = 0 }

abbrev absolute : FrvInst
absolute = record { rd = 1; rs1 = 2; rs2 = 2; imm = 0 }

-- 1.0 as a number of 32 bits in every register, and -1.0 as one of 64 bits.
abbrev ones : Registers
ones r = 0x3f80_0000

abbrev minus_ones : Registers
minus_ones r = 0xbff0_0000_0000_0000

float_op-sign_s_example :
    float_op (FloatOp.sign_s SignOp.fsgnjn) negated (λ a. 0) ones
    ≡ ok (update ones 34 (injected 31 SignOp.fsgnjn 0x3f80_0000 0x3f80_0000))
float_op-sign_s_example =
    float_op-sign_s SignOp.fsgnjn negated (λ a. 0) ones (omega arith) (omega arith)

float_op-sign_d_example :
    float_op (FloatOp.sign_d SignOp.fsgnjx) absolute (λ a. 0) minus_ones
    ≡ ok (
        update minus_ones 34
          (injected 63 SignOp.fsgnjx 0xbff0_0000_0000_0000 0xbff0_0000_0000_0000))
float_op-sign_d_example =
    float_op-sign_d SignOp.fsgnjx absolute (λ a. 0) minus_ones (omega arith) (omega arith)

-- The dynamic mode, with the mode 7 in `fcsr`.
evaluate_rounding_mode-IsReserved_example :
    (evaluate_rounding_mode 7 (λ r. 224) true ≡ panics) ↔ IsReserved 7 (λ r. 224)
evaluate_rounding_mode-IsReserved_example = evaluate_rounding_mode-IsReserved 7 (λ r. 224)
