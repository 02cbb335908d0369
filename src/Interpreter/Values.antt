-- ===== src/Interpreter/Values.antt =====
-- src/generator/x86_64/helper/interpreter.cpp: the values that the instructions compute are words.
use erap_sbt.Base.{
  ℕ, ◌/◌, ◌%◌, ◌==◌, ltb, if◌then◌else◌, Bool, true, false, Outcome, ok, panics, undefined, arith,
}
use native.Mathlib.Nat.{div-le_self, mod-le}
use erap_sbt.Base.Bits.{and_lt, or_lt, xor_lt}
use erap_sbt.Base.Int.{ℤ}
use erap_sbt.Eval.{w32, w64, signed}
use erap_sbt.Eval.Division.{quotient, remainder, overflows}
use erap_sbt.Eval.Laws.Products.{Fits}
use erap_sbt.Eval.Laws.Bounds.{FitsBy, narrow-Fits, wrap-Fits, if-FitsBy}
use erap_sbt.Interpreter.Machine.{sign_extend_int64_t, extended, shifted, Memory}
use erap_sbt.Interpreter.Integer.{Integer, integer_value}
use erap_sbt.Interpreter.Multiply.{Multiply, multiply_value, signed_division, unsigned_division}
use erap_sbt.Interpreter.Access.{Load, load_value}
use erap_sbt.Interpreter.Valid.{ByteMemory, load_bytes-lt}

pub sign_extend_int64_t-Fits : (v : ℕ) → Fits w64 (sign_extend_int64_t v)
unfolding sign_extend_int64_t
sign_extend_int64_t-Fits v = wrap-Fits w64 (signed w32 v)

extended-FitsBy : (value : Outcome ℕ) → FitsBy w64 (extended value)
extended-FitsBy (ok v) = sign_extend_int64_t-Fits v
extended-FitsBy panics = tt
extended-FitsBy undefined = tt

shifted-FitsBy : (bits amount value : ℕ) → Fits w64 value → FitsBy w64 (shifted bits amount value)
shifted-FitsBy bits amount value h = if-FitsBy w64 (ltb amount bits) (ok value) undefined h tt

quotient-Fits : (a b : ℕ) → Fits w64 a → Fits w64 (a / b)
quotient-Fits a b h = omega (arith, div-le_self a b)

bool-Fits : (b : Bool) → Fits w64 (if b then 1 else 0)
bool-Fits true = omega arith
bool-Fits false = omega arith

pub integer_value-FitsBy :
    (m : Integer) (pc a b imm : ℕ)
    → Fits w64 a
    → Fits w64 b
    → FitsBy w64 (integer_value m pc a b imm)
unfolding integer_value
integer_value-FitsBy Integer.addi pc a b imm p q = narrow-Fits w64 _
integer_value-FitsBy Integer.addiw pc a b imm p q = extended-FitsBy _
integer_value-FitsBy Integer.add pc a b imm p q = narrow-Fits w64 _
integer_value-FitsBy Integer.addw pc a b imm p q = extended-FitsBy _
integer_value-FitsBy Integer.sub pc a b imm p q = narrow-Fits w64 _
integer_value-FitsBy Integer.subw pc a b imm p q = extended-FitsBy _
integer_value-FitsBy Integer.slti pc a b imm p q = bool-Fits _
integer_value-FitsBy Integer.sltiu pc a b imm p q = bool-Fits _
integer_value-FitsBy Integer.slt pc a b imm p q = bool-Fits _
integer_value-FitsBy Integer.sltu pc a b imm p q = bool-Fits _
integer_value-FitsBy Integer.andi pc a b imm p q = and_lt 64 a _ p (sign_extend_int64_t-Fits imm)
integer_value-FitsBy Integer.ori pc a b imm p q = or_lt 64 a _ p (sign_extend_int64_t-Fits imm)
integer_value-FitsBy Integer.xori pc a b imm p q = xor_lt 64 a _ p (sign_extend_int64_t-Fits imm)
integer_value-FitsBy Integer.and pc a b imm p q = and_lt 64 a b p q
integer_value-FitsBy Integer.or pc a b imm p q = or_lt 64 a b p q
integer_value-FitsBy Integer.xor pc a b imm p q = xor_lt 64 a b p q
integer_value-FitsBy Integer.slli pc a b imm p q = shifted-FitsBy 64 imm _ (narrow-Fits w64 _)
integer_value-FitsBy Integer.srli pc a b imm p q = shifted-FitsBy 64 imm _ (quotient-Fits a _ p)
integer_value-FitsBy Integer.srai pc a b imm p q = shifted-FitsBy 64 imm _ (wrap-Fits w64 _)
integer_value-FitsBy Integer.slliw pc a b imm p q = extended-FitsBy _
integer_value-FitsBy Integer.srliw pc a b imm p q = extended-FitsBy _
integer_value-FitsBy Integer.sraiw pc a b imm p q = extended-FitsBy _
integer_value-FitsBy Integer.sll pc a b imm p q = narrow-Fits w64 _
integer_value-FitsBy Integer.srl pc a b imm p q = quotient-Fits a _ p
integer_value-FitsBy Integer.sra pc a b imm p q = wrap-Fits w64 _
integer_value-FitsBy Integer.sllw pc a b imm p q = sign_extend_int64_t-Fits _
integer_value-FitsBy Integer.srlw pc a b imm p q = sign_extend_int64_t-Fits _
integer_value-FitsBy Integer.sraw pc a b imm p q = sign_extend_int64_t-Fits _
integer_value-FitsBy Integer.lui pc a b imm p q = sign_extend_int64_t-Fits imm
integer_value-FitsBy Integer.auipc pc a b imm p q = narrow-Fits w64 _

signed_division-FitsBy : (op : ℤ → ℤ → ℤ) (a b : ℕ) → FitsBy w64 (signed_division op w64 a b)
signed_division-FitsBy op a b =
    if-FitsBy w64 (b == 0) undefined _ tt
      (if-FitsBy w64 (overflows w64 a b) undefined _ tt (wrap-Fits w64 _))

remainder-Fits : (a b : ℕ) → Fits w64 a → Fits w64 (a % b)
remainder-Fits a b h = omega (arith, mod-le a b)

unsigned_division-FitsBy :
    (op : ℕ → ℕ → ℕ) (a b : ℕ) → Fits w64 (op a b) → FitsBy w64 (unsigned_division op a b)
unsigned_division-FitsBy op a b h = if-FitsBy w64 (b == 0) undefined (ok (op a b)) tt h

pub multiply_value-FitsBy :
    (m : Multiply) (a b : ℕ) → Fits w64 a → FitsBy w64 (multiply_value m a b)
unfolding multiply_value
multiply_value-FitsBy Multiply.mul a b p = narrow-Fits w64 _
multiply_value-FitsBy Multiply.mulw a b p = extended-FitsBy _
multiply_value-FitsBy Multiply.mulh a b p = wrap-Fits w64 _
multiply_value-FitsBy Multiply.mulhu a b p = narrow-Fits w64 _
multiply_value-FitsBy Multiply.mulhsu a b p = narrow-Fits w64 _
multiply_value-FitsBy Multiply.div a b p = signed_division-FitsBy quotient a b
multiply_value-FitsBy Multiply.divu a b p =
    unsigned_division-FitsBy (λ x y. x / y) a b (quotient-Fits a b p)
multiply_value-FitsBy Multiply.divw a b p = extended-FitsBy _
multiply_value-FitsBy Multiply.divuw a b p = extended-FitsBy _
multiply_value-FitsBy Multiply.rem a b p = signed_division-FitsBy remainder a b
multiply_value-FitsBy Multiply.remu a b p =
    unsigned_division-FitsBy (λ x y. x % y) a b (remainder-Fits a b p)
multiply_value-FitsBy Multiply.remw a b p = extended-FitsBy _
multiply_value-FitsBy Multiply.remuw a b p = extended-FitsBy _

pub load_value-Fits :
    (m : Load) (mem : Memory) (a : ℕ) → ByteMemory mem → Fits w64 (load_value m mem a)
unfolding load_value
load_value-Fits Load.ld mem a h = load_bytes-lt 8 mem a h
load_value-Fits Load.lw mem a h = sign_extend_int64_t-Fits _
load_value-Fits Load.lwu mem a h = omega (arith, load_bytes-lt 4 mem a h)
load_value-Fits Load.lh mem a h = wrap-Fits w64 _
load_value-Fits Load.lhu mem a h = omega (arith, load_bytes-lt 2 mem a h)
load_value-Fits Load.lb mem a h = wrap-Fits w64 _
load_value-Fits Load.lbu mem a h = omega (arith, load_bytes-lt 1 mem a h)
