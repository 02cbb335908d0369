-- ===== src/Lifter/AgreeShifts.antt =====
-- src/generator/x86_64/helper/interpreter.cpp against src/ir/eval.cpp: the shifts, by an immediate
-- or a register modulo the width.
use erap_sbt.Base.{
  ℕ, ◌*◌, ◌/◌, ◌%◌, ◌^◌, ◌<◌, ◌≡◌, refl, sym, ◌∙◌, ap, Bool, true, false, ltb, Outcome, ok,
  undefined, arith,
}
use native.Mathlib.Nat.{div-le_self}
use erap_sbt.Base.Bits.{and-mask_5, and-mask_6}
use erap_sbt.Eval.{Width, w32, w64, bit_count, modulus, narrow, signed, wrap}
use erap_sbt.Eval.Binary.{eval_binary_op2, shift_signed}
use erap_sbt.Ir.Instruction.{Instruction}
use erap_sbt.Interpreter.Machine.{shifted, extended, low, sign_extend_int64_t}
use erap_sbt.Interpreter.Integer.{Integer, integer_value}
use erap_sbt.Lifter.Builder.{int64_of}
use erap_sbt.Lifter.Steps.{OpSize, op32, op64}
use erap_sbt.Lifter.Agree.{Only, word}

below : (s m : ℕ) → s < m → ltb s m ≡ true
below s m h = ground arith

allowed : (x : Bool) (o : Outcome ℕ) → x ≡ true → elim x [ true ↦ o | false ↦ undefined ] ≡ o
allowed true o e = refl
allowed false o e = ground arith

-- The evaluator's shifts by an amount below the width.
pub eval_shl :
    (w : Width) (x s : ℕ)
    → OpSize w
    → s < bit_count w
    → eval_binary_op2 Instruction.shl w x s ≡ ok (narrow w (x * 2 ^ s))
unfolding eval_binary_op2
eval_shl _ x s op32 h = allowed (ltb s 32) _ (below s 32 h)
eval_shl _ x s op64 h = allowed (ltb s 64) _ (below s 64 h)

pub eval_shr :
    (w : Width) (x s : ℕ)
    → OpSize w
    → s < bit_count w
    → eval_binary_op2 Instruction.shr w x s ≡ ok (narrow w (x / 2 ^ s))
unfolding eval_binary_op2
eval_shr _ x s op32 h = allowed (ltb s 32) _ (below s 32 h)
eval_shr _ x s op64 h = allowed (ltb s 64) _ (below s 64 h)

pub eval_sar :
    (w : Width) (x s : ℕ)
    → OpSize w
    → s < bit_count w
    → eval_binary_op2 Instruction.sar w x s ≡ ok (wrap (modulus w) (shift_signed (signed w x) s))
unfolding eval_binary_op2
eval_sar _ x s op32 h = allowed (ltb s 32) _ (below s 32 h)
eval_sar _ x s op64 h = allowed (ltb s 64) _ (below s 64 h)

-- A shift of the interpreter with a value has an amount that is its own remainder.
shifted_value :
    (f : ℕ → ℕ) (amount u : ℕ) → shifted 64 amount (f amount) ≡ ok u → u ≡ f (amount % 64)
shifted_value f amount u e = ap_fit (fit amount u (f amount) e)
  where
    fit : (n u v : ℕ) → shifted 64 n v ≡ ok u → (n % 64 ≡ n) × (u ≡ v)
    fit n u v e = ground arith

    ap_fit : (amount % 64 ≡ amount) × (u ≡ f amount) → u ≡ f (amount % 64)
    ap_fit (m, v) = v ∙ ap f (sym m)

extended_value :
    (f : ℕ → ℕ) (amount u : ℕ)
    → extended (shifted 32 amount (f amount)) ≡ ok u
    → u ≡ int64_of (f (amount % 32))
unfolding sign_extend_int64_t
extended_value f amount u e = ap_fit (fit amount u (f amount) e)
  where
    fit : (n u v : ℕ) → extended (shifted 32 n v) ≡ ok u → (n % 32 ≡ n) × (u ≡ int64_of v)
    fit n u v e = ground arith

    ap_fit : (amount % 32 ≡ amount) × (u ≡ int64_of (f amount)) → u ≡ int64_of (f (amount % 32))
    ap_fit (m, v) = v ∙ ap (λ n. int64_of (f n)) (sym m)

quotient_word : (n m : ℕ) → n < 2 ^ 64 → narrow w64 (n / m) ≡ n / m
quotient_word n m p = omega (arith, div-le_self n m)

quotient_low : (n m : ℕ) → narrow w32 (low n / m) ≡ low n / m
quotient_low n m = omega (arith, div-le_self (low n) m)

module _ (pc a b imm : ℕ) (p : a < 2 ^ 64) where
  pub slli-Only : Only Integer.slli pc a b imm (narrow w64 (narrow w64 a * 2 ^ (imm % 64)))
  unfolding integer_value
  slli-Only u e = rw (word a p) (shifted_value (λ n. narrow w64 (a * 2 ^ n)) imm u e)

  pub srli-Only : Only Integer.srli pc a b imm (narrow w64 (narrow w64 a / 2 ^ (imm % 64)))
  unfolding integer_value
  srli-Only u e =
      rw (word a p, quotient_word a (2 ^ (imm % 64)) p) (shifted_value (λ n. a / 2 ^ n) imm u e)

  pub srai-Only :
      Only Integer.srai pc a b imm
        (wrap (modulus w64) (shift_signed (signed w64 (narrow w64 a)) (imm % 64)))
  unfolding integer_value
  srai-Only u e =
      rw (word a p)
        (shifted_value (λ n. wrap (modulus w64) (shift_signed (signed w64 a) n)) imm u e)

  pub slliw-Only :
      Only Integer.slliw pc a b imm (int64_of (narrow w32 (narrow w32 a * 2 ^ (imm % 32))))
  unfolding integer_value
  slliw-Only u e = extended_value (λ n. low (low a * 2 ^ n)) imm u e

  pub srliw-Only :
      Only Integer.srliw pc a b imm (int64_of (narrow w32 (narrow w32 a / 2 ^ (imm % 32))))
  unfolding integer_value
  srliw-Only u e =
      rw (quotient_low a (2 ^ (imm % 32))) (extended_value (λ n. low a / 2 ^ n) imm u e)

  pub sraiw-Only :
      Only Integer.sraiw pc a b imm
        (int64_of (wrap (modulus w32) (shift_signed (signed w32 (narrow w32 a)) (imm % 32))))
  unfolding integer_value
  sraiw-Only u e =
      extended_value (λ n. wrap (modulus w32) (shift_signed (signed w32 (low a)) n)) imm u e

  value_of : (x u : ℕ) → ok x ≡ ok u → u ≡ x
  value_of x u e = ground arith

  pub sll-Only : Only Integer.sll pc a b imm (narrow w64 (narrow w64 a * 2 ^ (b % 64)))
  unfolding integer_value
  sll-Only u e = rw (word a p, ← and-mask_6 b) (value_of _ u e)

  pub srl-Only : Only Integer.srl pc a b imm (narrow w64 (narrow w64 a / 2 ^ (b % 64)))
  unfolding integer_value
  srl-Only u e = rw (word a p, quotient_word a (2 ^ (b % 64)) p, ← and-mask_6 b) (value_of _ u e)

  pub sra-Only :
      Only Integer.sra pc a b imm
        (wrap (modulus w64) (shift_signed (signed w64 (narrow w64 a)) (b % 64)))
  unfolding integer_value
  sra-Only u e = rw (word a p, ← and-mask_6 b) (value_of _ u e)

  pub sllw-Only : Only Integer.sllw pc a b imm (int64_of (narrow w32 (narrow w32 a * 2 ^ (b % 32))))
  unfolding integer_value
  sllw-Only u e = rw (← and-mask_5 b) (value_of _ u e)

  pub srlw-Only : Only Integer.srlw pc a b imm (int64_of (narrow w32 (narrow w32 a / 2 ^ (b % 32))))
  unfolding integer_value
  srlw-Only u e = rw (quotient_low a (2 ^ (b % 32)), ← and-mask_5 b) (value_of _ u e)

  pub sraw-Only :
      Only Integer.sraw pc a b imm
        (int64_of (wrap (modulus w32) (shift_signed (signed w32 (narrow w32 a)) (b % 32))))
  unfolding integer_value
  sraw-Only u e = rw (← and-mask_5 b) (value_of _ u e)
