-- ===== src/Lifter/Agree.antt =====
-- src/generator/x86_64/helper/interpreter.cpp against src/ir/eval.cpp: where a case of the
-- interpreter has a value, it is the evaluator's, on the operands that the lifter passes.
use erap_sbt.Base.{ℕ, ◌+◌, ◌-◌, ◌^◌, ◌<◌, ◌≡◌, true, false, bit_and, bit_or, bit_xor, ok, arith}
use erap_sbt.Base.Bits.{and_lt, or_lt, xor_lt}
use erap_sbt.Eval.{w32, w64, modulus, narrow, signed}
use erap_sbt.Eval.Laws.Bounds.{wrap-Fits}
use erap_sbt.Interpreter.Integer.{Integer, integer_value}
use erap_sbt.Lifter.Builder.{int64_of}
use erap_sbt.Lifter.CompareRuns.{compared}

-- The case has no other value than `v`.
abbrev pub Only : Integer → ℕ → ℕ → ℕ → ℕ → ℕ → Type 0
Only m pc a b imm v = (u : ℕ) → integer_value m pc a b imm ≡ ok u → u ≡ v

pub word : (n : ℕ) → n < 2 ^ 64 → narrow w64 n ≡ n
word n p = omega arith

extended_word : (imm : ℕ) → int64_of imm < 2 ^ 64
extended_word imm = wrap-Fits w64 (signed w32 imm)

module _ (pc a b imm : ℕ) (p : a < 2 ^ 64) (q : b < 2 ^ 64) (s : imm < 2 ^ 32) where
  pub add-Only : Only Integer.add pc a b imm (narrow w64 (narrow w64 a + narrow w64 b))
  unfolding integer_value
  add-Only u e = ground arith

  pub addi-Only :
      Only Integer.addi pc a b imm (narrow w64 (narrow w64 a + narrow w64 (int64_of imm)))
  unfolding integer_value
  addi-Only u e = ground arith

  pub addw-Only : Only Integer.addw pc a b imm (int64_of (narrow w32 (narrow w32 a + narrow w32 b)))
  unfolding integer_value
  addw-Only u e = ground arith

  pub addiw-Only :
      Only Integer.addiw pc a b imm
        (int64_of (narrow w32 (narrow w32 a + narrow w32 (int64_of imm))))
  unfolding integer_value
  addiw-Only u e = ground arith

  pub sub-Only :
      Only Integer.sub pc a b imm (narrow w64 (narrow w64 a + modulus w64 - narrow w64 b))
  unfolding integer_value
  sub-Only u e = ground arith

  pub subw-Only :
      Only Integer.subw pc a b imm
        (int64_of (narrow w32 (narrow w32 a + modulus w32 - narrow w32 b)))
  unfolding integer_value
  subw-Only u e = ground arith

  pub and-Only : Only Integer.and pc a b imm (narrow w64 (bit_and (narrow w64 a) (narrow w64 b)))
  unfolding integer_value
  and-Only u e = rw (word a p, word b q) (ground (arith, and_lt 64 a b p q))

  pub or-Only : Only Integer.or pc a b imm (narrow w64 (bit_or (narrow w64 a) (narrow w64 b)))
  unfolding integer_value
  or-Only u e = rw (word a p, word b q) (ground (arith, or_lt 64 a b p q))

  pub xor-Only : Only Integer.xor pc a b imm (narrow w64 (bit_xor (narrow w64 a) (narrow w64 b)))
  unfolding integer_value
  xor-Only u e = rw (word a p, word b q) (ground (arith, xor_lt 64 a b p q))

  pub andi-Only :
      Only Integer.andi pc a b imm (narrow w64 (bit_and (narrow w64 a) (narrow w64 (int64_of imm))))
  unfolding integer_value
  andi-Only u e =
      rw (word a p, word (int64_of imm) (extended_word imm))
        (ground (arith, and_lt 64 a (int64_of imm) p (extended_word imm)))

  pub ori-Only :
      Only Integer.ori pc a b imm (narrow w64 (bit_or (narrow w64 a) (narrow w64 (int64_of imm))))
  unfolding integer_value
  ori-Only u e =
      rw (word a p, word (int64_of imm) (extended_word imm))
        (ground (arith, or_lt 64 a (int64_of imm) p (extended_word imm)))

  pub xori-Only :
      Only Integer.xori pc a b imm (narrow w64 (bit_xor (narrow w64 a) (narrow w64 (int64_of imm))))
  unfolding integer_value
  xori-Only u e =
      rw (word a p, word (int64_of imm) (extended_word imm))
        (ground (arith, xor_lt 64 a (int64_of imm) p (extended_word imm)))

  pub lui-Only : Only Integer.lui pc a b imm (int64_of imm)
  unfolding integer_value
  lui-Only u e = ground arith

  pub auipc-Only :
      pc < 2 ^ 64
      → Only Integer.auipc pc a b imm (narrow w64 (narrow w64 pc + narrow w64 (int64_of imm)))
  unfolding integer_value
  auipc-Only h u e = ground arith

  pub sltu-Only : Only Integer.sltu pc a b imm (compared true a b)
  unfolding integer_value
  sltu-Only u e = ground arith

  pub sltiu-Only : Only Integer.sltiu pc a b imm (compared true a (int64_of imm))
  unfolding integer_value
  sltiu-Only u e = ground arith

  pub slt-Only : Only Integer.slt pc a b imm (compared false a b)
  unfolding integer_value
  slt-Only u e = ground arith

  pub slti-Only : Only Integer.slti pc a b imm (compared false a (int64_of imm))
  unfolding integer_value
  slti-Only u e = ground arith
