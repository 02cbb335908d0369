-- ===== src/Ir/Instruction.antt =====
-- include/ir/instruction.h: the operations of the IR, and the classes of operations that
-- src/ir/optimizer/const_folding.cpp tells apart.
use erap_sbt.Base.{Bool, true, false}

-- `_or`, `_and`, `_not` and `_xor` are spelled without the underscore.
pub data Instruction : Type 0 where
  store load add sub mul_l ssmul_h uumul_h sumul_h div udiv shl shr sar : Instruction
  or and not xor cast slt sltu sle seq sign_extend zero_extend setup_stack : Instruction
  umax umin max min fmul fdiv fsqrt fmadd fmsub fnmadd fnmsub convert uconvert : Instruction

unfoldable pub is_unary_op : Instruction → Bool
is_unary_op Instruction.not = true
is_unary_op _ = false

unfoldable pub is_binary_op : Instruction → Bool
is_binary_op Instruction.add = true
is_binary_op Instruction.sub = true
is_binary_op Instruction.mul_l = true
is_binary_op Instruction.ssmul_h = true
is_binary_op Instruction.uumul_h = true
is_binary_op Instruction.sumul_h = true
is_binary_op Instruction.shl = true
is_binary_op Instruction.shr = true
is_binary_op Instruction.sar = true
is_binary_op Instruction.or = true
is_binary_op Instruction.and = true
is_binary_op Instruction.xor = true
is_binary_op Instruction.max = true
is_binary_op Instruction.umax = true
is_binary_op Instruction.min = true
is_binary_op Instruction.umin = true
is_binary_op _ = false

unfoldable pub is_morphing_op : Instruction → Bool
is_morphing_op Instruction.sign_extend = true
is_morphing_op Instruction.zero_extend = true
is_morphing_op Instruction.cast = true
is_morphing_op _ = false

unfoldable pub is_conditional_set : Instruction → Bool
is_conditional_set Instruction.slt = true
is_conditional_set Instruction.sltu = true
is_conditional_set Instruction.sle = true
is_conditional_set Instruction.seq = true
is_conditional_set _ = false

unfoldable pub is_commutative : Instruction → Bool
is_commutative Instruction.add = true
is_commutative Instruction.and = true
is_commutative Instruction.or = true
is_commutative Instruction.xor = true
is_commutative _ = false
