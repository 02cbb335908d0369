-- ===== src/Ir/Variable.antt =====
-- include/ir/variable.h and include/ir/operation.h: the SSA variables of a basic block and the
-- operations that define them. A pointer to a variable is the variable's id, which is unique in its
-- block; a null pointer is `none`. A 64-bit value is a number below 2 ^ 64.
use erap_sbt.Base.{ℕ, Bool, Option, none, some, List, [], ◌∷◌, ◌==◌, if◌then◌else◌}
use erap_sbt.Ir.IrType.{IrType}
use erap_sbt.Ir.Instruction.{Instruction}

pub record ImmInfo : Type 0 where
  pub val : ℕ
  -- true: relative to the base address of the loaded binary.
  pub binary_relative : Bool

pub data RoundingMode : Type 0 where
  to_zero nearest down up : RoundingMode

-- Not rounded, a static mode, or a mode held in a variable.
pub data RoundingInfo : Type 0 where
  not_rounded : RoundingInfo
  mode : RoundingMode → RoundingInfo
  dynamic : Option ℕ → RoundingInfo

pub record Operation : Type 0 where
  pub type : Instruction
  pub in0 : Option ℕ
  pub in1 : Option ℕ
  pub in2 : Option ℕ
  pub in3 : Option ℕ
  pub out0 : Option ℕ
  pub out1 : Option ℕ
  pub rounding_info : RoundingInfo

pub data VarInfo : Type 0 where
  uninitialized : VarInfo
  immediate : ImmInfo → VarInfo
  static : ℕ → VarInfo
  operation : Operation → VarInfo

pub record SsaVar : Type 0 where
  pub id : ℕ
  pub type : IrType
  pub info : VarInfo

-- `set_inputs` with the arguments that are left out null.
abbrev pub set_inputs : Operation → Option ℕ → Option ℕ → Operation
set_inputs op a b = record op { in0 = a; in1 = b; in2 = none; in3 = none }

-- `get_immediate` where `is_immediate` holds.
abbrev pub immediate? : SsaVar → Option ImmInfo
immediate? v = elim v.info [ immediate i ↦ some i | _ ↦ none ]

-- `get_operation` where `is_operation` holds.
abbrev pub operation? : SsaVar → Option Operation
operation? v = elim v.info [ operation op ↦ some op | _ ↦ none ]

-- The variable that an id points to, among some variables of a block.
unfoldable pub find : ℕ → List SsaVar → Option SsaVar
find i [] = none
find i (v ∷ vs) = if v.id == i then some v else find i vs
