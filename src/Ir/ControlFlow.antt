-- ===== src/Ir/ControlFlow.antt =====
-- include/ir/operation.h and include/ir/basic_block.h: the operations that end a basic block. A
-- pointer to a block is the id of the block, and a null pointer is `none`.
use erap_sbt.Base.{ℕ, Option, none, some, List, Outcome, ok, panics}
use erap_sbt.Ir.Variable.{SsaVar}

pub data CfcInstruction : Type 0 where
  jump ijump cjump call icall return unreachable syscall : CfcInstruction

pub data CjumpType : Type 0 where
  eq neq lt gt slt sgt : CjumpType

pub record JumpInfo : Type 0 where
  pub target : Option ℕ
  pub target_inputs : List (Option ℕ)

pub record CjumpInfo : Type 0 where
  pub type : CjumpType
  pub target : Option ℕ
  pub target_inputs : List (Option ℕ)

pub record IjumpInfo : Type 0 where
  pub targets : List ℕ
  pub jmp_addrs : List ℕ
  pub mapping : List (Option ℕ × ℕ)

pub record CallInfo : Type 0 where
  pub continuation_block : Option ℕ
  pub target : Option ℕ
  pub target_inputs : List (Option ℕ)

pub record IcallInfo : Type 0 where
  pub continuation_block : Option ℕ
  pub mapping : List (Option ℕ × ℕ)
  pub targets : List ℕ
  pub jmp_addrs : List ℕ

pub record RetInfo : Type 0 where
  pub mapping : List (Option ℕ × ℕ)

pub record SyscallInfo : Type 0 where
  pub continuation_block : Option ℕ
  pub continuation_mapping : List (Option ℕ × ℕ)
  pub static_mapping : List ℕ

pub data CfInfo : Type 0 where
  no_info : CfInfo
  cjump_info : CjumpInfo → CfInfo
  ret_info : RetInfo → CfInfo
  jump_info : JumpInfo → CfInfo
  ijump_info : IjumpInfo → CfInfo
  call_info : CallInfo → CfInfo
  icall_info : IcallInfo → CfInfo
  syscall_info : SyscallInfo → CfInfo

pub record LifterInfo : Type 0 where
  pub jump_addr : ℕ
  pub instr_addr : ℕ

-- `lifter_info` is `none` for the empty alternative.
pub record CfOp : Type 0 where
  pub type : CfcInstruction
  pub in_vars : List (Option ℕ)
  pub info : CfInfo
  pub lifter_info : Option LifterInfo

pub record BasicBlock : Type 0 where
  pub id : ℕ
  pub cur_ssa_id : ℕ
  pub control_flow_ops : List CfOp
  pub predecessors : List ℕ
  pub successors : List ℕ
  pub inputs : List ℕ
  pub variables : List SsaVar

-- `std::get`, which throws for another alternative; nothing catches the exception.
abbrev pub get_lifter_info : Option LifterInfo → Outcome LifterInfo
get_lifter_info (some i) = ok i
get_lifter_info none = panics

abbrev pub get_jump : CfInfo → Outcome JumpInfo
get_jump (jump_info i) = ok i
get_jump _ = panics

abbrev pub get_cjump : CfInfo → Outcome CjumpInfo
get_cjump (cjump_info i) = ok i
get_cjump _ = panics

abbrev pub get_call : CfInfo → Outcome CallInfo
get_call (call_info i) = ok i
get_call _ = panics

abbrev pub get_syscall : CfInfo → Outcome SyscallInfo
get_syscall (syscall_info i) = ok i
get_syscall _ = panics
