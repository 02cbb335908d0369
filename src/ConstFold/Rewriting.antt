-- ===== src/ConstFold/Rewriting.antt =====
-- src/ir/optimizer/common.cpp: `VarRewriter::apply_to` on the operations that end a block.
use erap_sbt.Base.{ℕ, List, map, Option}
use erap_sbt.Ir.ControlFlow.{
  CfInfo, no_info, cjump_info, ret_info, jump_info, ijump_info, call_info, icall_info, syscall_info,
  CfOp,
}
use erap_sbt.ConstFold.State.{visit_refptr}

abbrev pub visit_inputs : List (ℕ × ℕ) → List (Option ℕ) → List (Option ℕ)
visit_inputs rw vars = map (visit_refptr rw) vars

abbrev pub visit_mapping : List (ℕ × ℕ) → List (Option ℕ × ℕ) → List (Option ℕ × ℕ)
visit_mapping rw mapping = map (λ var. (visit_refptr rw var.0, var.1)) mapping

-- The visitor of the information.
unfoldable pub visit_info : List (ℕ × ℕ) → CfInfo → CfInfo
visit_info rw no_info = no_info
visit_info rw (jump_info i) =
    jump_info (record i { target_inputs = visit_inputs rw i.target_inputs })
visit_info rw (cjump_info i) =
    cjump_info (record i { target_inputs = visit_inputs rw i.target_inputs })
visit_info rw (ijump_info i) = ijump_info (record i { mapping = visit_mapping rw i.mapping })
visit_info rw (ret_info i) = ret_info (record i { mapping = visit_mapping rw i.mapping })
visit_info rw (call_info i) =
    call_info (record i { target_inputs = visit_inputs rw i.target_inputs })
visit_info rw (icall_info i) = icall_info (record i { mapping = visit_mapping rw i.mapping })
visit_info rw (syscall_info i) =
    syscall_info (record i { continuation_mapping = visit_mapping rw i.continuation_mapping })

unfoldable pub apply_to_cf : List (ℕ × ℕ) → CfOp → CfOp
unfolding visit_info
apply_to_cf rw cf = record cf { in_vars = visit_inputs rw cf.in_vars; info = visit_info rw cf.info }

unfoldable pub apply_to_all : List (ℕ × ℕ) → List CfOp → List CfOp
unfolding apply_to_cf
apply_to_all rw ops = map (apply_to_cf rw) ops
