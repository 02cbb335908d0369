-- ===== src/Lifter/Branches.antt =====
-- src/lifter/instructions/cfc.cpp: the conditional branches. The two operations that end the block
-- have a null target until the blocks are connected, by the address in their `lifter_info`.
use erap_sbt.Base.{ℕ, ◌+◌, Bool, true, false, if◌then◌else◌, Option, none, some, List, [], ◌∷◌}
use erap_sbt.Eval.{w64, narrow}
use erap_sbt.Ir.ControlFlow.{CfcInstruction, CjumpType, cjump_info, jump_info, CfOp}
use erap_sbt.Interpreter.Machine.{FrvInst}
use erap_sbt.Interpreter.Control.{Branch}
use erap_sbt.Lifter.Builder.{Lift, add_var_imm, get_from_mapping, int64_of}

-- The type of the conditional jump.
unfoldable pub jump_type : Branch → CjumpType
jump_type Branch.beq = CjumpType.eq
jump_type Branch.bne = CjumpType.eq
jump_type Branch.blt = CjumpType.slt
jump_type Branch.bge = CjumpType.slt
jump_type Branch.bltu = CjumpType.lt
jump_type Branch.bgeu = CjumpType.lt

unfoldable pub reverse_jumps : Branch → Bool
reverse_jumps Branch.bne = true
reverse_jumps Branch.bge = true
reverse_jumps Branch.bgeu = true
reverse_jumps _ = false

-- The two operations, with their inputs, the address of the instruction and the target's address.
abbrev pub cjump_of : CjumpType → List (Option ℕ) → ℕ → ℕ → CfOp
cjump_of t in_vars ip addr = record {
  type = CfcInstruction.cjump;
  in_vars = in_vars;
  info = cjump_info (record { type = t; target = none; target_inputs = [] });
  lifter_info = some (record { jump_addr = addr; instr_addr = ip });
}

abbrev pub jump_of : List (Option ℕ) → ℕ → ℕ → CfOp
jump_of in_vars ip addr = record {
  type = CfcInstruction.jump;
  in_vars = in_vars;
  info = jump_info (record { target = none; target_inputs = [] });
  lifter_info = some (record { jump_addr = addr; instr_addr = ip });
}

-- The block, the conditional jump and the jump behind it.
unfoldable pub lift_branch : Branch → FrvInst → ℕ → ℕ → Lift → Lift × CfOp × CfOp
unfolding jump_type reverse_jumps add_var_imm get_from_mapping
lift_branch mnem instr ip next_addr l =
    let jump_addr = narrow w64 (int64_of instr.imm + ip) in
    let (jump_addr_variable, l1) = add_var_imm jump_addr true l in
    let (next_addr_var, l2) = add_var_imm next_addr true l1 in
    let uc_jmp_addr = if reverse_jumps mnem then jump_addr else next_addr in
    let uc_jmp_addr_var = if reverse_jumps mnem then jump_addr_variable.id else next_addr_var.id in
    let br_jmp_addr = if reverse_jumps mnem then next_addr else jump_addr in
    let br_jmp_addr_var = if reverse_jumps mnem then next_addr_var.id else jump_addr_variable.id in
    let (rs1, l3) = get_from_mapping instr.rs1 l2 in
    let (rs2, l4) = get_from_mapping instr.rs2 l3 in
    let operands = some rs1.id ∷ some rs2.id ∷ some br_jmp_addr_var ∷ [] in
    (
      l4,
      cjump_of (jump_type mnem) operands ip br_jmp_addr,
      jump_of (some uc_jmp_addr_var ∷ []) ip uc_jmp_addr,
    )
