-- ===== src/Lifter/Arithmetic.antt =====
-- src/lifter/instructions/arithmetic_logical.cpp, and the comparisons and upper immediates of
-- src/lifter/instruction_parser.cpp.
use erap_sbt.Base.{◌==◌, ◌&&◌, Bool, true, false, if◌then◌else◌, none, some}
use erap_sbt.Base.{ℕ}
use erap_sbt.Ir.IrType.{IrType}
use erap_sbt.Ir.Instruction.{Instruction}
use erap_sbt.Ir.Variable.{operation, SsaVar, immediate?}
use erap_sbt.Interpreter.Machine.{FrvInst}
use erap_sbt.Lifter.Builder.{
  Lift, new_operation, add_var, add_op, add_var_imm, load_immediate, get_from_mapping,
  write_to_mapping, to_op_size, sign_extended,
}

unfoldable pub lift_arithmetical_logical : FrvInst → Instruction → IrType → Lift → Lift
unfolding get_from_mapping to_op_size add_op sign_extended write_to_mapping
lift_arithmetical_logical instr instruction_type op_size l =
    let (rs1, l1) = get_from_mapping instr.rs1 l in
    let (rs2, l2) = get_from_mapping instr.rs2 l1 in
    let (source_one, l3) = to_op_size rs1 op_size l2 in
    let (source_two, l4) = to_op_size rs2 op_size l3 in
    let (result, l5) =
      add_op op_size instruction_type (some source_one.id) (some source_two.id) l4 in
    let (destination, l6) = sign_extended op_size result l5 in
    write_to_mapping destination instr.rd l6

-- `instruction_type == Instruction::add`
abbrev pub is_add : Instruction → Bool
is_add Instruction.add = true
is_add _ = false

abbrev pub is_immediate : SsaVar → Bool
is_immediate v = elim (immediate? v) [ some i ↦ true | none ↦ false ]

unfoldable pub lift_arithmetical_logical_immediate : FrvInst → Instruction → IrType → Lift → Lift
unfolding load_immediate get_from_mapping to_op_size add_op sign_extended write_to_mapping
lift_arithmetical_logical_immediate instr instruction_type op_size l =
    let (imm, l1) = load_immediate instr.imm false l in
    let (rs1, l2) = get_from_mapping instr.rs1 l1 in
    let (source_one, l3) = if is_immediate rs1 then (rs1, l2) else to_op_size rs1 op_size l2 in
    let (result, l4) = add_op op_size instruction_type (some source_one.id) (some imm.id) l3 in
    let (destination, l5) = sign_extended op_size result l4 in
    if (instr.rs1 == 0) && is_add instruction_type
    then write_to_mapping imm instr.rd l1
    else write_to_mapping destination instr.rd l5

-- The second operand of a comparison.
abbrev pub second_operand : Bool → FrvInst → Lift → SsaVar × Lift
second_operand true instr l = load_immediate instr.imm false l
second_operand false instr l = get_from_mapping instr.rs2 l

unfoldable pub lift_slt : FrvInst → Bool → Bool → Lift → Lift
unfolding add_var_imm add_var get_from_mapping load_immediate write_to_mapping
lift_slt instr is_unsigned with_immediate l =
    let (first, l1) = get_from_mapping instr.rs1 l in
    let (second, l2) = second_operand with_immediate instr l1 in
    let (one, l3) = add_var_imm 1 false l2 in
    let (zero, l4) = add_var_imm 0 false l3 in
    let insn = if is_unsigned then Instruction.sltu else Instruction.slt in
    let (destination, l5) =
      add_var IrType.i64
        (operation (record (new_operation insn) {
          in0 = some first.id;
          in1 = some second.id;
          in2 = some one.id;
          in3 = some zero.id;
          out0 = some l4.cur_ssa_id;
        }))
        l4 in
    write_to_mapping destination instr.rd l5

unfoldable pub lift_auipc : FrvInst → ℕ → Lift → Lift
unfolding load_immediate add_var_imm add_op write_to_mapping
lift_auipc instr ip l =
    let (imm, l1) = load_immediate instr.imm false l in
    let (ip_immediate, l2) = add_var_imm ip true l1 in
    let (result, l3) = add_op IrType.i64 Instruction.add (some ip_immediate.id) (some imm.id) l2 in
    write_to_mapping result instr.rd l3

unfoldable pub lift_lui : FrvInst → Lift → Lift
unfolding load_immediate write_to_mapping
lift_lui instr l =
    let (imm, l1) = load_immediate instr.imm false l in write_to_mapping imm instr.rd l1
