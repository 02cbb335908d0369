-- ===== src/Lifter/Multiply.antt =====
-- src/lifter/instructions/mul_div.cpp, with the cases of src/lifter/instruction_parser.cpp.
use erap_sbt.Base.{Bool, true, false, if◌then◌else◌, none, some}
use erap_sbt.Ir.IrType.{IrType}
use erap_sbt.Ir.Instruction.{Instruction}
use erap_sbt.Ir.Variable.{operation, SsaVar}
use erap_sbt.Interpreter.Machine.{FrvInst}
use erap_sbt.Interpreter.Multiply.{Multiply}
use erap_sbt.Lifter.Builder.{
  Lift, new_operation, add_var, add_op, get_from_mapping, write_to_mapping, to_op_size,
  sign_extended,
}

unfoldable pub lift_mul : FrvInst → Instruction → IrType → Lift → Lift
unfolding get_from_mapping to_op_size add_op sign_extended write_to_mapping
lift_mul instr instr_type in_type l =
    let (rs1, l1) = get_from_mapping instr.rs1 l in
    let (rs_1, l2) = to_op_size rs1 in_type l1 in
    let (rs2, l3) = get_from_mapping instr.rs2 l2 in
    let (rs_2, l4) = to_op_size rs2 in_type l3 in
    let (result, l5) = add_op in_type instr_type (some rs_1.id) (some rs_2.id) l4 in
    let (dest, l6) = sign_extended in_type result l5 in write_to_mapping dest instr.rd l6

-- The division: its variable is the second output for the remainder.
unfoldable pub add_div : IrType → Bool → Bool → SsaVar → SsaVar → Lift → SsaVar × Lift
unfolding add_var
add_div t is_signed remainder rs_1 rs_2 l =
    add_var t
      (operation (record (new_operation (if is_signed then Instruction.div else Instruction.udiv)) {
        in0 = some rs_1.id;
        in1 = some rs_2.id;
        out0 = if remainder then none else some l.cur_ssa_id;
        out1 = if remainder then some l.cur_ssa_id else none;
      }))
      l

unfoldable pub lift_div : FrvInst → Bool → Bool → IrType → Lift → Lift
unfolding get_from_mapping to_op_size add_div sign_extended write_to_mapping
lift_div instr is_signed remainder in_type l =
    let (rs1, l1) = get_from_mapping instr.rs1 l in
    let (rs_1, l2) = to_op_size rs1 in_type l1 in
    let (rs2, l3) = get_from_mapping instr.rs2 l2 in
    let (rs_2, l4) = to_op_size rs2 in_type l3 in
    let (result, l5) = add_div in_type is_signed remainder rs_1 rs_2 l4 in
    let (dest, l6) = sign_extended in_type result l5 in write_to_mapping dest instr.rd l6

abbrev pub parse_multiply : Multiply → FrvInst → Lift → Lift
parse_multiply Multiply.mul instr l = lift_mul instr Instruction.mul_l IrType.i64 l
parse_multiply Multiply.mulh instr l = lift_mul instr Instruction.ssmul_h IrType.i64 l
parse_multiply Multiply.mulhsu instr l = lift_mul instr Instruction.sumul_h IrType.i64 l
parse_multiply Multiply.mulhu instr l = lift_mul instr Instruction.uumul_h IrType.i64 l
parse_multiply Multiply.mulw instr l = lift_mul instr Instruction.mul_l IrType.i32 l
parse_multiply Multiply.div instr l = lift_div instr true false IrType.i64 l
parse_multiply Multiply.divu instr l = lift_div instr false false IrType.i64 l
parse_multiply Multiply.divw instr l = lift_div instr true false IrType.i32 l
parse_multiply Multiply.divuw instr l = lift_div instr false false IrType.i32 l
parse_multiply Multiply.rem instr l = lift_div instr true true IrType.i64 l
parse_multiply Multiply.remu instr l = lift_div instr false true IrType.i64 l
parse_multiply Multiply.remw instr l = lift_div instr true true IrType.i32 l
parse_multiply Multiply.remuw instr l = lift_div instr false true IrType.i32 l
