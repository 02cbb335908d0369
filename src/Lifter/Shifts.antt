-- ===== src/Lifter/Shifts.antt =====
-- src/lifter/instructions/shifts.cpp.
use erap_sbt.Base.{ℕ, if◌then◌else◌, none, some, false, bit_and, Outcome, ok, ◌>>=◌}
use erap_sbt.Ir.IrType.{IrType, type_eq}
use erap_sbt.Ir.Instruction.{Instruction}
use erap_sbt.Ir.Variable.{SsaVar}
use erap_sbt.Interpreter.Machine.{FrvInst}
use erap_sbt.Lifter.Builder.{
  Lift, add_op, add_var_imm, get_from_mapping, get_from_mapping_and_shrink, write_to_mapping,
  sign_extended,
}

unfoldable pub lift_shift_shared : FrvInst → Instruction → IrType → SsaVar → Lift → Outcome Lift
unfolding get_from_mapping_and_shrink add_op sign_extended write_to_mapping
lift_shift_shared instr instruction_type op_size shift_val l = do
  (source, l1) ← get_from_mapping_and_shrink instr.rs1 op_size l
  let (result, l2) = add_op op_size instruction_type (some source.id) (some shift_val.id) l1
  let (destination, l3) = sign_extended op_size result l2
  ok (write_to_mapping destination instr.rd l3)

-- The bits of an amount that count.
abbrev pub amount_mask : IrType → ℕ
amount_mask op_size = if type_eq op_size IrType.i32 then 31 else 63

unfoldable pub lift_shift : FrvInst → Instruction → IrType → Lift → Outcome Lift
unfolding add_var_imm get_from_mapping add_op lift_shift_shared type_eq
lift_shift instr instruction_type op_size l = do
  let (mask, l1) = add_var_imm (amount_mask op_size) false l
  let (rs2, l2) = get_from_mapping instr.rs2 l1
  let (casted_rs2, l3) =
      if type_eq rs2.type op_size
      then (rs2, l2)
      else add_op op_size Instruction.cast (some rs2.id) none l2
  let (masked_count_shifts, l4) =
      add_op op_size Instruction.and (some casted_rs2.id) (some mask.id) l3
  lift_shift_shared instr instruction_type op_size masked_count_shifts l4

unfoldable pub lift_shift_immediate : FrvInst → Instruction → IrType → Lift → Outcome Lift
unfolding add_var_imm lift_shift_shared type_eq
lift_shift_immediate instr instruction_type op_size l = do
  let (shift_amount, l1) = add_var_imm (bit_and instr.imm (amount_mask op_size)) false l
  lift_shift_shared instr instruction_type op_size shift_amount l1
