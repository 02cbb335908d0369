-- ===== src/Lifter/Parse.antt =====
-- src/lifter/instruction_parser.cpp: the lifting of the integer computational instructions, which is
-- chosen by the mnemonic.
use erap_sbt.Base.{ℕ, true, false, Outcome, ok}
use erap_sbt.Ir.IrType.{IrType}
use erap_sbt.Ir.Instruction.{Instruction}
use erap_sbt.Interpreter.Machine.{FrvInst}
use erap_sbt.Interpreter.Integer.{Integer}
use erap_sbt.Lifter.Builder.{Lift}
use erap_sbt.Lifter.Arithmetic.{
  lift_arithmetical_logical, lift_arithmetical_logical_immediate, lift_slt, lift_auipc, lift_lui,
}
use erap_sbt.Lifter.Shifts.{lift_shift, lift_shift_immediate}

abbrev pub binary : Instruction → IrType → FrvInst → Lift → Outcome Lift
binary insn t instr l = ok (lift_arithmetical_logical instr insn t l)

abbrev pub with_imm : Instruction → IrType → FrvInst → Lift → Outcome Lift
with_imm insn t instr l = ok (lift_arithmetical_logical_immediate instr insn t l)

abbrev pub parse_integer : Integer → FrvInst → ℕ → Lift → Outcome Lift
parse_integer Integer.add instr ip l = binary Instruction.add IrType.i64 instr l
parse_integer Integer.addw instr ip l = binary Instruction.add IrType.i32 instr l
parse_integer Integer.addi instr ip l = with_imm Instruction.add IrType.i64 instr l
parse_integer Integer.addiw instr ip l = with_imm Instruction.add IrType.i32 instr l
parse_integer Integer.sub instr ip l = binary Instruction.sub IrType.i64 instr l
parse_integer Integer.subw instr ip l = binary Instruction.sub IrType.i32 instr l
parse_integer Integer.and instr ip l = binary Instruction.and IrType.i64 instr l
parse_integer Integer.andi instr ip l = with_imm Instruction.and IrType.i64 instr l
parse_integer Integer.or instr ip l = binary Instruction.or IrType.i64 instr l
parse_integer Integer.ori instr ip l = with_imm Instruction.or IrType.i64 instr l
parse_integer Integer.xor instr ip l = binary Instruction.xor IrType.i64 instr l
parse_integer Integer.xori instr ip l = with_imm Instruction.xor IrType.i64 instr l
parse_integer Integer.sll instr ip l = lift_shift instr Instruction.shl IrType.i64 l
parse_integer Integer.sllw instr ip l = lift_shift instr Instruction.shl IrType.i32 l
parse_integer Integer.slli instr ip l = lift_shift_immediate instr Instruction.shl IrType.i64 l
parse_integer Integer.slliw instr ip l = lift_shift_immediate instr Instruction.shl IrType.i32 l
parse_integer Integer.srl instr ip l = lift_shift instr Instruction.shr IrType.i64 l
parse_integer Integer.srlw instr ip l = lift_shift instr Instruction.shr IrType.i32 l
parse_integer Integer.srli instr ip l = lift_shift_immediate instr Instruction.shr IrType.i64 l
parse_integer Integer.srliw instr ip l = lift_shift_immediate instr Instruction.shr IrType.i32 l
parse_integer Integer.sra instr ip l = lift_shift instr Instruction.sar IrType.i64 l
parse_integer Integer.sraw instr ip l = lift_shift instr Instruction.sar IrType.i32 l
parse_integer Integer.srai instr ip l = lift_shift_immediate instr Instruction.sar IrType.i64 l
parse_integer Integer.sraiw instr ip l = lift_shift_immediate instr Instruction.sar IrType.i32 l
parse_integer Integer.slti instr ip l = ok (lift_slt instr false true l)
parse_integer Integer.sltiu instr ip l = ok (lift_slt instr true true l)
parse_integer Integer.slt instr ip l = ok (lift_slt instr false false l)
parse_integer Integer.sltu instr ip l = ok (lift_slt instr true false l)
parse_integer Integer.auipc instr ip l = ok (lift_auipc instr ip l)
parse_integer Integer.lui instr ip l = ok (lift_lui instr l)
