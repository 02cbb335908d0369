-- ===== src/Lifter/Builder.antt =====
-- src/lifter/lift_utils.cpp: the block that is being built with the variables that hold the
-- registers, and the helpers of the lifter. A pointer to a variable is the variable itself, which
-- does not change after its operation has been set; a register always has a variable. The registers
-- of floating-point numbers and the addresses for debugging are left out.
use erap_sbt.Base.{
  ℕ, zero, suc, ◌==◌, ◌||◌, Bool, false, if◌then◌else◌, Option, none, some, List, ◌∷◌, Outcome, ok,
  panics,
}
use erap_sbt.Base.Int.{ℤ, pos, negsuc}
use erap_sbt.Eval.{w32, w64, modulus, signed, wrap}
use erap_sbt.Ir.IrType.{IrType, type_eq, cast_dir}
use erap_sbt.Ir.Instruction.{Instruction}
use erap_sbt.Ir.Variable.{not_rounded, Operation, VarInfo, immediate, operation, SsaVar}

-- The block with the newest variable first, and `reg_map`.
pub record Lift : Type 0 where
  pub cur_ssa_id : ℕ
  pub variables : List SsaVar
  pub mapping : ℕ → SsaVar

-- `std::make_unique<Operation>`
abbrev pub new_operation : Instruction → Operation
new_operation insn = record {
  type = insn;
  in0 = none;
  in1 = none;
  in2 = none;
  in3 = none;
  out0 = none;
  out1 = none;
  rounding_info = not_rounded;
}

-- `BasicBlock::add_var`, with what the variable holds.
unfoldable pub add_var : IrType → VarInfo → Lift → SsaVar × Lift
add_var t info l =
    let var : SsaVar = record { id = l.cur_ssa_id; type = t; info = info } in
    (var, record l { cur_ssa_id = suc l.cur_ssa_id; variables = var ∷ l.variables })

-- `add_var`, with the operation that is set for it: up to two inputs, and the variable as the output.
unfoldable pub add_op : IrType → Instruction → Option ℕ → Option ℕ → Lift → SsaVar × Lift
unfolding add_var
add_op t insn a b l =
    add_var t
      (operation (record (new_operation insn) { in0 = a; in1 = b; out0 = some l.cur_ssa_id })) l

unfoldable pub add_var_imm : ℕ → Bool → Lift → SsaVar × Lift
unfolding add_var
add_var_imm imm binary_relative l =
    add_var IrType.imm (immediate (record { val = imm; binary_relative = binary_relative })) l

-- The value of an `int32_t` as an `int64_t`.
abbrev pub int64_of : ℕ → ℕ
int64_of imm = wrap (modulus w64) (signed w32 imm)

unfoldable pub load_immediate : ℕ → Bool → Lift → SsaVar × Lift
unfolding add_var_imm
load_immediate imm binary_relative l = add_var_imm (int64_of imm) binary_relative l

unfoldable pub get_from_mapping : ℕ → Lift → SsaVar × Lift
unfolding add_var_imm
get_from_mapping reg_id l = if reg_id == 0 then add_var_imm 0 false l else (l.mapping reg_id, l)

unfoldable pub write_to_mapping : SsaVar → ℕ → Lift → Lift
write_to_mapping var reg_id l =
    if reg_id == 0 then l else record l { mapping = λ r. if reg_id == r then var else l.mapping r }

-- The operation that `convert_type` chooses by the direction of the cast.
abbrev pub conversion : ℤ → Option Instruction
conversion (negsuc n) = none
conversion (pos zero) = some Instruction.cast
conversion (pos (suc n)) = some Instruction.sign_extend

-- A new variable with the conversion of another one, where there is a conversion.
abbrev pub converted : Option Instruction → SsaVar → IrType → Lift → Option (SsaVar × Lift)
converted none var t l = none
converted (some insn) var t l = some (add_op t insn (some var.id) none l)

unfoldable pub convert_type : SsaVar → IrType → Lift → Option (SsaVar × Lift)
unfolding add_op cast_dir type_eq
convert_type var desired_type l =
    if type_eq var.type desired_type || type_eq var.type IrType.imm
    then some (var, l)
    else converted (conversion (cast_dir var.type desired_type)) var desired_type l

-- The test and conversion of an operand: without a conversion a message is printed and the operand
-- stays.
unfoldable pub to_op_size : SsaVar → IrType → Lift → SsaVar × Lift
unfolding convert_type type_eq
to_op_size var op_size l =
    if type_eq var.type op_size
    then (var, l)
    else elim (convert_type var op_size l) [ some done ↦ done | none ↦ (var, l) ]

-- `get_from_mapping_and_shrink`, for an integer type: a failed assertion for a type that is none.
abbrev pub shrunk : ℤ → SsaVar → IrType → Lift → Outcome (SsaVar × Lift)
shrunk (negsuc n) var t l = panics
shrunk (pos zero) var t l = ok (var, l)
shrunk (pos (suc n)) var t l = ok (add_op t Instruction.cast (some var.id) none l)

unfoldable pub get_from_mapping_and_shrink : ℕ → IrType → Lift → Outcome (SsaVar × Lift)
unfolding get_from_mapping add_op cast_dir
get_from_mapping_and_shrink reg_id expected_type l =
    let (value, l1) = get_from_mapping reg_id l in
    shrunk (cast_dir expected_type value.type) value expected_type l1

-- The sign extension of a 32-bit result to a register.
unfoldable pub sign_extended : IrType → SsaVar → Lift → SsaVar × Lift
unfolding add_op type_eq
sign_extended op_size destination l =
    if type_eq op_size IrType.i32
    then add_op IrType.i64 Instruction.sign_extend (some destination.id) none l
    else (destination, l)
