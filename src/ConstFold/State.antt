-- ===== src/ConstFold/State.antt =====
-- The state of `ConstFoldPass` (src/ir/optimizer/const_folding.cpp) while it walks a block, and the
-- members of the class that change it, with the `VarRewriter` of src/ir/optimizer/common.cpp.
use erap_sbt.Base.{
  ℕ, ◌+◌, ◌==◌, Bool, ◌||◌, if◌then◌else◌, List, [], ◌∷◌, Option, none, some, Outcome, ok, panics,
  undefined,
}
use erap_sbt.Ir.IrType.{IrType, is_integer, type_eq}
use erap_sbt.Ir.Instruction.{Instruction}
use erap_sbt.Ir.Variable.{RoundingInfo, not_rounded, mode, dynamic, Operation, immediate, SsaVar}
use erap_sbt.Eval.Binary.{eval_binary_op}

pub record PassState : Type 0 where
  -- The block's counter of ids.
  pub cur_ssa_id : ℕ
  -- The variables of the block in front of `var_index`, the last one first.
  pub before : List SsaVar
  -- The variables of the block behind the current one.
  pub after : List SsaVar
  -- The map of the `VarRewriter`, the latest entry first.
  pub rewrites : List (ℕ × ℕ)

-- A member function: it may change the state, panic, or run into undefined behaviour.
abbrev pub Pass : Type 0 → Type 0
Pass A = PassState → Outcome (A × PassState)

infixl 5 ◌>>=◌
abbrev pub ◌>>=◌ : {A B : Type 0} → Pass A → (A → Pass B) → Pass B
◌>>=◌ m f s = elim (m s) [ ok (a, s') ↦ f a s' | panics ↦ panics | undefined ↦ undefined ]

abbrev pub return : {A : Type 0} → A → Pass A
return a s = ok (a, s)

-- A call that does not touch the pass.
abbrev pub lift : {A : Type 0} → Outcome A → Pass A
lift o s = elim o [ ok a ↦ ok (a, s) | panics ↦ panics | undefined ↦ undefined ]

-- `new_imm`: the variable goes in front of the current one, and `var_index` moves past it.
unfoldable pub new_imm : IrType → ℕ → Bool → Pass SsaVar
new_imm t imm bin_rel s =
    let v : SsaVar = record {
      id = s.cur_ssa_id;
      type = t;
      info = immediate (record { val = imm; binary_relative = bin_rel });
    } in
    ok (v, record s { cur_ssa_id = s.cur_ssa_id + 1; before = v ∷ s.before })

unfoldable pub eval_to_imm : Instruction → IrType → ℕ → ℕ → Bool → Pass SsaVar
unfolding new_imm
eval_to_imm insn t a b bin_rel = do
  result ← lift (eval_binary_op insn t a b)
  new_imm t result bin_rel

-- `replace_var`, which is `VarRewriter::replace`.
unfoldable pub replace_var : SsaVar → SsaVar → Pass (Unit {0})
replace_var var new_var s = ok (tt, record s { rewrites = (var.id, new_var.id) ∷ s.rewrites })

-- `VarRewriter::visit_refptr`.
unfoldable pub rewritten : List (ℕ × ℕ) → ℕ → ℕ
rewritten [] i = i
rewritten ((old, new) ∷ rest) i = if old == i then new else rewritten rest i

abbrev pub visit_refptr : List (ℕ × ℕ) → Option ℕ → Option ℕ
visit_refptr rw none = none
visit_refptr rw (some i) = some (rewritten rw i)

abbrev visit_rounding : List (ℕ × ℕ) → RoundingInfo → RoundingInfo
visit_rounding rw (dynamic v) = dynamic (visit_refptr rw v)
visit_rounding rw (mode m) = mode m
visit_rounding rw not_rounded = not_rounded

-- `VarRewriter::apply_to` on an operation.
unfoldable pub apply_to : List (ℕ × ℕ) → Operation → Operation
apply_to rw op = record op {
  in0 = visit_refptr rw op.in0;
  in1 = visit_refptr rw op.in1;
  in2 = visit_refptr rw op.in2;
  in3 = visit_refptr rw op.in3;
  rounding_info = visit_rounding rw op.rounding_info;
}

-- `can_handle_types`, for one type of the list.
unfoldable pub can_handle_type : IrType → Bool
unfolding is_integer type_eq
can_handle_type t = is_integer t || type_eq t IrType.imm
