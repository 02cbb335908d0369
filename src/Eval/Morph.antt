-- ===== src/Eval/Morph.antt =====
-- src/ir/eval.cpp: `eval_morphing_op`.
use erap_sbt.Base.{ℕ, ltb, if◌then◌else◌, Outcome, ok, panics}
use erap_sbt.Ir.IrType.{IrType}
use erap_sbt.Ir.Instruction.{Instruction}
use erap_sbt.Eval.Words.{Width, bit_count, modulus, narrow, signed, wrap, switch_int_types}

-- `From` and `To` are compared by size at compile time; the wrong direction panics.
unfoldable pub eval_morphing_op3 : Instruction → Width → Width → ℕ → Outcome ℕ
eval_morphing_op3 Instruction.sign_extend from to val =
    if ltb (bit_count to) (bit_count from) then panics else ok (wrap (modulus to) (signed from val))
eval_morphing_op3 Instruction.zero_extend from to val =
    if ltb (bit_count to) (bit_count from) then panics else ok (narrow to val)
eval_morphing_op3 Instruction.cast from to val =
    if ltb (bit_count from) (bit_count to) then panics else ok (narrow to val)
eval_morphing_op3 _ from to val = panics

unfoldable pub eval_morphing_op : Instruction → IrType → IrType → ℕ → Outcome ℕ
unfolding eval_morphing_op3
eval_morphing_op insn from to raw =
    switch_int_types from λ f. switch_int_types to λ t. eval_morphing_op3 insn f t (narrow f raw)
