-- ===== src/Dce/Tests.antt =====
-- The removal of an input, and the marking of side effects, for a block that another one jumps to.
use erap_sbt.Base.{ℕ, ◌≡◌, refl, Bool, false, ◌==◌, List, [], ◌∷◌, length, none, some, ok, arith}
use erap_sbt.Ir.ControlFlow.{CfcInstruction, jump_info, ijump_info, CfOp}
use erap_sbt.Dce.Remove.{remove_indices_sorted, unused_indices}
use erap_sbt.Dce.Remove.Laws.{remove_indices_sorted-unused_indices}
use erap_sbt.Dce.Targets.{is_valid_predecessor, remove_target_inputs}
use erap_sbt.Dce.Targets.Laws.{Feeds, kept_op, remove_target_inputs-is_valid_predecessor}
use erap_sbt.Dce.Targets.Kept.{remove_target_inputs-Feeds}
use erap_sbt.Dce.Marking.{Tracking, visit_cf_and_mark_side_effects}
use erap_sbt.Dce.Marking.Laws.{Marks, reads, visit_cf_and_mark_side_effects-Marks}

abbrev in_use : ℕ → Bool
in_use i = i == 11

abbrev inputs : List ℕ
inputs = 10 ∷ 11 ∷ 12 ∷ []

abbrev to_seven : CfOp
to_seven = record {
  type = CfcInstruction.jump;
  in_vars = [];
  info = jump_info (record { target = some 7; target_inputs = some 0 ∷ some 1 ∷ some 2 ∷ [] });
  lifter_info = none;
}

abbrev away : CfOp
away = record {
  type = CfcInstruction.ijump;
  in_vars = some 3 ∷ none ∷ [];
  info = ijump_info (record { targets = []; jmp_addrs = []; mapping = (some 4, 0) ∷ [] });
  lifter_info = none;
}

abbrev values : List ℕ
values = 20 ∷ 21 ∷ 22 ∷ []

remove_indices_sorted_example :
    remove_indices_sorted values (unused_indices in_use inputs) ≡ ok (21 ∷ [])
remove_indices_sorted_example =
    remove_indices_sorted-unused_indices in_use inputs values refl (omega arith)

remove_target_inputs_example :
    (found : Bool) × (is_valid_predecessor 7 (to_seven ∷ []) ≡ ok found)
    × (remove_target_inputs 7 3 (unused_indices in_use inputs) (to_seven ∷ [])
        ≡ ok (found, kept_op 7 in_use inputs to_seven ∷ []))
remove_target_inputs_example =
    remove_target_inputs-is_valid_predecessor 7 in_use inputs (omega arith) (to_seven ∷ [])
      ((λ _. refl), tt)

remove_target_inputs-Feeds_example :
    (found : Bool) × (cfs' : List CfOp) × (inputs' : List ℕ) × (remove_target_inputs 7 3
        (unused_indices in_use inputs)
        (to_seven ∷ [])
      ≡ ok (found, cfs'))
    × (remove_indices_sorted inputs (unused_indices in_use inputs) ≡ ok inputs')
    × Feeds 7 (length inputs') cfs'
remove_target_inputs-Feeds_example =
    remove_target_inputs-Feeds 7 in_use inputs (omega arith) (to_seven ∷ []) ((λ _. refl), tt)

abbrev untracked : Tracking
untracked = record { marks = λ v. v == 9; visit_queue = none }

visit_cf_and_mark_side_effects_example :
    Marks
      (λ v. reads v (to_seven ∷ away ∷ []))
      untracked
      (visit_cf_and_mark_side_effects (to_seven ∷ away ∷ []) false untracked)
visit_cf_and_mark_side_effects_example =
    visit_cf_and_mark_side_effects-Marks (to_seven ∷ away ∷ []) false untracked (tt, (tt, tt))
