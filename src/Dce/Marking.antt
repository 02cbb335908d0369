-- ===== src/Dce/Marking.antt =====
-- src/ir/optimizer/dce.cpp: marking the variables that have a side effect.
pub mod Laws
use erap_sbt.Base.{
  ℕ, Bool, true, false, ◌||◌, ◌==◌, if◌then◌else◌, List, [], ◌∷◌, ◌++◌, length, Option, none, some,
  Outcome, ok, panics, undefined, ◌>>=◌,
}
use erap_sbt.Ir.ControlFlow.{
  CfcInstruction, CfInfo, IjumpInfo, IcallInfo, RetInfo, ijump_info, icall_info, ret_info, CfOp,
  BasicBlock, get_jump, get_cjump, get_call, get_syscall,
}

-- `track_buf`, by the ids of variables, and `visit_queue` with its last entry first, which may be null.
-- `dce` gives the vector `cur_ssa_id` entries, one for each variable of the block, so that no index is
-- out of range; here every id has an entry.
pub record Tracking : Type 0 where
  pub marks : ℕ → Bool
  pub visit_queue : Option (List ℕ)

abbrev push_back : Option (List ℕ) → ℕ → Option (List ℕ)
push_back (some queue) var = some (var ∷ queue)
push_back none var = none

unfoldable pub mark : ℕ → Tracking → Bool × Tracking
mark var t = if t.marks var then (false, t) else (
  true,
  record {
    marks = λ v. if v == var then true else t.marks v;
    visit_queue = push_back t.visit_queue var;
  },
)

-- Marking several variables, with `has_changed`.
unfoldable pub mark_each : List (Option ℕ) → Bool → Tracking → Outcome (Bool × Tracking)
unfolding mark
mark_each [] has_changed t = ok (has_changed, t)
mark_each (none ∷ vars) has_changed t = undefined
mark_each (some var ∷ vars) has_changed t =
    mark_each vars (has_changed || (mark var t).0) (mark var t).1

abbrev pub not_null : List (Option ℕ) → List (Option ℕ)
not_null [] = []
not_null (none ∷ vars) = not_null vars
not_null (some var ∷ vars) = some var ∷ not_null vars

abbrev pub firsts : List (Option ℕ × ℕ) → List (Option ℕ)
firsts [] = []
firsts ((var, i) ∷ mapping) = var ∷ firsts mapping

abbrev get_ijump : CfInfo → Outcome IjumpInfo
get_ijump (ijump_info i) = ok i
get_ijump _ = panics

abbrev get_icall : CfInfo → Outcome IcallInfo
get_icall (icall_info i) = ok i
get_icall _ = panics

abbrev get_ret : CfInfo → Outcome RetInfo
get_ret (ret_info i) = ok i
get_ret _ = panics

-- The mapping of an operation that leaves the known blocks.
unfoldable pub mapped_vars : CfcInstruction → CfInfo → Outcome (List (Option ℕ))
mapped_vars CfcInstruction.ijump info = do i ← get_ijump info; ok (firsts i.mapping)
mapped_vars CfcInstruction.icall info = do i ← get_icall info; ok (firsts i.mapping)
mapped_vars CfcInstruction.return info = do i ← get_ret info; ok (firsts i.mapping)
mapped_vars _ info = ok []

unfoldable pub visit_cf_and_mark_side_effects :
    List CfOp → Bool → Tracking → Outcome (Bool × Tracking)
unfolding mark_each mapped_vars
visit_cf_and_mark_side_effects [] has_changed t = ok (has_changed, t)
visit_cf_and_mark_side_effects (cf ∷ cfs) has_changed t = do
  inputs ← mark_each (not_null cf.in_vars) has_changed t
  vars ← mapped_vars cf.type cf.info
  mapping ← mark_each vars inputs.0 inputs.1
  visit_cf_and_mark_side_effects cfs mapping.0 mapping.1

-- The values that an operation passes to a known block, and the block.
unfoldable pub passed : CfcInstruction → CfInfo → Outcome (Option (Option ℕ × List (Option ℕ)))
passed CfcInstruction.jump info = do i ← get_jump info; ok (some (i.target, i.target_inputs))
passed CfcInstruction.cjump info = do i ← get_cjump info; ok (some (i.target, i.target_inputs))
passed CfcInstruction.syscall info = do
  i ← get_syscall info
  ok (some (i.continuation_block, firsts i.continuation_mapping))
passed CfcInstruction.call info = do i ← get_call info; ok (some (i.target, i.target_inputs))
passed _ info = ok none

-- One value for each input, in step: those whose input is marked in the target are marked. The marks
-- of the target are read anew each time, since a block may be its own target.
unfoldable pub mark_passed :
    (Tracking → ℕ → Bool) → List ℕ → List (Option ℕ) → Bool → Tracking → Outcome (Bool × Tracking)
unfolding mark
mark_passed marked (input ∷ inputs) (value ∷ values) has_changed t =
    if marked t input
    then elim value [
      | some var ↦ mark_passed marked inputs values (has_changed || (mark var t).0) (mark var t).1
      | none ↦ undefined
    ]
    else mark_passed marked inputs values has_changed t
mark_passed marked _ _ has_changed t = ok (has_changed, t)

-- The marks and the inputs of all blocks, of which the current one's marks are in the tracking.
abbrev target_marks : ℕ → (ℕ → ℕ → Bool) → ℕ → Tracking → ℕ → Bool
target_marks current mark_vec target t = if target == current then t.marks else mark_vec target

abbrev propagate_one :
    ℕ
    → (ℕ → ℕ → Bool)
    → (ℕ → List ℕ)
    → Option (Option ℕ × List (Option ℕ))
    → Bool
    → Tracking
    → Outcome (Bool × Tracking)
propagate_one current mark_vec inputs_of none has_changed t = ok (has_changed, t)
propagate_one current mark_vec inputs_of (some (none, values)) has_changed t = undefined
propagate_one current mark_vec inputs_of (some (some target, values)) has_changed t =
    let result =
      mark_passed (target_marks current mark_vec target) (inputs_of target) values has_changed t in
    if length values == length (inputs_of target) then result else panics

unfoldable pub propagate_from_successors :
    ℕ → (ℕ → ℕ → Bool) → (ℕ → List ℕ) → List CfOp → Bool → Tracking → Outcome (Bool × Tracking)
unfolding mark_passed passed
propagate_from_successors current mark_vec inputs_of [] has_changed t = ok (has_changed, t)
propagate_from_successors current mark_vec inputs_of (cf ∷ cfs) has_changed t = do
  at_cf ← passed cf.type cf.info
  done ← propagate_one current mark_vec inputs_of at_cf has_changed t
  propagate_from_successors current mark_vec inputs_of cfs done.0 done.1
