-- ===== src/Dce/Targets.antt =====
-- src/ir/optimizer/dce.cpp: the operations that lead to a block, and the values that they pass to it.
pub mod Laws
pub mod Kept
use erap_sbt.Base.{
  ℕ, Bool, true, false, not, ◌&&◌, ◌||◌, ◌==◌, if◌then◌else◌, List, [], ◌∷◌, length, Option, none,
  some, Outcome, ok, panics, undefined, ◌>>=◌,
}
use erap_sbt.Ir.ControlFlow.{
  CfcInstruction, JumpInfo, CjumpInfo, CallInfo, SyscallInfo, CfInfo, jump_info, cjump_info,
  call_info, syscall_info, CfOp, BasicBlock, get_jump, get_cjump, get_call, get_syscall,
}
use erap_sbt.Dce.Remove.{remove_indices_sorted}

-- A pointer to a block against a block.
abbrev pub is_block : Option ℕ → ℕ → Bool
is_block (some i) target = i == target
is_block none target = false

-- `CfOp::target`
unfoldable pub target_of : CfcInstruction → CfInfo → Outcome (Option ℕ)
target_of CfcInstruction.jump info = do i ← get_jump info; ok i.target
target_of CfcInstruction.cjump info = do i ← get_cjump info; ok i.target
target_of CfcInstruction.call info = do i ← get_call info; ok i.target
target_of CfcInstruction.syscall info = do i ← get_syscall info; ok i.continuation_block
target_of _ info = ok none

-- What `is_valid_predecessor` finds at one operation.
unfoldable pub leads_to : ℕ → CfcInstruction → CfInfo → Outcome Bool
leads_to target CfcInstruction.jump info = do i ← get_jump info; ok (is_block i.target target)
leads_to target CfcInstruction.cjump info = do i ← get_cjump info; ok (is_block i.target target)
leads_to target CfcInstruction.syscall info = do
  i ← get_syscall info
  ok (is_block i.continuation_block target)
leads_to target CfcInstruction.call info = do i ← get_call info; ok (is_block i.target target)
leads_to target _ info = ok false

unfoldable pub is_valid_predecessor : ℕ → List CfOp → Outcome Bool
unfolding leads_to
is_valid_predecessor target [] = ok false
is_valid_predecessor target (cf ∷ cfs) = do
  found ← leads_to target cf.type cf.info
  let rest = is_valid_predecessor target cfs
  if found then ok true else rest

-- One operation in `check_target_input_removable`: `none` where the function returns false at once.
unfoldable pub removable_at : ℕ → CfcInstruction → CfInfo → Outcome (Option Bool)
unfolding target_of
removable_at target CfcInstruction.jump info = do
  t ← target_of CfcInstruction.jump info
  ok (some (is_block t target))
removable_at target CfcInstruction.cjump info = do
  t ← target_of CfcInstruction.cjump info
  ok (some (is_block t target))
removable_at target CfcInstruction.syscall info = do
  t ← target_of CfcInstruction.syscall info
  ok (some (is_block t target))
removable_at target CfcInstruction.call info = do
  i ← get_call info
  ok (if is_block i.continuation_block target then none else some (is_block i.target target))
removable_at target CfcInstruction.unreachable info = ok (some false)
removable_at target _ info = ok none

-- The loop, with `found_cf`.
unfoldable pub check_from : Bool → ℕ → List CfOp → Outcome Bool
unfolding removable_at
check_from found_cf target [] = ok found_cf
check_from found_cf target (cf ∷ cfs) = do
  at_cf ← removable_at target cf.type cf.info
  elim at_cf [ some b ↦ check_from (found_cf || b) target cfs | none ↦ ok false ]

unfoldable pub check_target_input_removable : List CfOp → ℕ → Outcome Bool
unfolding check_from
check_target_input_removable cfs target = check_from false target cfs

-- The values for the inputs of the target, `n` in number (asserted), without some indices.
unfoldable pub without {ℓ} : {A : Type ℓ} → ℕ → List ℕ → List A → Outcome (List A)
unfolding remove_indices_sorted
without n indices values =
    if length values == n then remove_indices_sorted values indices else panics

-- One operation in `remove_target_inputs`: `none` where the loop goes on without `found_cf`.
unfoldable pub remove_at : ℕ → ℕ → List ℕ → CfcInstruction → CfInfo → Outcome (Option CfInfo)
unfolding without
remove_at target n indices CfcInstruction.jump info = do
  i ← get_jump info
  let removed = without n indices i.target_inputs
  if not (is_block i.target target)
      then ok none
      else do rest ← removed; ok (some (jump_info (record i { target_inputs = rest })))
remove_at target n indices CfcInstruction.cjump info = do
  i ← get_cjump info
  let removed = without n indices i.target_inputs
  if not (is_block i.target target)
      then ok none
      else do rest ← removed; ok (some (cjump_info (record i { target_inputs = rest })))
remove_at target n indices CfcInstruction.syscall info = do
  i ← get_syscall info
  let removed = without n indices i.continuation_mapping
  if not (is_block i.continuation_block target)
      then ok none
      else do rest ← removed; ok (some (syscall_info (record i { continuation_mapping = rest })))
remove_at target n indices CfcInstruction.call info = do
  i ← get_call info
  let removed = without n indices i.target_inputs
  if not (is_block i.target target)
      then ok none
      else do rest ← removed; ok (some (call_info (record i { target_inputs = rest })))
remove_at target n indices _ info = ok none

-- The operation goes back into the list, changed or not.
abbrev pub taken : CfOp → Option CfInfo → Bool × List CfOp → Bool × List CfOp
taken cf (some info) (found_cf, cfs) = (true, record cf { info = info } ∷ cfs)
taken cf none (found_cf, cfs) = (found_cf, cf ∷ cfs)

-- `found_cf` and the operations afterwards.
unfoldable pub remove_target_inputs : ℕ → ℕ → List ℕ → List CfOp → Outcome (Bool × List CfOp)
unfolding remove_at
remove_target_inputs target n indices [] = ok (false, [])
remove_target_inputs target n indices (cf ∷ cfs) = do
  at_cf ← remove_at target n indices cf.type cf.info
  rest ← remove_target_inputs target n indices cfs
  ok (taken cf at_cf rest)
