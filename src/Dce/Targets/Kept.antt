-- ===== src/Dce/Targets/Kept.antt =====
-- src/ir/optimizer/dce.cpp: after the removal the predecessors pass one value for each input again.
use erap_sbt.Base.{
  ℕ, suc, ◌≤◌, ◌≡◌, ok, refl, ap, Bool, List, [], ◌∷◌, length, map, arith, Bool-cases, inl, inr,
}
use erap_sbt.Ir.ControlFlow.{
  CfcInstruction, CfInfo, jump_info, cjump_info, call_info, syscall_info, no_info, ret_info,
  ijump_info, icall_info, CfOp,
}
use erap_sbt.Dce.Remove.{size_max, unused_indices, remove_indices_sorted}
use erap_sbt.Dce.Remove.Laws.{select, remove_indices_sorted-unused_indices}
use erap_sbt.Dce.Targets.{is_block, remove_target_inputs}
use erap_sbt.Dce.Targets.Laws.{
  FeedsBy, Feeds, kept_info, kept_op, remove_target_inputs-is_valid_predecessor,
}

-- Two vectors of the inputs' length keep the same number of entries.
length-select {ℓ κ} :
    {A : Type ℓ} {B : Type κ} (used : ℕ → Bool) (inputs : List ℕ) (xs : List A) (ys : List B)
    → length xs ≡ length inputs
    → length ys ≡ length inputs
    → length (select used inputs xs) ≡ length (select used inputs ys)
length-select used [] xs ys p q = refl
length-select used (i ∷ is) [] ys p q = absurd (omega (arith, p))
length-select used (i ∷ is) (x ∷ xs) [] p q = absurd (omega (arith, q))
length-select used (i ∷ is) (x ∷ xs) (y ∷ ys) p q = elim (Bool-cases (used i)) [
  | inl t ↦ rw t (ap suc (length-select used is xs ys (omega (arith, p)) (omega (arith, q))))
  | inr t ↦ rw t (length-select used is xs ys (omega (arith, p)) (omega (arith, q)))
]

module _ (target : ℕ) (used : ℕ → Bool) (inputs : List ℕ) where
  abbrev left_over : ℕ
  left_over = length (select used inputs inputs)

  kept_info-FeedsBy :
      (type : CfcInstruction) (info : CfInfo)
      → FeedsBy target (length inputs) type info
      → FeedsBy target left_over type (kept_info target used inputs info)
  kept_info-FeedsBy CfcInstruction.jump (jump_info i) h =
      elim (Bool-cases (is_block i.target target)) [
        | inl t ↦ rw t (λ _. length-select used inputs i.target_inputs inputs (h t) refl)
        | inr t ↦ rw t (λ e. absurd (ground arith))
      ]
  kept_info-FeedsBy CfcInstruction.cjump (cjump_info i) h =
      elim (Bool-cases (is_block i.target target)) [
        | inl t ↦ rw t (λ _. length-select used inputs i.target_inputs inputs (h t) refl)
        | inr t ↦ rw t (λ e. absurd (ground arith))
      ]
  kept_info-FeedsBy CfcInstruction.call (call_info i) h =
      elim (Bool-cases (is_block i.target target)) [
        | inl t ↦ rw t (λ _. length-select used inputs i.target_inputs inputs (h t) refl)
        | inr t ↦ rw t (λ e. absurd (ground arith))
      ]
  kept_info-FeedsBy CfcInstruction.syscall (syscall_info i) h =
      elim (Bool-cases (is_block i.continuation_block target)) [
        | inl t ↦ rw t (λ _. length-select used inputs i.continuation_mapping inputs (h t) refl)
        | inr t ↦ rw t (λ e. absurd (ground arith))
      ]
  kept_info-FeedsBy CfcInstruction.ijump (ijump_info i) h = h
  kept_info-FeedsBy CfcInstruction.icall (icall_info i) h = h
  kept_info-FeedsBy CfcInstruction.return (ret_info i) h = h
  kept_info-FeedsBy CfcInstruction.unreachable no_info h = h
  kept_info-FeedsBy _ _ h = absurd h

  kept_op-Feeds :
      (cfs : List CfOp)
      → Feeds target (length inputs) cfs
      → Feeds target left_over (map (kept_op target used inputs) cfs)
  kept_op-Feeds [] h = h
  kept_op-Feeds (cf ∷ cfs) (h, hs) = (kept_info-FeedsBy cf.type cf.info h, kept_op-Feeds cfs hs)

  -- For the inputs of a block, at most as many as fit in `size_t`, and the operations of a
  -- predecessor of which each passes one value for each input if it leads to the block:
  -- `remove_target_inputs` returns operations that pass one value for each of the inputs that
  -- `remove_indices_sorted` then leaves to the block.
  pub remove_target_inputs-Feeds :
      length inputs ≤ size_max
      → (cfs : List CfOp) → Feeds target (length inputs) cfs
      → (found : Bool) × (cfs' : List CfOp) × (inputs' : List ℕ) × (remove_target_inputs target
            (length inputs)
            (unused_indices used inputs)
            cfs
          ≡ ok (found, cfs'))
        × (remove_indices_sorted inputs (unused_indices used inputs) ≡ ok inputs')
        × Feeds target (length inputs') cfs'
  remove_target_inputs-Feeds short cfs h =
      let (found, valid, e) =
        remove_target_inputs-is_valid_predecessor target used inputs short cfs h in
      (
        found,
        map (kept_op target used inputs) cfs,
        select used inputs inputs,
        e,
        remove_indices_sorted-unused_indices used inputs inputs refl short,
        kept_op-Feeds cfs h,
      )
