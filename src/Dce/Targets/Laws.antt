-- ===== src/Dce/Targets/Laws.antt =====
-- src/ir/optimizer/dce.cpp: removing the values for unused inputs from the operations that lead to a
-- block.
use erap_sbt.Base.{
  ℕ, ◌≤◌, ◌≡◌, refl, ap, sym, Bool, true, false, not, ◌==◌, if◌then◌else◌, List, [], ◌∷◌, length,
  map, Option, none, some, Outcome, ok, panics, undefined, ◌>>=◌, arith,
}
use erap_sbt.Ir.ControlFlow.{
  CfcInstruction, CfInfo, jump_info, cjump_info, call_info, syscall_info, no_info, ret_info,
  ijump_info, icall_info, CfOp,
}
use erap_sbt.Dce.Remove.{size_max, unused_indices}
use erap_sbt.Dce.Remove.Laws.{select, remove_indices_sorted-unused_indices}
use erap_sbt.Dce.Targets.{
  is_block, leads_to, is_valid_predecessor, without, remove_at, taken, remove_target_inputs,
}

if_equal : (m n : ℕ) → m ≡ n → (m == n) ≡ true
if_equal m n e = ground arith

-- An operation has the information that belongs to its type, and passes `n` values to the target if
-- it leads there.
abbrev pub FeedsBy : ℕ → ℕ → CfcInstruction → CfInfo → Type 0
FeedsBy target n CfcInstruction.jump (jump_info i) =
    is_block i.target target ≡ true → length i.target_inputs ≡ n
FeedsBy target n CfcInstruction.cjump (cjump_info i) =
    is_block i.target target ≡ true → length i.target_inputs ≡ n
FeedsBy target n CfcInstruction.call (call_info i) =
    is_block i.target target ≡ true → length i.target_inputs ≡ n
FeedsBy target n CfcInstruction.syscall (syscall_info i) =
    is_block i.continuation_block target ≡ true → length i.continuation_mapping ≡ n
FeedsBy target n CfcInstruction.ijump (ijump_info i) = Unit
FeedsBy target n CfcInstruction.icall (icall_info i) = Unit
FeedsBy target n CfcInstruction.return (ret_info i) = Unit
FeedsBy target n CfcInstruction.unreachable no_info = Unit
FeedsBy target n _ _ = ⊥

abbrev pub Feeds : ℕ → ℕ → List CfOp → Type 0
Feeds target n [] = Unit
Feeds target n (cf ∷ cfs) = FeedsBy target n cf.type cf.info × Feeds target n cfs

-- The information of an operation once the values for unused inputs are gone, if it leads to the
-- target.
abbrev pub kept_info : ℕ → (ℕ → Bool) → List ℕ → CfInfo → CfInfo
kept_info target used inputs (jump_info i) =
    if is_block i.target target
    then jump_info (record i { target_inputs = select used inputs i.target_inputs })
    else jump_info i
kept_info target used inputs (cjump_info i) =
    if is_block i.target target
    then cjump_info (record i { target_inputs = select used inputs i.target_inputs })
    else cjump_info i
kept_info target used inputs (call_info i) =
    if is_block i.target target
    then call_info (record i { target_inputs = select used inputs i.target_inputs })
    else call_info i
kept_info target used inputs (syscall_info i) =
    if is_block i.continuation_block target
    then syscall_info
        (record i { continuation_mapping = select used inputs i.continuation_mapping })
    else syscall_info i
kept_info target used inputs info = info

abbrev pub kept_op : ℕ → (ℕ → Bool) → List ℕ → CfOp → CfOp
kept_op target used inputs cf = record cf { info = kept_info target used inputs cf.info }

module _ (target : ℕ) (used : ℕ → Bool) (inputs : List ℕ) (short : length inputs ≤ size_max) where
  without-select {ℓ} :
      {A : Type ℓ} (values : List A)
      → length values ≡ length inputs
      → without (length inputs) (unused_indices used inputs) values ≡ ok (select used inputs values)
  unfolding without
  without-select values e =
      rw (if_equal (length values) (length inputs) e)
        (remove_indices_sorted-unused_indices used inputs values e short)

  -- What `remove_at` does to an operation that leads to the target, and to one that does not.
  abbrev Removes : Outcome Bool → Outcome (Option CfInfo) → CfInfo → CfInfo → Type 0
  Removes (ok true) o kept info = o ≡ ok (some kept)
  Removes (ok false) o kept info = (o ≡ ok none) × (kept ≡ info)
  Removes _ o kept info = ⊥

  branch-Removes {ℓ} :
      {A : Type ℓ} (b : Bool) (values : List A) (f : List A → CfInfo) (info : CfInfo)
      → (b ≡ true → length values ≡ length inputs)
      → Removes
          (ok b)
          (if not b
            then ok none
            else (without (length inputs) (unused_indices used inputs) values >>= λ rest.
                ok (some (f rest))))
          (if b then f (select used inputs values) else info)
          info
  branch-Removes true values f info h = rw (without-select values (h refl)) refl
  branch-Removes false values f info h = (refl, refl)

  remove_at-Removes :
      (type : CfcInstruction) (info : CfInfo)
      → FeedsBy target (length inputs) type info
      → Removes
          (leads_to target type info)
          (remove_at target (length inputs) (unused_indices used inputs) type info)
          (kept_info target used inputs info)
          info
  unfolding leads_to remove_at
  remove_at-Removes CfcInstruction.jump (jump_info i) h =
      branch-Removes (is_block i.target target) i.target_inputs
        (λ rest. jump_info (record i { target_inputs = rest })) (jump_info i) h
  remove_at-Removes CfcInstruction.cjump (cjump_info i) h =
      branch-Removes (is_block i.target target) i.target_inputs
        (λ rest. cjump_info (record i { target_inputs = rest })) (cjump_info i) h
  remove_at-Removes CfcInstruction.call (call_info i) h =
      branch-Removes (is_block i.target target) i.target_inputs
        (λ rest. call_info (record i { target_inputs = rest })) (call_info i) h
  remove_at-Removes CfcInstruction.syscall (syscall_info i) h =
      branch-Removes (is_block i.continuation_block target) i.continuation_mapping
        (λ rest. syscall_info (record i { continuation_mapping = rest })) (syscall_info i) h
  remove_at-Removes CfcInstruction.ijump (ijump_info i) h = (refl, refl)
  remove_at-Removes CfcInstruction.icall (icall_info i) h = (refl, refl)
  remove_at-Removes CfcInstruction.return (ret_info i) h = (refl, refl)
  remove_at-Removes CfcInstruction.unreachable no_info h = (refl, refl)
  remove_at-Removes _ _ h = absurd h

  one_more :
      (cf : CfOp) (found : Bool) (cfs : List CfOp) (valid : Outcome Bool)
      (removed : Outcome (Bool × List CfOp))
      → valid ≡ ok found
      → removed ≡ ok (found, cfs)
      → (o : Outcome Bool) (r : Outcome (Option CfInfo))
      → Removes o r (kept_info target used inputs cf.info) cf.info
      → (b : Bool) × ((o >>= λ f. if f then ok true else valid) ≡ ok b)
        × ((r >>= λ at_cf. removed >>= λ rest. ok (taken cf at_cf rest))
            ≡ ok (b, kept_op target used inputs cf ∷ cfs))
  one_more cf found cfs valid removed v e (ok true) r h = (true, refl, rw (h, e) refl)
  one_more cf found cfs valid removed v e (ok false) r (h, k) =
      (found, v, rw (h, e) (ap (λ info. ok (found, record cf { info = info } ∷ cfs)) (sym k)))
  one_more cf found cfs valid removed v e panics r h = absurd h
  one_more cf found cfs valid removed v e undefined r h = absurd h

  -- For the inputs of a block, at most as many as fit in `size_t`, and the operations of a
  -- predecessor of which each has the information that belongs to its type and passes one value for
  -- each input if it leads to the block: removing the values for the unused inputs never fails. It
  -- reports that it found such an operation exactly if `is_valid_predecessor` does, so that `dce`,
  -- which asks the latter first, does not panic, and it leaves each operation with the values for
  -- the inputs in use, in their order.
  pub remove_target_inputs-is_valid_predecessor :
      (cfs : List CfOp)
      → Feeds target (length inputs) cfs
      → (found : Bool) × (is_valid_predecessor target cfs ≡ ok found)
        × (remove_target_inputs target (length inputs) (unused_indices used inputs) cfs
            ≡ ok (found, map (kept_op target used inputs) cfs))
  unfolding is_valid_predecessor remove_target_inputs
  remove_target_inputs-is_valid_predecessor [] h = (false, refl, refl)
  remove_target_inputs-is_valid_predecessor (cf ∷ cfs) (h, hs) =
      let (found, v, e) = remove_target_inputs-is_valid_predecessor cfs hs in
      one_more cf found (map (kept_op target used inputs) cfs) (is_valid_predecessor target cfs)
        (remove_target_inputs target (length inputs) (unused_indices used inputs) cfs) v e
        (leads_to target cf.type cf.info)
        (remove_at target (length inputs) (unused_indices used inputs) cf.type cf.info)
        (remove_at-Removes cf.type cf.info h)
