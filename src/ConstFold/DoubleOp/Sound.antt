-- ===== src/ConstFold/DoubleOp/Sound.antt =====
-- Every rewriting of src/ir/optimizer/const_folding.cpp that folds two immediates into one keeps the
-- value of the operation. One lemma for each branch.
use erap_sbt.Base.{
  ℕ, ◌+◌, ◌≡◌, refl, ◌∙◌, Bool, true, false, ◌||◌, if◌then◌else◌, inl, inr, Option, none, some,
  Option-cases, Outcome, ok, panics, undefined, ◌∷◌,
}
use erap_sbt.Ir.Instruction.{Instruction}
use erap_sbt.Ir.Variable.{ImmInfo, SsaVar, immediate, immediate?}
use erap_sbt.Eval.{Width, w8, w16, w32, w64, narrow}
use erap_sbt.Eval.Binary.{eval_binary_op, eval_binary_op2}
use erap_sbt.ConstFold.State.{Pass, PassState, eval_to_imm}
use erap_sbt.ConstFold.WordLaws.{run}
use erap_sbt.ConstFold.Meaning.{Env, read, moved, int_type, read-immediate}
use erap_sbt.ConstFold.DoubleOp.{
  BinOp, nothing, is_relative, by_relative, on_imm, imm_first, imm_second,
}

pub eval_binary_op-int :
    (insn : Instruction) (w : Width) (x y : ℕ)
    → eval_binary_op insn (int_type w) x y ≡ run insn w x y
unfolding eval_binary_op
eval_binary_op-int insn w8 x y = refl
eval_binary_op-int insn w16 x y = refl
eval_binary_op-int insn w32 x y = refl
eval_binary_op-int insn w64 x y = refl

-- The state after one new immediate.
abbrev pub added : PassState → SsaVar → PassState
added s r = record s { cur_ssa_id = s.cur_ssa_id + 1; before = r ∷ s.before }

-- A call of one of the functions at state `s`: it neither aborts nor meets undefined behaviour. It
-- finds nothing and changes nothing, or it adds one fresh immediate `r` and returns an operation
-- whose value is `goal` in every environment.
module _ (w : Width) (goal : Env → Outcome ℕ) (s : PassState) where
  abbrev pub IsSound : Outcome (Option BinOp × PassState) → Type 0
  IsSound (ok (none, s')) = s' ≡ s
  IsSound (ok (some b, s')) =
      (r : SsaVar) × (r.id ≡ s.cur_ssa_id)
      × (r.type ≡ int_type w)
      × (s' ≡ added s r)
      × ((env : Env) → run b.type w (read env b.a) (read env b.b) ≡ goal env)
  IsSound panics = ⊥
  IsSound undefined = ⊥

  -- A test in front of the rewritings.
  pub if-IsSound :
      (b : Bool) (x y : Pass (Option BinOp))
      → (b ≡ true → IsSound (x s))
      → (b ≡ false → IsSound (y s))
      → IsSound ((if b then x else y) s)
  if-IsSound true x y h k = h refl
  if-IsSound false x y h k = k refl

  pub by_relative-IsSound :
      (imm : ImmInfo) (pa pb : SsaVar) (x y z : Pass (Option BinOp))
      → (imm.binary_relative ≡ true → (is_relative pa || is_relative pb) ≡ false → IsSound (x s))
      → (imm.binary_relative ≡ false → (is_relative pa || is_relative pb) ≡ true → IsSound (y s))
      → (imm.binary_relative ≡ false → (is_relative pa || is_relative pb) ≡ false → IsSound (z s))
      → IsSound (by_relative imm pa pb x y z s)
  by_relative-IsSound imm pa pb x y z outer inner absolute =
      if-IsSound imm.binary_relative (if is_relative pa || is_relative pb then nothing else x)
        (if is_relative pa || is_relative pb then y else z)
        (λ c. if-IsSound (is_relative pa || is_relative pb) nothing x (λ r. refl) (outer c))
        (λ c. if-IsSound (is_relative pa || is_relative pb) y z (inner c) (absolute c))

  pub on_imm-IsSound :
      (pa pb : SsaVar) (f g : ImmInfo → Pass (Option BinOp))
      → ((i : ImmInfo) → immediate? pa ≡ some i → IsSound (f i s))
      → ((i : ImmInfo) → immediate? pb ≡ some i → IsSound (g i s))
      → IsSound (on_imm pa pb f g s)
  on_imm-IsSound pa pb f g hf hg = elim (Option-cases (immediate? pa)) [
    | inr (i, e) ↦ rw (e, on_imm) (hf i e)
    | inl e ↦ elim (Option-cases (immediate? pb)) [
      | inr (i, e') ↦ rw (e, e', on_imm) (hg i e')
      | inl e' ↦ rw (e, e', on_imm) refl
    ]
  ]

  module _ (ev insn : Instruction) (other : SsaVar) (x y result : ℕ) (relative : Bool)
      (evaluates : run ev w x y ≡ ok result) where
    fresh : SsaVar
    fresh = record {
      id = s.cur_ssa_id;
      type = int_type w;
      info = immediate (record { val = result; binary_relative = relative });
    }

    fresh_value : (env : Env) → narrow w (read env fresh) ≡ narrow w (result + moved env relative)
    unfolding fresh
    fresh_value env = read-immediate w env fresh refl (inr refl)

    pub imm_first-IsSound :
        ((env : Env)
          → eval_binary_op2 insn w
              (narrow w (result + moved env relative))
              (narrow w (read env other))
            ≡ goal env)
        → IsSound (imm_first insn other (eval_to_imm ev (int_type w) x y relative) s)
    unfolding eval_to_imm fresh
    imm_first-IsSound h =
        rw (eval_binary_op-int ev w x y ∙ evaluates)
          (fresh, refl, refl, refl, λ env. rw (fresh_value env) (h env))

    pub imm_second-IsSound :
        ((env : Env)
          → eval_binary_op2 insn w
              (narrow w (read env other))
              (narrow w (result + moved env relative))
            ≡ goal env)
        → IsSound (imm_second insn other (eval_to_imm ev (int_type w) x y relative) s)
    unfolding eval_to_imm fresh
    imm_second-IsSound h =
        rw (eval_binary_op-int ev w x y ∙ evaluates)
          (fresh, refl, refl, refl, λ env. rw (fresh_value env) (h env))

-- Another description of the same value.
pub IsSound-goal :
    (w : Width) (g g' : Env → Outcome ℕ) (s : PassState) (o : Outcome (Option BinOp × PassState))
    → ((env : Env) → g env ≡ g' env)
    → IsSound w g s o
    → IsSound w g' s o
IsSound-goal w g g' s (ok (none, s')) e h = h
IsSound-goal w g g' s (ok (some b, s')) e h = (h.0, h.1, h.2, h.3, λ env. h.4 env ∙ e env)
IsSound-goal w g g' s panics e h = h
IsSound-goal w g g' s undefined e h = h
