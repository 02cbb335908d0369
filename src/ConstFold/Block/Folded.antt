-- ===== src/ConstFold/Block/Folded.antt =====
-- src/ir/optimizer/const_folding.cpp: the folding of an operation on two immediates in `process_block`.
use erap_sbt.Base.{
  ℕ, ◌+◌, ◌-◌, ◌≡◌, ◌<◌, ◌⊎◌, inl, inr, ◌||◌, if◌then◌else◌, Bool, true, false, Outcome, ok, panics,
  undefined, arith, refl, ap, sym, ◌∙◌,
}
use erap_sbt.Ir.Instruction.{Instruction}
use erap_sbt.Ir.Variable.{ImmInfo, SsaVar, immediate}
use erap_sbt.Eval.{Width, w8, w16, w32, w64, modulus, narrow}
use erap_sbt.Eval.Binary.{eval_binary_op, eval_binary_op2}
use erap_sbt.Eval.Laws.Bounds.{narrow-Fits, eval_binary_op2-Fits}
use erap_sbt.ConstFold.State.{Pass, PassState, ◌>>=◌, return, lift}
use erap_sbt.ConstFold.Meaning.{Env, moved, imm_value, int_type, read, typed}
use erap_sbt.ConstFold.WordLaws.{run}
use erap_sbt.ConstFold.DoubleOp.Sound.{eval_binary_op-int}
use erap_sbt.ConstFold.Single.{replace_with_immediate}
use erap_sbt.ConstFold.Block.Binary.{fold_immediates, skips}

typed-int : (w : Width) (n : ℕ) → typed (int_type w) n ≡ narrow w n
typed-int w8 n = refl
typed-int w16 n = refl
typed-int w32 n = refl
typed-int w64 n = refl

narrow_id : (w : Width) (n : ℕ) → n < modulus w → narrow w n ≡ n
narrow_id w8 n h = omega arith
narrow_id w16 n h = omega arith
narrow_id w32 n h = omega arith
narrow_id w64 n h = omega arith

sum_moved :
    (w : Width) (a b p q r : ℕ)
    → r ≡ p + q
    → narrow w (narrow w (a + p) + narrow w (b + q))
      ≡ narrow w (narrow w (narrow w a + narrow w b) + r)
sum_moved w8 a b p q r e = omega arith
sum_moved w16 a b p q r e = omega arith
sum_moved w32 a b p q r e = omega arith
sum_moved w64 a b p q r e = omega arith

difference_moved :
    (w : Width) (a b p r : ℕ)
    → r ≡ p
    → narrow w (narrow w (a + p) + modulus w - narrow w (b + 0))
      ≡ narrow w (narrow w (narrow w a + modulus w - narrow w b) + r)
difference_moved w8 a b p r e = omega arith
difference_moved w16 a b p r e = omega arith
difference_moved w32 a b p r e = omega arith
difference_moved w64 a b p r e = omega arith

module _ (w : Width) (ia ib : ImmInfo) (env : Env) (n : ℕ) where
  abbrev Moves : Instruction → Type 0
  Moves insn =
      run insn w (imm_value env ia) (imm_value env ib)
      ≡ ok (narrow w (n + moved env (ia.binary_relative || ib.binary_relative)))

  neither :
      (insn : Instruction)
      → (ia.binary_relative || ib.binary_relative) ≡ false
      → run insn w ia.val ib.val ≡ ok n
      → Moves insn
  neither insn h e =
      rw (first, second)
        (rw (word ia.val, word ib.val, word n)
          (e
            ∙ ap ok (
                sym (
                  narrow_id w n (
                    eval_binary_op2-Fits insn w _ _ n (narrow-Fits w ia.val) (narrow-Fits w ib.val)
                      e)))))
    where
      first : ia.binary_relative ≡ false
      first = ground arith

      second : ib.binary_relative ≡ false
      second = ground arith

      word : (m : ℕ) → narrow w (m + 0) ≡ narrow w m
      word m = ap (narrow w) (omega arith)

  -- The immediate that the folded one is moved by.
  moved_by : ℕ
  moved_by = moved env (ia.binary_relative || ib.binary_relative)

  moves :
      (insn : Instruction) → skips insn ia ib ≡ false → run insn w ia.val ib.val ≡ ok n → Moves insn
  unfolding eval_binary_op2 moved_by
  moves Instruction.add h e = ap ok (
      sum_moved w ia.val ib.val (moved env ia.binary_relative) (moved env ib.binary_relative)
        moved_by (ground arith)
      ∙ ap (λ m. narrow w (m + moved_by)) (ground arith))
  moves Instruction.sub h e = rw h (
      ap ok (
        difference_moved w ia.val ib.val (moved env ia.binary_relative)
          (moved env (ia.binary_relative || false)) (ground arith)
        ∙ ap (λ m. narrow w (m + moved env (ia.binary_relative || false))) (ground arith)))
  moves insn h e = neither insn h e

module _ (w : Width) (insn : Instruction) (ia ib : ImmInfo) (var : SsaVar) (s : PassState) where
  -- How the call leaves the variable: untouched, where the pair of immediates is one that is
  -- skipped, or an immediate that in every environment has the value of the operation. It aborts or
  -- meets undefined behaviour only where the evaluator does.
  abbrev pub IsFoldedBy : Outcome (SsaVar × PassState) → Type 0
  IsFoldedBy (ok (v, s')) =
      (s' ≡ s)
      × (((skips insn ia ib ≡ true) × (v ≡ var))
          ⊎ ((n : ℕ) × (v ≡ replace_with_immediate var n (ia.binary_relative || ib.binary_relative))
              × ((env : Env) → run insn w (imm_value env ia) (imm_value env ib) ≡ ok (read env v))))
  IsFoldedBy panics = run insn w ia.val ib.val ≡ panics
  IsFoldedBy undefined = run insn w ia.val ib.val ≡ undefined

  choose-IsFoldedBy :
      (b : Bool) (x y : Pass SsaVar)
      → (b ≡ true → IsFoldedBy (x s))
      → (b ≡ false → IsFoldedBy (y s))
      → IsFoldedBy ((if b then x else y) s)
  choose-IsFoldedBy true x y h k = h refl
  choose-IsFoldedBy false x y h k = k refl

  read-typed :
      (env : Env) (i : ImmInfo)
      → var.type ≡ int_type w
      → read env (record var { info = immediate i }) ≡ narrow w (imm_value env i)
  unfolding read
  read-typed env i e = rw e (typed-int w (imm_value env i))

  abbrev finish : Outcome ℕ → Pass SsaVar
  finish o = do
    result ← lift o
    return (replace_with_immediate var result (ia.binary_relative || ib.binary_relative))

  finish-IsFoldedBy :
      var.type ≡ int_type w
      → skips insn ia ib ≡ false
      → (o : Outcome ℕ) → run insn w ia.val ib.val ≡ o
      → IsFoldedBy (finish o s)
  finish-IsFoldedBy t h (ok n) e =
      (refl, inr (n, refl, λ env. moves w ia ib env n insn h e ∙ ap ok (sym (read-typed env _ t))))
  finish-IsFoldedBy t h panics e = e
  finish-IsFoldedBy t h undefined e = e

  -- For every width and every operation on two immediates, where the variable has the operation's
  -- type: `fold_immediates` leaves the state alone, and it leaves the variable alone if the pair is
  -- one to skip, or turns it into an immediate that in every environment, so for every base
  -- address, has the value of the operation on the two operands. It fails only where the evaluator
  -- fails on the two values.
  pub fold_immediates-IsFoldedBy :
      var.type ≡ int_type w → IsFoldedBy (fold_immediates (int_type w) insn ia ib var s)
  unfolding fold_immediates
  fold_immediates-IsFoldedBy t =
      choose-IsFoldedBy (skips insn ia ib) (return var)
        (finish (eval_binary_op insn (int_type w) ia.val ib.val)) (λ skip. (refl, inl (skip, refl)))
        (λ h.
          finish-IsFoldedBy t h (eval_binary_op insn (int_type w) ia.val ib.val)
            (sym (eval_binary_op-int insn w ia.val ib.val)))
