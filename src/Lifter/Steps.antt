-- ===== src/Lifter/Steps.antt =====
-- src/lifter/lift_utils.cpp: what the helpers of the lifter add to a block, by what the block's
-- variables hold when it runs.
use erap_sbt.Base.{
  ℕ, zero, ◌+◌, ◌<◌, ◌≤◌, ◌≡◌, refl, sym, ◌∙◌, ap, ◌==◌, true, false, if◌then◌else◌, Bool-cases,
  inl, inr, none, some, ok, arith,
}
use std.Path.{subst}
use erap_sbt.Base.Int.{pos}
use erap_sbt.Eval.{Width, w32, w64, narrow}
use erap_sbt.Eval.Morph.{eval_morphing_op}
use erap_sbt.Eval.Laws.Products.{Fits}
use erap_sbt.Ir.IrType.{IrType, type_eq, cast_dir}
use erap_sbt.Ir.Instruction.{Instruction}
use erap_sbt.Ir.Variable.{VarInfo, SsaVar}
use erap_sbt.ConstFold.Meaning.{Suits, int_type}
use erap_sbt.Interpreter.Machine.{Registers, update}
use erap_sbt.Lifter.Builder.{
  Lift, add_var, add_op, add_var_imm, load_immediate, int64_of, get_from_mapping, write_to_mapping,
  to_op_size, convert_type, sign_extended,
}
use erap_sbt.Lifter.Meaning.{Env, put, held, holds, run}

-- The widths at which the integer instructions compute.
pub data OpSize : Width → Type 0 where
  op32 : OpSize w32
  op64 : OpSize w64

-- The register value of a result: one of 32 bits is sign-extended.
abbrev pub widened : Width → ℕ → ℕ
widened w32 y = int64_of y
widened w y = y

same_word : (y : ℕ) → Fits w32 y → narrow w32 y ≡ y
same_word y f = omega arith

-- The three ways of `to_op_size`.
fits : (v : SsaVar) (t : IrType) (l : Lift) → type_eq v.type t ≡ true → to_op_size v t l ≡ (v, l)
unfolding to_op_size
fits v t l e = rw e refl

stays :
    (v : SsaVar) (t : IrType) (l : Lift)
    → type_eq v.type t ≡ false
    → type_eq v.type IrType.imm ≡ true
    → to_op_size v t l ≡ (v, l)
unfolding to_op_size convert_type
stays v t l e f = rw (e, f) refl

casts :
    (v : SsaVar) (t : IrType) (l : Lift)
    → type_eq v.type t ≡ false
    → type_eq v.type IrType.imm ≡ false
    → cast_dir v.type t ≡ pos zero
    → to_op_size v t l ≡ add_op t Instruction.cast (some v.id) none l
unfolding to_op_size convert_type
casts v t l e f d = rw (e, f, d) refl

-- The registers after a value has been put into `rd`.
abbrev pub assigned : Registers → ℕ → ℕ → Registers
assigned regs rd x = if rd == 0 then regs else update regs rd x

-- The operand of an operation at a width, for a register that holds `x`.
abbrev pub Operand : Width → ℕ → IrType → ℕ → Type 0
Operand w x t y = Suits w t × (narrow w y ≡ narrow w x)

-- A register or the constant zero, read.
abbrev pub Read : Registers → ℕ → IrType → ℕ → Type 0
Read regs r t y = Suits w64 t × (y ≡ regs r)

-- The value of a register after an operation at a width with the result `y`.
abbrev pub Result : Width → ℕ → IrType → ℕ → Type 0
Result w y t x = Suits w64 t × (x ≡ widened w y)

module _ (base : ℕ) (start : Env) where
  -- The block runs from `start`, its variables then hold `env`.
  abbrev pub Runs : Lift → Env → Type 0
  Runs l env = run base start l.variables ≡ ok env

  -- A variable of the block with its value.
  abbrev pub InBlock : Lift → Env → SsaVar → ℕ → Type 0
  InBlock l env v x = (v.id < l.cur_ssa_id) × (env v.id ≡ (v.type, x))

  -- The block has grown; its earlier variables and the registers are unchanged.
  abbrev pub After : Lift → Env → Lift → Env → Type 0
  After l env l' env' =
      Runs l' env'
      × (l.cur_ssa_id ≤ l'.cur_ssa_id)
      × ((i : ℕ) → i < l.cur_ssa_id → env' i ≡ env i)
      × (l'.mapping ≡ l.mapping)

  -- A helper has returned a variable of the grown block, of a type and with a value as `P` says.
  abbrev pub Made : (IrType → ℕ → Type 0) → Lift → Env → SsaVar × Lift → Type 0
  Made P l env (v, l') =
      (env' : Env) × (x : ℕ) × After l env l' env' × InBlock l' env' v x × P v.type x

  pub After-refl : (l : Lift) (env : Env) → Runs l env → After l env l env
  After-refl l env h = (h, omega arith, λ i p. refl, refl)

  pub After-trans :
      (l l' l'' : Lift) (env env' env'' : Env)
      → After l env l' env'
      → After l' env' l'' env''
      → After l env l'' env''
  After-trans l l' l'' env env' env'' (h, a, k, m) (h', a', k', m') =
      (h', omega (arith, a, a'), λ i p. k' i (omega (arith, a, p)) ∙ k i p, m' ∙ m)

  pub InBlock-After :
      (l l' : Lift) (env env' : Env) (v : SsaVar) (x : ℕ)
      → InBlock l env v x
      → After l env l' env'
      → InBlock l' env' v x
  InBlock-After l l' env env' v x (p, e) (h, a, k, m) = (omega (arith, a, p), k v.id p ∙ e)

  put_other : (env : Env) (n i : ℕ) (cell : IrType × ℕ) → i < n → put env n cell i ≡ env i
  put_other env n i cell p = rw (differs n i p) refl
    where
      differs : (n i : ℕ) → i < n → (n == i) ≡ false
      differs n i p = ground arith

  put_self : (env : Env) (n : ℕ) (cell : IrType × ℕ) → put env n cell n ≡ cell
  put_self env n cell = rw (same n) refl
    where
      same : (n : ℕ) → (n == n) ≡ true
      same n = ground arith

  pub add_var-Made :
      (P : IrType → ℕ → Type 0) (t : IrType) (info : VarInfo) (l : Lift) (env : Env) (x : ℕ)
      → Runs l env
      → holds base t info env ≡ ok x
      → P t x
      → Made P l env (add_var t info l)
  unfolding add_var run
  add_var-Made P t info l env x h e p = (
    put env l.cur_ssa_id (t, x),
    x,
    (rw (h, e) refl, omega arith, λ i q. put_other env l.cur_ssa_id i (t, x) q, refl),
    (omega arith, put_self env l.cur_ssa_id (t, x)),
    p,
  )

  -- The registers: the variable of each holds its value.
  abbrev pub Register : Lift → Env → SsaVar → ℕ → Type 0
  Register l env v x = InBlock l env v x × Suits w64 v.type

  abbrev pub Represents : Lift → Env → Registers → Type 0
  Represents l env regs =
      Runs l env × ((r : ℕ) → (r == 0) ≡ false → r < 32 → Register l env (l.mapping r) (regs r))

  pub Represents-After :
      (l l' : Lift) (env env' : Env) (regs : Registers)
      → Represents l env regs
      → After l env l' env'
      → Represents l' env' regs
  Represents-After l l' env env' regs (h, k) after = (
    after.0,
    λ r z p.
        subst (λ m. Register l' env' (m r) (regs r)) (sym after.3)
          (InBlock-After l l' env env' (l.mapping r) (regs r) (k r z p).0 after, (k r z p).1),
  )

  pub write_to_mapping-Represents :
      (l : Lift) (env : Env) (regs : Registers) (v : SsaVar) (rd x : ℕ)
      → Represents l env regs
      → Register l env v x
      → Represents (write_to_mapping v rd l) env (assigned regs rd x)
  unfolding write_to_mapping
  write_to_mapping-Represents l env regs v rd x (h, k) q = elim (Bool-cases (rd == 0)) [
    | inl z ↦ rw z (h, k)
    | inr z ↦
        rw z (h, λ r y p. elim (Bool-cases (rd == r)) [ inl e ↦ rw e q | inr e ↦ rw e (k r y p) ])
  ]

  is_zero : (r : ℕ) → (r == 0) ≡ true → r ≡ 0
  is_zero r e = ground arith

  pub get_from_mapping-Made :
      (l : Lift) (env : Env) (regs : Registers) (r : ℕ)
      → Represents l env regs
      → regs 0 ≡ 0
      → r < 32
      → Made (Read regs r) l env (get_from_mapping r l)
  unfolding get_from_mapping add_var_imm
  get_from_mapping-Made l env regs r rep z p = elim (Bool-cases (r == 0)) [
    | inl e ↦ rw e (
        add_var-Made (Read regs r) IrType.imm _ l env 0 rep.0 refl
          (inl refl, sym z ∙ ap regs (sym (is_zero r e))))
    | inr e ↦ rw e (env, regs r, After-refl l env rep.0, (rep.1 r e p).0, ((rep.1 r e p).1, refl))
  ]

  pub load_immediate-Made :
      (P : IrType → ℕ → Type 0) (imm : ℕ) (l : Lift) (env : Env)
      → Runs l env
      → P IrType.imm (narrow w64 (int64_of imm + 0))
      → Made P l env (load_immediate imm false l)
  unfolding load_immediate add_var_imm
  load_immediate-Made P imm l env h p = add_var-Made P IrType.imm _ l env _ h refl p

  -- An operand that has the type of the operation, or is an immediate, stays.
  kept-Made :
      (w : Width) (l : Lift) (env : Env) (v : SsaVar) (x : ℕ)
      → Runs l env
      → InBlock l env v x
      → Suits w v.type
      → Made (Operand w x) l env (v, l)
  kept-Made w l env v x h q t = (env, x, After-refl l env h, q, (t, refl))

  cast_value :
      (env : Env) (v : SsaVar) (x : ℕ)
      → v.type ≡ IrType.i64
      → env v.id ≡ (v.type, x)
      → eval_morphing_op Instruction.cast (held (env v.id).0) IrType.i32 (env v.id).1
        ≡ ok (narrow w32 (narrow w64 x))
  unfolding eval_morphing_op
  cast_value env v x e q = rw (q, e) refl

  extended_value :
      (env : Env) (v : SsaVar) (y : ℕ)
      → v.type ≡ IrType.i32
      → env v.id ≡ (v.type, y)
      → Fits w32 y
      → eval_morphing_op Instruction.sign_extend (held (env v.id).0) IrType.i64 (env v.id).1
        ≡ ok (int64_of y)
  unfolding eval_morphing_op
  extended_value env v y e q f = rw (q, e) (ap (λ t. ok (int64_of t)) (same_word y f))

  cast-Made :
      (l : Lift) (env : Env) (v : SsaVar) (x : ℕ)
      → Runs l env
      → InBlock l env v x
      → v.type ≡ IrType.i64
      → Made (Operand w32 x) l env (add_op IrType.i32 Instruction.cast (some v.id) none l)
  unfolding add_op
  cast-Made l env v x h q e =
      add_var-Made (Operand w32 x) IrType.i32 _ l env (narrow w32 (narrow w64 x)) h
        (cast_value env v x e q.1) (inr refl, omega arith)

  pub to_op_size-Made :
      (w : Width) (l : Lift) (env : Env) (v : SsaVar) (x : ℕ)
      → OpSize w
      → Runs l env
      → InBlock l env v x
      → Suits w64 v.type
      → Made (Operand w x) l env (to_op_size v (int_type w) l)
  unfolding type_eq cast_dir
  to_op_size-Made _ l env v x op64 h q (inl e) =
      subst (Made (Operand w64 x) l env)
        (sym (
          stays v IrType.i64 l (ap (λ t. type_eq t IrType.i64) e)
            (ap (λ t. type_eq t IrType.imm) e)))
        (kept-Made w64 l env v x h q (inl e))
  to_op_size-Made _ l env v x op64 h q (inr e) =
      subst (Made (Operand w64 x) l env)
        (sym (fits v IrType.i64 l (ap (λ t. type_eq t IrType.i64) e)))
        (kept-Made w64 l env v x h q (inr e))
  to_op_size-Made _ l env v x op32 h q (inl e) =
      subst (Made (Operand w32 x) l env)
        (sym (
          stays v IrType.i32 l (ap (λ t. type_eq t IrType.i32) e)
            (ap (λ t. type_eq t IrType.imm) e)))
        (kept-Made w32 l env v x h q (inl e))
  to_op_size-Made _ l env v x op32 h q (inr e) =
      subst (Made (Operand w32 x) l env)
        (sym (
          casts v IrType.i32 l (ap (λ t. type_eq t IrType.i32) e) (ap (λ t. type_eq t IrType.imm) e)
            (ap (λ t. cast_dir t IrType.i32) e)))
        (cast-Made l env v x h q e)

  pub sign_extended-Made :
      (w : Width) (l : Lift) (env : Env) (v : SsaVar) (y : ℕ)
      → OpSize w
      → Runs l env
      → InBlock l env v y
      → v.type ≡ int_type w
      → Fits w y
      → Made (Result w y) l env (sign_extended (int_type w) v l)
  unfolding sign_extended type_eq add_op
  sign_extended-Made _ l env v y op64 h q e f = (env, y, After-refl l env h, q, (inr e, refl))
  sign_extended-Made _ l env v y op32 h q e f =
      add_var-Made (Result w32 y) IrType.i64 _ l env (int64_of y) h (extended_value env v y e q.1 f)
        (inr refl, refl)
