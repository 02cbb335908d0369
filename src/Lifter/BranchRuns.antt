-- ===== src/Lifter/BranchRuns.antt =====
-- src/lifter/instructions/cfc.cpp against src/generator/x86_64/helper/interpreter.cpp: a lifted
-- branch goes where the interpreter goes.
use erap_sbt.Base.{
  ℕ, ◌+◌, ◌<◌, ◌==◌, not, ltb, ◌≡◌, refl, sym, ◌∙◌, ap, ap₂, Bool, true, false, if◌then◌else◌,
  Bool-cases, inl, inr, Option, List, [], ◌∷◌, none, Outcome, ok, undefined, ◌>>=◌, arith,
}
use std.Path.{subst}
use erap_sbt.Base.Int.{ltb_ℤ}
use erap_sbt.Eval.{w64, narrow}
use erap_sbt.Ir.IrType.{IrType}
use erap_sbt.Ir.Variable.{SsaVar}
use erap_sbt.Ir.ControlFlow.{CjumpType, CfOp, get_cjump, get_lifter_info}
use erap_sbt.Interpreter.Machine.{FrvInst, Registers, sign_extend_int64_t, as_int64}
use erap_sbt.Interpreter.Control.{Branch, Flow, branch, taken?, relative}
use erap_sbt.Interpreter.Valid.{Holds}
use erap_sbt.Lifter.Builder.{Lift, add_var_imm, get_from_mapping, int64_of}
use erap_sbt.Lifter.Branches.{lift_branch, jump_type, reverse_jumps}
use erap_sbt.Lifter.Meaning.{Env, input}
use erap_sbt.Lifter.Steps.{
  Runs, InBlock, After-trans, InBlock-After, Made, add_var-Made, Represents, Represents-After,
  get_from_mapping-Made,
}

-- The condition of a jump.
abbrev pub condition : CjumpType → ℕ → ℕ → Bool
condition CjumpType.eq a b = a == b
condition CjumpType.neq a b = not (a == b)
condition CjumpType.lt a b = ltb a b
condition CjumpType.gt a b = ltb b a
condition CjumpType.slt a b = ltb_ℤ (as_int64 a) (as_int64 b)
condition CjumpType.sgt a b = ltb_ℤ (as_int64 b) (as_int64 a)

-- Whether a conditional jump is taken, by its first two inputs.
abbrev pub tested : Env → CjumpType → List (Option ℕ) → Outcome Bool
tested env t (rs1 ∷ rs2 ∷ in_vars) = do
  a ← input env rs1
  b ← input env rs2
  ok (condition t a.1 b.1)
tested env t _ = undefined

-- Where the two operations at the end of a block go, in a binary at `base`: to the block at
-- `jump_addr`, the address by which src/lifter/lifter.cpp connects an operation with its target. There 0 stands for an unknown target; here it is an address.
abbrev pub goes_to : ℕ → Env → CfOp → CfOp → Outcome ℕ
goes_to base env cjump jump = do
  info ← get_cjump cjump.info
  test ← tested env info.type cjump.in_vars
  taken ← get_lifter_info cjump.lifter_info
  behind ← get_lifter_info jump.lifter_info
  ok (narrow w64 ((if test then taken.jump_addr else behind.jump_addr) + base))

abbrev pub last : List (Option ℕ) → Option ℕ
last [] = none
last (x ∷ []) = x
last (x ∷ y ∷ xs) = last (y ∷ xs)

-- The last input of an operation holds the address that the operation is connected by.
abbrev pub HoldsTarget : ℕ → Env → CfOp → Type 0
HoldsTarget base env cf =
    (do x ← input env (last cf.in_vars); ok x.1)
    ≡ (do i ← get_lifter_info cf.lifter_info; ok (narrow w64 (i.jump_addr + base)))

-- The address behind the interpreted branch, an instruction of `r` bytes.
abbrev pub after_branch : ℕ → Flow → ℕ
after_branch r f = if f.jump then f.pc else narrow w64 (f.pc + r)

if_not : (c : Bool) (x y : ℕ) → (if not c then x else y) ≡ (if c then y else x)
if_not true x y = refl
if_not false x y = refl

-- The choice of the two jumps is that of the branch.
choice :
    (m : Branch) (a b jump next : ℕ)
    → (if condition (jump_type m) a b
        then if reverse_jumps m then next else jump
        else if reverse_jumps m
        then jump
        else next)
      ≡ (if taken? m a b then jump else next)
unfolding jump_type reverse_jumps taken?
choice Branch.beq a b jump next = refl
choice Branch.blt a b jump next = refl
choice Branch.bltu a b jump next = refl
choice Branch.bne a b jump next = sym (if_not (a == b) jump next)
choice Branch.bge a b jump next = sym (if_not (ltb_ℤ (as_int64 a) (as_int64 b)) jump next)
choice Branch.bgeu a b jump next = sym (if_not (ltb a b) jump next)

after-taken :
    (m : Branch) (pc r : ℕ) (instr : FrvInst) (regs : Registers)
    → Holds
        (λ f.
          (if taken? m (regs instr.rs1) (regs instr.rs2)
            then relative pc instr
            else narrow w64 (pc + r))
          ≡ after_branch r f)
        (branch m pc instr regs)
unfolding branch
after-taken m pc r instr regs = elim (Bool-cases (taken? m (regs instr.rs1) (regs instr.rs2))) [
  | inl e ↦ rw e refl
  | inr e ↦ rw e refl
]

abbrev Is : ℕ → IrType → ℕ → Type 0
Is x t y = y ≡ x

if_id :
    (env : Env) (c : Bool) (i j x y : ℕ)
    → (env i).1 ≡ x
    → (env j).1 ≡ y
    → (env (if c then i else j)).1 ≡ (if c then x else y)
if_id env true i j x y e f = e
if_id env false i j x y e f = f

moved_jump :
    (ip base imm : ℕ)
    → narrow w64 (narrow w64 (int64_of imm + ip) + base)
      ≡ narrow w64 (narrow w64 (ip + base) + int64_of imm)
moved_jump ip base imm = omega arith

moved_next :
    (ip base r : ℕ)
    → narrow w64 (narrow w64 (ip + r) + base) ≡ narrow w64 (narrow w64 (ip + base) + r)
moved_next ip base r = omega arith

-- The address of either jump, moved by the base.
moved :
    (c : Bool) (ip base imm r : ℕ)
    → narrow w64 ((if c then narrow w64 (int64_of imm + ip) else narrow w64 (ip + r)) + base) ≡ (
        if c
        then narrow w64 (narrow w64 (ip + base) + int64_of imm)
        else narrow w64 (narrow w64 (ip + base) + r))
moved true ip base imm r = moved_jump ip base imm
moved false ip base imm r = moved_next ip base r

if_ap :
    (c : Bool) (base x y : ℕ)
    → (if c then narrow w64 (x + base) else narrow w64 (y + base))
      ≡ narrow w64 ((if c then x else y) + base)
if_ap true base x y = refl
if_ap false base x y = refl

-- The chosen jump, by the values of the two operands.
goes :
    (m : Branch) (env : Env) (i j ip base imm r a b : ℕ)
    → (env i).1 ≡ a
    → (env j).1 ≡ b
    → ok (
        narrow w64 (
          (if condition (jump_type m) (env i).1 (env j).1
            then if reverse_jumps m then narrow w64 (ip + r) else narrow w64 (int64_of imm + ip)
            else if reverse_jumps m
            then narrow w64 (int64_of imm + ip)
            else narrow w64 (ip + r))
          + base))
      ≡ ok (
          if taken? m a b
          then narrow w64 (narrow w64 (ip + base) + int64_of imm)
          else narrow w64 (narrow w64 (ip + base) + r))
goes m env i j ip base imm r a b e f =
    ap₂
      (λ x y. ok (
        narrow w64 (
          (if condition (jump_type m) x y
            then if reverse_jumps m then narrow w64 (ip + r) else narrow w64 (int64_of imm + ip)
            else if reverse_jumps m
            then narrow w64 (int64_of imm + ip)
            else narrow w64 (ip + r))
          + base)))
      e f
    ∙ ap (λ x. ok (narrow w64 (x + base)))
        (choice m a b (narrow w64 (int64_of imm + ip)) (narrow w64 (ip + r)))
    ∙ ap ok (moved (taken? m a b) ip base imm r)

module _ (base : ℕ) (start : Env) where
  address-Made :
      (x : ℕ) (l : Lift) (env : Env)
      → Runs base start l env
      → Made base start (Is (narrow w64 (x + base))) l env (add_var_imm x true l)
  unfolding add_var_imm
  address-Made x l env h =
      add_var-Made base start (Is (narrow w64 (x + base))) IrType.imm _ l env
        (narrow w64 (x + base)) h refl refl

  value_at :
      (l : Lift) (env : Env) (v : SsaVar) (y x : ℕ)
      → InBlock base start l env v y
      → y ≡ x
      → (env v.id).1 ≡ x
  value_at l env v y x q e = ap (λ cell. cell.1) q.1 ∙ e

  -- A block that represents the registers, at an address of the binary, with the sources among the
  -- 32: lifting a branch of `r` bytes leaves the registers as they are, the two jumps, connected by
  -- their `jump_addr`, go to the address at which the interpreter goes on, and the last input of
  -- each holds that jump's address.
  pub lift_branch-goes_to :
      (m : Branch) (instr : FrvInst) (ip r : ℕ) (l : Lift) (env : Env) (regs : Registers) (f : Flow)
      → regs 0 ≡ 0
      → instr.rs1 < 32
      → instr.rs2 < 32
      → Represents base start l env regs
      → branch m (narrow w64 (ip + base)) instr regs ≡ ok f
      → (env' : Env) × Represents base start
          (lift_branch m instr ip (narrow w64 (ip + r)) l).0
          env'
          regs
        × (goes_to base env'
              (lift_branch m instr ip (narrow w64 (ip + r)) l).1
              (lift_branch m instr ip (narrow w64 (ip + r)) l).2
            ≡ ok (after_branch r f))
        × HoldsTarget base env' (lift_branch m instr ip (narrow w64 (ip + r)) l).1
        × HoldsTarget base env' (lift_branch m instr ip (narrow w64 (ip + r)) l).2
  unfolding lift_branch sign_extend_int64_t
  lift_branch-goes_to m instr ip r l env regs f z p q rep e =
      let jump = narrow w64 (int64_of instr.imm + ip) in
      let next = narrow w64 (ip + r) in
      let p1 = add_var_imm jump true l in
      let p2 = add_var_imm next true p1.1 in
      let p3 = get_from_mapping instr.rs1 p2.1 in
      let p4 = get_from_mapping instr.rs2 p3.1 in
      let (env1, a, after1, q1, v1) = address-Made jump l env rep.0 in
      let rep1 = Represents-After base start l p1.1 env env1 regs rep after1 in
      let (env2, b, after2, q2, v2) = address-Made next p1.1 env1 rep1.0 in
      let rep2 = Represents-After base start p1.1 p2.1 env1 env2 regs rep1 after2 in
      let (env3, c, after3, q3, (s3, v3)) =
        get_from_mapping-Made base start p2.1 env2 regs instr.rs1 rep2 z p in
      let rep3 = Represents-After base start p2.1 p3.1 env2 env3 regs rep2 after3 in
      let (env4, d, after4, q4, (s4, v4)) =
        get_from_mapping-Made base start p3.1 env3 regs instr.rs2 rep3 z q in
      let rep4 = Represents-After base start p3.1 p4.1 env3 env4 regs rep3 after4 in
      let after34 = After-trans base start p2.1 p3.1 p4.1 env2 env3 env4 after3 after4 in
      let after24 = After-trans base start p1.1 p2.1 p4.1 env1 env2 env4 after2 after34 in
      let w1 =
        value_at p4.1 env4 p1.0 a (narrow w64 (jump + base))
          (InBlock-After base start p1.1 p4.1 env1 env4 p1.0 a q1 after24) v1 in
      let w2 =
        value_at p4.1 env4 p2.0 b (narrow w64 (next + base))
          (InBlock-After base start p2.1 p4.1 env2 env4 p2.0 b q2 after34) v2 in
      let w3 =
        value_at p4.1 env4 p3.0 c (regs instr.rs1)
          (InBlock-After base start p3.1 p4.1 env3 env4 p3.0 c q3 after4) v3 in
      let w4 = value_at p4.1 env4 p4.0 d (regs instr.rs2) q4 v4 in
      (
        env4,
        rep4,
        goes m env4 p3.0.id p4.0.id ip base instr.imm r (regs instr.rs1) (regs instr.rs2) w3 w4
            ∙ ap ok (subst (Holds _) e (after-taken m (narrow w64 (ip + base)) r instr regs)),
        ap ok (
            if_id env4 (reverse_jumps m) p2.0.id p1.0.id _ _ w2 w1
            ∙ if_ap (reverse_jumps m) base next jump),
        ap ok (
            if_id env4 (reverse_jumps m) p1.0.id p2.0.id _ _ w1 w2
            ∙ if_ap (reverse_jumps m) base jump next),
      )
