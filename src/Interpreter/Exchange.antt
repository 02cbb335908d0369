-- ===== src/Interpreter/Exchange.antt =====
-- src/generator/x86_64/helper/interpreter.cpp: what the atomic operations of 32 bits do.
use erap_sbt.Base.{
  ℕ, ◌^◌, ◌<◌, ◌==◌, ◌≡◌, refl, ◌∙◌, ap, ap₂, false, true, Outcome, ok, ◌>>=◌, arith,
}
use erap_sbt.Eval.{w32}
use erap_sbt.Interpreter.Machine.{
  FrvInst, Registers, Memory, update, assign, low, sign_extend_int64_t, load_bytes, store_bytes,
}
use erap_sbt.Interpreter.Atomic.{AmoOp, operation, amo_op}
use erap_sbt.Interpreter.Valid.{ByteMemory, load_bytes-lt}

-- The low half of a sign-extended word is the word.
low-sign_extend : (n : ℕ) → n < 2 ^ 32 → low (sign_extend_int64_t (low n)) ≡ n
unfolding sign_extend_int64_t
low-sign_extend n h = ground arith

abbrev both : Registers → Memory → Outcome (Registers × Memory)
both regs mem = ok (regs, mem)

update_self : (f : ℕ → ℕ) (i v : ℕ) → update f i v i ≡ v
update_self f i v = rw (same i) refl
  where
    same : (i : ℕ) → (i == i) ≡ true
    same i = ground arith

-- A register other than 0 is written and read again.
assigned :
    (instr : FrvInst) (regs : Registers) (v : ℕ) (stored : ℕ → Memory)
    → (instr.rd == 0) ≡ false
    → (assign instr regs (ok v) >>= λ loaded. both loaded (stored (loaded instr.rd)))
      ≡ both (update regs instr.rd v) (stored v)
unfolding assign
assigned instr regs v stored e =
    rw e (ap (λ x. both (update regs instr.rd v) (stored x)) (update_self regs instr.rd v))

-- For every atomic operation of 32 bits with a destination other than register 0, on a memory of
-- bytes: the destination gets the old word, sign-extended, and memory the operation on the old word
-- and the low half of the second register.
pub amo_op-exchanges :
    (op : AmoOp) (instr : FrvInst) (mem : Memory) (regs : Registers)
    → ByteMemory mem
    → (instr.rd == 0) ≡ false
    → amo_op op w32 instr mem regs
      ≡ ok (
        update regs instr.rd (sign_extend_int64_t (load_bytes 4 mem (regs instr.rs1))),
        store_bytes 4 mem
            (regs instr.rs1)
            (operation op w32 (load_bytes 4 mem (regs instr.rs1)) (low (regs instr.rs2))),
      )
unfolding amo_op
amo_op-exchanges op instr mem regs b e =
    let old = load_bytes 4 mem (regs instr.rs1) in
    let fits = load_bytes-lt 4 mem (regs instr.rs1) b in
    assigned instr regs (sign_extend_int64_t (low old))
      (λ v. store_bytes 4 mem (regs instr.rs1) (operation op w32 (low v) (low (regs instr.rs2)))) e
    ∙ ap₂
        (λ x y. ok (
          update regs instr.rd x,
          store_bytes 4 mem (regs instr.rs1) (operation op w32 y (low (regs instr.rs2))),
        ))
        (ap sign_extend_int64_t (small old fits)) (low-sign_extend old fits)
  where
    small : (n : ℕ) → n < 2 ^ 32 → low n ≡ n
    small n h = omega arith
