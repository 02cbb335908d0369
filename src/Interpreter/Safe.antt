-- ===== src/Interpreter/Safe.antt =====
-- src/generator/x86_64/helper/interpreter.cpp: each instruction, and with it the handler, keeps the
-- registers, memory and `pc` in range and register 0 zero.
use erap_sbt.Base.{
  ℕ, ◌+◌, ◌-◌, ◌^◌, ◌<◌, ◌==◌, ◌||◌, ◌≡◌, ◌≢◌, refl, Bool, true, false, not, Bool-cases, inl, inr,
  Option, none, some, List, Outcome, ok, arith,
}
use std.Path.{subst}
use erap_sbt.Base.Bits.{and_lt, or_lt}
use erap_sbt.Eval.{Width, w64, narrow}
use erap_sbt.Eval.Laws.Products.{Fits}
use erap_sbt.Eval.Laws.Bounds.{narrow-Fits}
use erap_sbt.Interpreter.Machine.{FrvInst, Registers, Memory, assign, low}
use erap_sbt.Interpreter.Integer.{integer}
use erap_sbt.Interpreter.Multiply.{multiply}
use erap_sbt.Interpreter.Control.{Branch, Flow, branch, taken?, jal, jalr, relative}
use erap_sbt.Interpreter.Access.{load, store, store_value, Store, address}
use erap_sbt.Interpreter.Atomic.{AmoOp, amo_op, lrw, lrd, sc, bytes}
use erap_sbt.Interpreter.Csr.{CsrOp, csr_op, csr_combined, evaluate_csr_index, fcsr_idx}
use erap_sbt.Interpreter.Handler.{
  Mnemonic, State, with_registers, with_both, with_flow, execute, advance, dispatch, body, Leaves,
  left, again, arguments,
}
use erap_sbt.Interpreter.Valid.{
  WordRegisters, ByteMemory, Holds, bind-Holds, update-WordRegisters, assign-WordRegisters,
  store_bytes-ByteMemory, load_bytes-lt,
}
use erap_sbt.Interpreter.Float.{fsw, fsd}
use erap_sbt.Interpreter.FloatSafe.{float_op-WordRegisters}
use erap_sbt.Interpreter.Values.{
  sign_extend_int64_t-Fits, integer_value-FitsBy, multiply_value-FitsBy, load_value-Fits,
}

-- The state in range.
abbrev pub IsValid : State → Type 0
IsValid s = WordRegisters s.registers × ByteMemory s.memory × (s.pc < 2 ^ 64)

abbrev FlowIsValid : Flow → Type 0
FlowIsValid f = WordRegisters f.registers × (f.pc < 2 ^ 64)

abbrev BothIsValid : Registers × Memory → Type 0
BothIsValid (regs, mem) = WordRegisters regs × ByteMemory mem

branch-FlowIsValid :
    (m : Branch) (pc : ℕ) (instr : FrvInst) (regs : Registers)
    → WordRegisters regs
    → pc < 2 ^ 64
    → Holds FlowIsValid (branch m pc instr regs)
unfolding branch
branch-FlowIsValid m pc instr regs h p =
    elim (Bool-cases (taken? m (regs instr.rs1) (regs instr.rs2))) [
      | inl e ↦ rw e (h, narrow-Fits w64 _)
      | inr e ↦ rw e (h, p)
    ]

jal-FlowIsValid :
    (pc r : ℕ) (instr : FrvInst) (regs : Registers)
    → WordRegisters regs
    → Holds FlowIsValid (jal pc r instr regs)
unfolding jal
jal-FlowIsValid pc r instr regs h =
    bind-Holds WordRegisters FlowIsValid (assign instr regs (ok (narrow w64 (pc + r)))) _
      (assign-WordRegisters instr regs (ok (narrow w64 (pc + r))) h (narrow-Fits w64 (pc + r)))
      (λ linked k. (k, narrow-Fits w64 _))

jalr-FlowIsValid :
    (pc r : ℕ) (instr : FrvInst) (regs : Registers)
    → WordRegisters regs
    → Holds FlowIsValid (jalr pc r instr regs)
unfolding jalr
jalr-FlowIsValid pc r instr regs h =
    bind-Holds WordRegisters FlowIsValid (assign instr regs (ok (narrow w64 (pc + r)))) _
      (assign-WordRegisters instr regs (ok (narrow w64 (pc + r))) h (narrow-Fits w64 (pc + r)))
      (λ linked k. (
        k,
        and_lt 64 (relative (regs instr.rs1) instr) (2 ^ 64 - 2) (narrow-Fits w64 _) (omega arith),
      ))

store_value-ByteMemory :
    (m : Store) (mem : Memory) (a v : ℕ) → ByteMemory mem → ByteMemory (store_value m mem a v)
unfolding store_value
store_value-ByteMemory Store.sd mem a v h = store_bytes-ByteMemory 8 mem a v h
store_value-ByteMemory Store.sw mem a v h = store_bytes-ByteMemory 4 mem a _ h
store_value-ByteMemory Store.sh mem a v h = store_bytes-ByteMemory 2 mem a _ h
store_value-ByteMemory Store.sb mem a v h = store_bytes-ByteMemory 1 mem a _ h

amo_op-BothIsValid :
    (op : AmoOp) (w : Width) (instr : FrvInst) (mem : Memory) (regs : Registers)
    → WordRegisters regs
    → ByteMemory mem
    → Holds BothIsValid (amo_op op w instr mem regs)
unfolding amo_op
amo_op-BothIsValid op w instr mem regs h b =
    bind-Holds WordRegisters BothIsValid (assign instr regs (ok _)) _
      (assign-WordRegisters instr regs (ok _) h (sign_extend_int64_t-Fits _))
      (λ loaded k. (k, store_bytes-ByteMemory (bytes w) mem (regs instr.rs1) _ b))

sc-BothIsValid :
    (w : Width) (instr : FrvInst) (mem : Memory) (regs : Registers)
    → WordRegisters regs
    → ByteMemory mem
    → Holds BothIsValid (sc w instr mem regs)
unfolding sc
sc-BothIsValid w instr mem regs h b =
    bind-Holds WordRegisters BothIsValid (assign instr regs (ok 0)) _
      (assign-WordRegisters instr regs (ok 0) h (omega arith))
      (λ written k. (k, store_bytes-ByteMemory (bytes w) mem (regs instr.rs1) _ b))

csr_combined-Fits : (op : CsrOp) (old src : ℕ) → Fits w64 old → Fits w64 (csr_combined op old src)
csr_combined-Fits CsrOp.csrrw old src h = omega arith
csr_combined-Fits CsrOp.csrrs old src h = or_lt 64 old (low src) h (omega arith)
csr_combined-Fits CsrOp.csrrc old src h = and_lt 64 old (2 ^ 32 - 1 - low src) h (omega arith)
csr_combined-Fits CsrOp.csrrwi old src h = omega arith
csr_combined-Fits CsrOp.csrrsi old src h = or_lt 64 old (low src) h (omega arith)
csr_combined-Fits CsrOp.csrrci old src h = and_lt 64 old (2 ^ 32 - 1 - low src) h (omega arith)

known_csr : (n : ℕ) → Holds (λ i. i ≡ fcsr_idx) (evaluate_csr_index n)
unfolding evaluate_csr_index
known_csr n = elim (Bool-cases ((n == 1) || (n == 2) || (n == 3))) [
  | inl e ↦ rw e refl
  | inr e ↦ rw e tt
]

csr_op-WordRegisters :
    (op : CsrOp) (instr : FrvInst) (regs : Registers)
    → WordRegisters regs
    → Holds WordRegisters (csr_op op instr regs)
unfolding csr_op
csr_op-WordRegisters op instr regs h =
    bind-Holds (λ i. i ≡ fcsr_idx) WordRegisters (evaluate_csr_index instr.imm) _
      (known_csr instr.imm)
      (λ i e.
        bind-Holds WordRegisters WordRegisters (assign instr regs (ok (regs i))) _
          (assign-WordRegisters instr regs (ok (regs i)) h (h.0 i))
          (λ read k.
            update-WordRegisters read i _ (rw e refl) k
              (and_lt 64 _ 224 (csr_combined-Fits op _ _ (k.0 i)) (omega arith))))

with_registers-IsValid :
    (s : State) (o : Outcome Registers)
    → IsValid s
    → Holds WordRegisters o
    → Holds IsValid (with_registers s o)
with_registers-IsValid s o (h, b, p) k =
    bind-Holds WordRegisters IsValid o _ k (λ regs l. (l, b, p))

with_both-IsValid :
    (s : State) (o : Outcome (Registers × Memory))
    → IsValid s
    → Holds BothIsValid o
    → Holds IsValid (with_both s o)
with_both-IsValid s o (h, b, p) k = bind-Holds BothIsValid IsValid o _ k (λ both l. (l.0, l.1, p))

with_flow-IsValid :
    (s : State) (o : Outcome Flow) → IsValid s → Holds FlowIsValid o → Holds IsValid (with_flow s o)
with_flow-IsValid s o (h, b, p) k = bind-Holds FlowIsValid IsValid o _ k (λ f l. (l.0, b, l.1))

-- What the handler relies on about system calls: a result is a word, and memory stays bytes.
abbrev pub SyscallFits : (List ℕ → Memory → ℕ × Memory) → Type 0
SyscallFits syscall_impl =
    (args : List ℕ) (mem : Memory)
    → ByteMemory mem
    → ((syscall_impl args mem).0 < 2 ^ 64) × ByteMemory (syscall_impl args mem).1

stops : (b : Bool) (n : ℕ) → (not b || (n == 0)) ≡ false → (b ≡ true) × (n ≢ 0)
stops b n e = ground arith

module _ (syscall_impl : List ℕ → Memory → ℕ × Memory) (fits : SyscallFits syscall_impl) where
  -- Every instruction on a state in range, where system calls return words and leave bytes: the
  -- state after it, if there is one, is in range, register 0 still zero.
  pub execute-IsValid :
      (m : Mnemonic) (instr : FrvInst) (r : ℕ) (s : State)
      → IsValid s
      → Holds IsValid (execute syscall_impl m instr r s)
  unfolding execute integer multiply load store lrw lrd fsw fsd
  execute-IsValid (Mnemonic.integer_op m) instr r s v = with_registers-IsValid s _ v (
      assign-WordRegisters instr s.registers _ v.0
        (integer_value-FitsBy m s.pc _ _ instr.imm (v.0.0 instr.rs1) (v.0.0 instr.rs2)))
  execute-IsValid (Mnemonic.branch_op m) instr r s v =
      with_flow-IsValid s _ v (branch-FlowIsValid m s.pc instr s.registers v.0 v.2)
  execute-IsValid (Mnemonic.load_op m) instr r s v = with_registers-IsValid s _ v (
      assign-WordRegisters instr s.registers (ok _) v.0
        (load_value-Fits m s.memory (address instr s.registers) v.1))
  execute-IsValid (Mnemonic.store_op m) instr r s v =
      (v.0, store_value-ByteMemory m s.memory _ _ v.1, v.2)
  execute-IsValid (Mnemonic.multiply_op m) instr r s v =
      with_registers-IsValid s _ v (
        assign-WordRegisters instr s.registers _ v.0
          (multiply_value-FitsBy m _ _ (v.0.0 instr.rs1)))
  execute-IsValid (Mnemonic.csr op) instr r s v =
      with_registers-IsValid s _ v (csr_op-WordRegisters op instr s.registers v.0)
  execute-IsValid (Mnemonic.float op) instr r s v =
      with_registers-IsValid s _ v (float_op-WordRegisters op instr s.memory s.registers v.0 v.1)
  execute-IsValid Mnemonic.fsw_op instr r s v =
      (v.0, store_bytes-ByteMemory 4 s.memory (address instr s.registers) _ v.1, v.2)
  execute-IsValid Mnemonic.fsd_op instr r s v =
      (v.0, store_bytes-ByteMemory 8 s.memory (address instr s.registers) _ v.1, v.2)
  execute-IsValid (Mnemonic.amo op w) instr r s v =
      with_both-IsValid s _ v (amo_op-BothIsValid op w instr s.memory s.registers v.0 v.1)
  execute-IsValid (Mnemonic.store_conditional w) instr r s v =
      with_both-IsValid s _ v (sc-BothIsValid w instr s.memory s.registers v.0 v.1)
  execute-IsValid Mnemonic.load_reserved_w instr r s v =
      with_registers-IsValid s _ v
        (assign-WordRegisters instr s.registers (ok _) v.0 (sign_extend_int64_t-Fits _))
  execute-IsValid Mnemonic.load_reserved_d instr r s v = with_registers-IsValid s _ v (
      assign-WordRegisters instr s.registers (ok _) v.0
        (load_bytes-lt 8 s.memory (s.registers instr.rs1) v.1))
  execute-IsValid Mnemonic.jal_op instr r s v =
      with_flow-IsValid s _ v (jal-FlowIsValid s.pc r instr s.registers v.0)
  execute-IsValid Mnemonic.jalr_op instr r s v =
      with_flow-IsValid s _ v (jalr-FlowIsValid s.pc r instr s.registers v.0)
  execute-IsValid Mnemonic.fence instr r s v = v
  execute-IsValid Mnemonic.fencei instr r s v = v
  execute-IsValid Mnemonic.ecall instr r s v =
      let result = fits (arguments s.registers) s.memory v.1 in
      (update-WordRegisters s.registers 10 _ refl v.0 result.0, result.1, v.2)
  execute-IsValid Mnemonic.other instr r s v = tt

  advance-IsValid : (r : ℕ) (s : State) → IsValid s → IsValid (advance r s)
  advance-IsValid r s v = elim (Bool-cases s.jump) [
    | inl e ↦ rw e v
    | inr e ↦ rw e (v.0, v.1, narrow-Fits w64 (s.pc + r))
  ]

  module _ (frv_decode : Memory → ℕ → Option (ℕ × Mnemonic × FrvInst)) where
    dispatch-IsValid :
        (found : Option (ℕ × Mnemonic × FrvInst)) (s : State)
        → IsValid s
        → Holds IsValid (dispatch syscall_impl frv_decode found s)
    dispatch-IsValid none s v = tt
    dispatch-IsValid (some (r, m, instr)) s v =
        bind-Holds IsValid IsValid
          (execute syscall_impl m instr r (record s { jump = false; is_cfop = false })) _
          (execute-IsValid m instr r (record s { jump = false; is_cfop = false }) v)
          (λ after k. advance-IsValid r after k)

    body-IsValid : (s t : State) → IsValid s → body syscall_impl frv_decode s ≡ ok t → IsValid t
    unfolding body
    body-IsValid s t v e = subst (Holds IsValid) e (dispatch-IsValid (frv_decode s.memory s.pc) s v)

    -- A run of the handler from a state in range, with any decoder and any table of entry points,
    -- where system calls return words and leave bytes: the state in which it leaves is in range,
    -- register 0 zero, behind a control-flow operation, and the address it returns is the entry
    -- point of that state's `pc` and not null.
    pub Leaves-IsValid :
        (calc_target : ℕ → ℕ) {s t : State} {a : ℕ}
        → Leaves syscall_impl frv_decode calc_target s a t
        → IsValid s
        → IsValid t × (t.is_cfop ≡ true) × (a ≡ calc_target t.pc) × (a ≢ 0)
    Leaves-IsValid calc_target {s = s} (left {t = t} e stop) v =
        let stopped = stops t.is_cfop (calc_target t.pc) stop in
        (body-IsValid s t v e, stopped.0, refl, stopped.1)
    Leaves-IsValid calc_target {s = s} (again {t = t} e on rest) v =
        Leaves-IsValid calc_target rest (body-IsValid s t v e)
