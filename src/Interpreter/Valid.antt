-- ===== src/Interpreter/Valid.antt =====
-- src/generator/x86_64/helper/interpreter.cpp: states in range, and the writes that keep them so.
use erap_sbt.Base.{
  ℕ, zero, suc, ◌+◌, ◌/◌, ◌%◌, ◌^◌, ◌<◌, ◌==◌, ◌≡◌, refl, ◌∙◌, false, Bool-cases, inl, inr, Outcome,
  ok, panics, undefined, ◌>>=◌, arith,
}
use native.Mathlib.Nat.{pow-suc}
use erap_sbt.Eval.{w64}
use erap_sbt.Eval.Laws.Products.{Fits}
use erap_sbt.Eval.Laws.Bounds.{FitsBy}
use erap_sbt.Interpreter.Machine.{
  FrvInst, Registers, Memory, update, assign, load_bytes, store_bytes,
}

-- Every register is a word, and register 0 is zero.
abbrev pub WordRegisters : Registers → Type 0
WordRegisters regs = ((i : ℕ) → regs i < 2 ^ 64) × (regs 0 ≡ 0)

-- Every cell of memory is a byte.
abbrev pub ByteMemory : Memory → Type 0
ByteMemory mem = (a : ℕ) → mem a < 256

-- A property of the value of an outcome, if there is one.
abbrev pub Holds {ℓ} : {A : Type ℓ} → (A → Type 0) → Outcome A → Type 0
Holds P (ok a) = P a
Holds P panics = Unit
Holds P undefined = Unit

pub bind-Holds {ℓ κ} :
    {A : Type ℓ} {B : Type κ} (P : A → Type 0) (Q : B → Type 0) (o : Outcome A) (f : A → Outcome B)
    → Holds P o
    → ((a : A) → P a → Holds Q (f a))
    → Holds Q (o >>= f)
bind-Holds P Q (ok a) f h k = k a h
bind-Holds P Q panics f h k = tt
bind-Holds P Q undefined f h k = tt

pub update-lt :
    (m : ℕ) (f : ℕ → ℕ) (i v : ℕ) → ((j : ℕ) → f j < m) → v < m → (j : ℕ) → update f i v j < m
update-lt m f i v h k j = elim (Bool-cases (i == j)) [ inl e ↦ rw e k | inr e ↦ rw e (h j) ]

nonzero_index : (i : ℕ) → (i == 0) ≡ false → (f : ℕ → ℕ) (v : ℕ) → update f i v 0 ≡ f 0
nonzero_index i e f v = rw e refl

-- A write to a register other than 0.
pub update-WordRegisters :
    (regs : Registers) (i v : ℕ)
    → (i == 0) ≡ false
    → WordRegisters regs
    → Fits w64 v
    → WordRegisters (update regs i v)
update-WordRegisters regs i v e (h, z) k =
    (update-lt (2 ^ 64) regs i v h k, nonzero_index i e regs v ∙ z)

pub assign-WordRegisters :
    (instr : FrvInst) (regs : Registers) (value : Outcome ℕ)
    → WordRegisters regs
    → FitsBy w64 value
    → Holds WordRegisters (assign instr regs value)
unfolding assign
assign-WordRegisters instr regs (ok v) h k = elim (Bool-cases (instr.rd == 0)) [
  | inl e ↦ rw e h
  | inr e ↦ rw e (update-WordRegisters regs instr.rd v e h k)
]
assign-WordRegisters instr regs panics h k = elim (Bool-cases (instr.rd == 0)) [
  | inl e ↦ rw e h
  | inr e ↦ rw e tt
]
assign-WordRegisters instr regs undefined h k = elim (Bool-cases (instr.rd == 0)) [
  | inl e ↦ rw e h
  | inr e ↦ rw e tt
]

pub store_bytes-ByteMemory :
    (n : ℕ) (mem : Memory) (a v : ℕ) → ByteMemory mem → ByteMemory (store_bytes n mem a v)
unfolding store_bytes
store_bytes-ByteMemory zero mem a v h = h
store_bytes-ByteMemory (suc n) mem a v h =
    store_bytes-ByteMemory n (update mem a (v % 256)) ((a + 1) % 2 ^ 64) (v / 256)
      (update-lt 256 mem a (v % 256) h (omega arith))

pub load_bytes-lt : (n : ℕ) (mem : Memory) (a : ℕ) → ByteMemory mem → load_bytes n mem a < 256 ^ n
unfolding load_bytes
load_bytes-lt zero mem a h = omega arith
load_bytes-lt (suc n) mem a h =
    omega (arith, pow-suc 256 n, h a, load_bytes-lt n mem ((a + 1) % 2 ^ 64) h)
