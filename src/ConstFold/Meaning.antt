-- ===== src/ConstFold/Meaning.antt =====
-- What a variable holds when the translated block runs, as far as the folding pass relies on it: an
-- immediate holds its value, moved by the base address of the binary where it is relative and
-- converted to the type of the variable; any other variable holds what the environment says.
use erap_sbt.Base.{ℕ, ◌+◌, ◌≡◌, Bool, false, if◌then◌else◌, ◌⊎◌, inl, inr, some, arith}
use erap_sbt.Ir.IrType.{IrType}
use erap_sbt.Ir.Variable.{ImmInfo, immediate, immediate?, SsaVar}
use erap_sbt.Eval.{Width, w8, w16, w32, w64, narrow}

pub record Env : Type 0 where
  pub base : ℕ
  pub value : ℕ → ℕ

-- The integer type of a width.
abbrev pub int_type : Width → IrType
int_type w8 = IrType.i8
int_type w16 = IrType.i16
int_type w32 = IrType.i32
int_type w64 = IrType.i64

-- A 64-bit value held in a variable of a type.
abbrev pub typed : IrType → ℕ → ℕ
typed IrType.i8 n = narrow w8 n
typed IrType.i16 n = narrow w16 n
typed IrType.i32 n = narrow w32 n
typed _ n = narrow w64 n

abbrev pub moved : Env → Bool → ℕ
moved env relative = if relative then env.base else 0

abbrev pub imm_value : Env → ImmInfo → ℕ
imm_value env i = i.val + moved env i.binary_relative

unfoldable pub read : Env → SsaVar → ℕ
read env v = elim v.info [ immediate i ↦ typed v.type (imm_value env i) | _ ↦ env.value v.id ]

-- The types that an operand of an operation at width `w` has in a well-typed block.
abbrev pub Suits : Width → IrType → Type 0
Suits w t = (t ≡ IrType.imm) ⊎ (t ≡ int_type w)

-- Such an operand is narrowed to the operation's type anyway.
pub narrow-typed : (w : Width) (t : IrType) (n : ℕ) → Suits w t → narrow w (typed t n) ≡ narrow w n
narrow-typed w8 t n (inl e) = rw e (omega arith)
narrow-typed w16 t n (inl e) = rw e (omega arith)
narrow-typed w32 t n (inl e) = rw e (omega arith)
narrow-typed w64 t n (inl e) = rw e (omega arith)
narrow-typed w8 t n (inr e) = rw e (omega arith)
narrow-typed w16 t n (inr e) = rw e (omega arith)
narrow-typed w32 t n (inr e) = rw e (omega arith)
narrow-typed w64 t n (inr e) = rw e (omega arith)

-- An immediate operand of an operation at width `w`, as the operation narrows it.
pub read-immediate :
    (w : Width) (env : Env) (v : SsaVar) {i : ImmInfo}
    → immediate? v ≡ some i
    → Suits w v.type
    → narrow w (read env v) ≡ narrow w (imm_value env i)
unfolding read
read-immediate w env v e h = ground (arith, narrow-typed w v.type (imm_value env (i_of v)) h)
  where
    i_of : SsaVar → ImmInfo
    i_of u = elim u.info [ immediate i ↦ i | _ ↦ record { val = 0; binary_relative = false } ]
