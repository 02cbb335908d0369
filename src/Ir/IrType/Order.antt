-- ===== src/Ir/IrType/Order.antt =====
-- The cast table (include/ir/type.h) orders each family of types by size.
use erap_sbt.Base.{ℕ, ◌≡◌, refl, true, ◌&&◌, ◌↔◌, ltb, ◌==◌, if◌then◌else◌, arith}
use erap_sbt.Base.Int.{ℤ, pos, negsuc}
use erap_sbt.Ir.IrType.{IrType, cast_dir, type_eq}

-- What the comments of the header say of the types: integers and the untyped immediate cast among
-- themselves, floats among themselves, memory tokens not at all.
abbrev family : IrType → ℕ
family IrType.f64 = 1
family IrType.f32 = 1
family IrType.mt = 2
family _ = 0

-- The size in bits; an untyped immediate is larger than every integer.
abbrev size : IrType → ℕ
size IrType.imm = 128
size IrType.i64 = 64
size IrType.i32 = 32
size IrType.i16 = 16
size IrType.i8 = 8
size IrType.f64 = 64
size IrType.f32 = 32
size IrType.mt = 0

abbrev pub direction : IrType → IrType → ℤ
direction s t =
    if family s == family t && ltb (family s) 2
    then if ltb (size s) (size t) then pos 1 else pos 0
    else negsuc 0

-- For every two types the table's entry is -1 unless both are integers (or untyped immediates) or
-- both are floats; otherwise it is 1 exactly when the first type has fewer bits, and 0 if not.
pub cast_dir-eq-direction : (s t : IrType) → cast_dir s t ≡ direction s t
unfolding cast_dir
cast_dir-eq-direction s t = ground arith

pub type_eq_iff : (s t : IrType) → (type_eq s t ≡ true) ↔ (s ≡ t)
unfolding type_eq
type_eq_iff IrType.imm IrType.imm = ((λ _. refl), (λ _. refl))
type_eq_iff _ _ = ground arith
