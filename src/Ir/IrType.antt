-- ===== src/Ir/IrType.antt =====
-- include/ir/type.h: the types of IR variables, and the table that says in which direction a
-- simple cast between two of them goes.
mod Order
mod Tests
use erap_sbt.Base.{ℕ, zero, suc, ◌≡◌, ◌<◌, List, [], ◌∷◌, Bool, true, false, ◌||◌, get_or}
use erap_sbt.Base.Int.{ℤ, pos, negsuc}

pub data IrType : Type 0 where
  imm i64 i32 i16 i8 f64 f32 mt : IrType

-- The position of a type in the enum, `static_cast<size_t>(t)`.
abbrev pub index : IrType → ℕ
index IrType.imm = 0
index IrType.i64 = 1
index IrType.i32 = 2
index IrType.i16 = 3
index IrType.i8 = 4
index IrType.f64 = 5
index IrType.f32 = 6
index IrType.mt = 7

-- `t1 == t2` on types.
unfoldable pub type_eq : IrType → IrType → Bool
type_eq IrType.imm IrType.imm = true
type_eq IrType.i64 IrType.i64 = true
type_eq IrType.i32 IrType.i32 = true
type_eq IrType.i16 IrType.i16 = true
type_eq IrType.i8 IrType.i8 = true
type_eq IrType.f64 IrType.f64 = true
type_eq IrType.f32 IrType.f32 = true
type_eq IrType.mt IrType.mt = true
type_eq _ _ = false

-- `cast_table`, row by row: row `t1`, column `t2`.
abbrev pub cast_table : List (List ℤ)
cast_table =
    let n = negsuc 0 in
    let z = pos 0 in
    let y = pos 1 in
    (z ∷ z ∷ z ∷ z ∷ z ∷ n ∷ n ∷ n ∷ [])
    ∷ (y ∷ z ∷ z ∷ z ∷ z ∷ n ∷ n ∷ n ∷ [])
    ∷ (y ∷ y ∷ z ∷ z ∷ z ∷ n ∷ n ∷ n ∷ [])
    ∷ (y ∷ y ∷ y ∷ z ∷ z ∷ n ∷ n ∷ n ∷ [])
    ∷ (y ∷ y ∷ y ∷ y ∷ z ∷ n ∷ n ∷ n ∷ [])
    ∷ (n ∷ n ∷ n ∷ n ∷ n ∷ z ∷ z ∷ n ∷ [])
    ∷ (n ∷ n ∷ n ∷ n ∷ n ∷ y ∷ z ∷ n ∷ [])
    ∷ (n ∷ n ∷ n ∷ n ∷ n ∷ n ∷ n ∷ n ∷ [])
    ∷ []

-- -1: no simple cast is possible, 0: t1 is not smaller, 1: t1 is smaller than t2. Both indices
-- lie in the table, so the defaults are never read.
unfoldable pub cast_dir : IrType → IrType → ℤ
cast_dir t1 t2 = get_or (get_or cast_table (index t1) []) (index t2) (negsuc 0)

unfoldable pub is_float : IrType → Bool
unfolding type_eq
is_float t = type_eq t IrType.f32 || type_eq t IrType.f64

unfoldable pub is_integer : IrType → Bool
unfolding type_eq
is_integer t =
    type_eq t IrType.i8 || type_eq t IrType.i16 || type_eq t IrType.i32 || type_eq t IrType.i64
