-- ===== src/Ir/IrType/Tests.antt =====
-- The table of casts at two types.
use erap_sbt.Base.{◌≡◌}
use erap_sbt.Ir.IrType.{IrType, cast_dir}
use erap_sbt.Ir.IrType.Order.{direction, cast_dir-eq-direction}

cast_dir-eq-direction_example : cast_dir IrType.i8 IrType.i64 ≡ direction IrType.i8 IrType.i64
cast_dir-eq-direction_example = cast_dir-eq-direction IrType.i8 IrType.i64
