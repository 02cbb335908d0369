-- ===== src/Ir.antt =====
-- The intermediate representation (include/ir, src/ir).
pub mod IrType
pub mod Instruction
pub mod Variable
pub mod ControlFlow
