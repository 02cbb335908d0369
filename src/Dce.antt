-- ===== src/Dce.antt =====
-- src/ir/optimizer/dce.cpp: the removal of dead code.
pub mod Remove
pub mod Targets
pub mod Marking
mod Tests
