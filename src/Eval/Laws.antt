-- ===== src/Eval/Laws.antt =====
-- What the evaluator of src/ir/eval.cpp computes, against the arithmetic it stands for.
pub mod Products
pub mod Extend
pub mod Bounds
mod Tests
