-- ===== src/ConstFold.antt =====
-- src/ir/optimizer/const_folding.cpp: the constant folding pass.
mod State
pub mod WordLaws
pub mod DoubleOp
pub mod Single
pub mod Rewriting
pub mod Block
pub mod Meaning
pub use State.*
