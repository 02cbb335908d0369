-- ===== src/Eval.antt =====
-- src/ir/eval.cpp: the compile-time evaluator of integer operations. The template parameter is a
-- `Width`; a value of an unsigned type is a number below its modulus, and each implicit or written
-- conversion back to the template's type is a `narrow`. What C++17 leaves undefined (in `int`
-- after promotion, too) is the outcome `undefined`.
mod Words
pub mod Compare
pub mod Binary
pub mod Division
pub mod Morph
pub mod Laws
pub use Words.*
