-- ===== src/ConstFold/Block.antt =====
-- src/ir/optimizer/const_folding.cpp: `ConstFoldPass::process_block`, one operation at a time, and the
-- final swap of operands in `const_fold`.
mod Lookup
mod Binary
mod Other
mod Walk
pub mod Folded
pub mod Swap
mod Tests
unfoldable pub use Lookup.*
unfoldable pub use Binary.*
unfoldable pub use Other.*
unfoldable pub use Walk.*
