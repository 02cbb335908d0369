-- ===== src/Interpreter.antt =====
-- src/generator/x86_64/helper/interpreter.cpp: the interpreter of RISC-V instructions that runs where
-- an indirect jump leads to code that was not translated. The switch of the handler is split into
-- its groups.
pub mod Machine
pub mod Integer
pub mod Multiply
pub mod Control
pub mod Access
pub mod Atomic
pub mod Csr
pub mod Handler
pub mod Valid
pub mod Values
pub mod Safe
pub mod Exchange
pub mod Classify
pub mod Float
pub mod FloatSafe
pub mod SignInjection
pub mod Rounding
mod Tests
