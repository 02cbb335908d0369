-- ===== src/Lifter.antt =====
-- src/lifter: the instructions of the integer registers, lifted into SSA variables.
pub mod Builder
pub mod Arithmetic
pub mod Shifts
pub mod Meaning
pub mod Steps
pub mod Correct
pub mod Immediate
pub mod ShiftRuns
pub mod Parse
pub mod Agree
pub mod AgreeShifts
pub mod CompareRuns
pub mod Simulation
pub mod Multiply
pub mod MultiplyRuns
pub mod AgreeMultiply
pub mod MultiplySimulation
pub mod Branches
pub mod BranchRuns
mod Tests
