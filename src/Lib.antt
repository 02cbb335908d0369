-- ===== src/Lib.antt =====
-- The optimizer of a static binary translator from RISC-V to x86-64.
--
-- The translator lifts a binary into an intermediate representation: basic blocks of typed SSA
-- variables, each an immediate, an input of the block or the result of an operation. The optimizer
-- rewrites it, and a generator prints assembly. Code that was not translated is interpreted at run
-- time. This library models the evaluator of the
-- representation, the pass that folds constants with it, parts of the pass that removes dead code,
-- the lifter of integer instructions and the interpreter, the parser of the command line and the hash
-- of jump targets.
--
--   Ir         include/ir/type.h, include/ir/instruction.h, include/ir/variable.h and
--              include/ir/operation.h: the types with the table of casts (`Ir.IrType`), the
--              operations (`Ir.Instruction`), the variables (`Ir.Variable`), and the operations that
--              end a block with the blocks (`Ir.ControlFlow`, include/ir/basic_block.h).
--   Eval       src/ir/eval.cpp: `eval_binary_op`, `eval_unary_op`, `eval_div`, `eval_morphing_op`,
--              `typed_equal`, `typed_compare` and `typed_narrow`, each with the template it
--              instantiates for the four integer types. `Eval.Laws` compares them with arithmetic.
--   ConstFold  src/ir/optimizer/const_folding.cpp: `ConstFoldPass`, with the `VarRewriter` of
--              src/ir/optimizer/common.cpp in `ConstFold.State` and `ConstFold.Rewriting`, which
--              rewrites the end of a block. `ConstFold.DoubleOp` has the
--              functions `simplify_double_op_*`, `ConstFold.Single` has `simplify_bi_*` and
--              `simplify_morph`, and `ConstFold.Block` has the rest of `process_block`, one function
--              for each kind of operation, and the final swap of operands in `const_fold`.
--   Dce        src/ir/optimizer/dce.cpp: `Dce.Remove` has `remove_indices_sorted` and the collection
--              of unused inputs, `Dce.Targets` has `is_valid_predecessor`,
--              `check_target_input_removable` and `remove_target_inputs`, and `Dce.Marking` has
--              `mark`, `visit_cf_and_mark_side_effects` and `propagate_from_successors`.
--   Arguments  src/argument_parser.cpp and include/argument_parser.h: the command line, with an
--              argument as the list of its bytes.
--   Hashing    src/generator/x86_64/hashing.cpp: `spookey_hash`, the hash of the table of jump
--              targets, and in `Hashing.Build` the construction of the table from sorted buckets. The
--              search counts `combination_idx` up to UINT16_MAX, which bounds its recursion.
--   Interpreter
--              src/generator/x86_64/helper/interpreter.cpp: the handler of jumps to code that was not
--              translated, one module for each group of instructions, the loop in
--              `Interpreter.Handler`. `Interpreter.Safe` is about the range of its states.
--              `Interpreter.Classify` has FCLASS, for which `Interpreter.Float` calls it.
--   Lifter     src/lifter/lift_utils.cpp, src/lifter/instruction_parser.cpp and
--              src/lifter/instructions: the helpers in `Lifter.Builder`, the instructions by file,
--              `Lifter.Meaning` for what the variables of a block hold when it runs, and
--              `Lifter.Simulation`, `Lifter.MultiplySimulation` and `Lifter.BranchRuns` for the
--              comparison with the interpreter.
--   Base       shared helpers: outcomes, bits, words with a sign bit, integers, tests and lists
--              over native numbers.
--
-- How the code corresponds to the model:
--   * A value of type uint64_t is a natural number below 2 ^ 64, and every conversion to a type of w
--     bits is written as a remainder modulo 2 ^ w. The integer promotions of C++ are written out:
--     where an operation of the code may overflow `int` or a signed 128-bit integer, or shifts by
--     too much, or divides by zero, its outcome is `undefined`.
--   * A call that aborts, by `panic`, `unreachable` or a failed assertion, has the outcome `panics`.
--     The build does not define NDEBUG, so assertions are part of the code.
--   * A pointer to a variable is the id of the variable, which is unique in its block, and a null
--     pointer is `none`. Following a pointer is a lookup among the variables of the block.
--   * A member function of the pass is a function of the state (the counter of ids, the variables in
--     front of the current one and behind it, and the map of the rewriter) into outcomes. The
--     functions that change the current variable return it.
--   * After `replace_with_immediate` has destroyed the operation, `process_block` still reads it; the
--     parameter `stale` of the model is what its test finds there. Nothing is assumed of it.
--   * The loops of the optimizer are over lists, so no fuel is needed. The loop of the interpreter
--     need not end; it is a relation between the state before and the one in which it leaves.
--   * What is not part of the sources is a parameter: the decoder of RISC-V instructions and the
--     kernel's system calls; the table of entry points is one, too. The interpreter's parameter
--     `syscall_impl` stands for src/generator/x86_64/helper/rv64_syscalls.cpp, which asks the kernel.
--   * `Interpreter.Float` has the instructions that load, store, move, classify or sign
--     floating-point numbers. Those that compute with `float` and `double` are not among the
--     mnemonics of `Interpreter.Handler`, and no decoder of the model returns them. Memory has no
--     alignment and no unmapped addresses.
--   * A `std::get` of the wrong alternative throws an exception that nothing catches: `panics`.
--
-- Values (`ConstFold.Meaning`): an environment gives the base address at which the binary is loaded
-- and a value to each variable that is no immediate. A binary-relative immediate is moved by the base
-- address. A rewriting is judged in all environments at once.
--
-- Not modelled: the loops of `dce` over all blocks, the removal of duplicates, floating-point
-- arithmetic, the generator and the system calls. Printing, files and system calls are left out.
pub mod Base
pub mod Interpreter
pub mod Lifter
pub mod Ir
pub mod Eval
pub mod ConstFold
pub mod Dce
pub mod Arguments
pub mod Hashing
