-- ===== src/ConstFold/DoubleOp/Flags.antt =====
-- Which immediate of a folded pair is binary-relative (src/ir/optimizer/const_folding.cpp), and what
-- the base address then adds to the folded one.
use erap_sbt.Base.{◌≡◌, arith, true, false, ◌||◌, ◌&&◌, some}
use erap_sbt.Ir.Variable.{ImmInfo, SsaVar, immediate?}
use erap_sbt.Eval.{Width}
use erap_sbt.ConstFold.Meaning.{Suits}
use erap_sbt.ConstFold.DoubleOp.{is_imm, is_relative}
use erap_sbt.ConstFold.DoubleOp.Branches.{Adds, OuterMinus, InnerMinus}

module _ (w : Width) (imm : ImmInfo) (pa pb : SsaVar) where
  module _ (i : ImmInfo) where
    abbrev pub Outer : Type 0
    Outer = (i.binary_relative ≡ false) × (imm.binary_relative ≡ true)

    abbrev pub Inner : Type 0
    Inner = (i.binary_relative ≡ true) × (imm.binary_relative ≡ false)

    abbrev pub Neither : Type 0
    Neither = (i.binary_relative ≡ false) × (imm.binary_relative ≡ false)

    pub Adds-outer : Outer → Adds w imm pa pb i true
    Adds-outer h env = ground arith

    pub Adds-inner : Inner → Adds w imm pa pb i true
    Adds-inner h env = ground arith

    pub Adds-neither : Neither → Adds w imm pa pb i false
    Adds-neither h env = ground arith

    pub OuterMinus-outer : Outer → OuterMinus w imm pa pb i true
    OuterMinus-outer h env = ground arith

    pub OuterMinus-neither : Neither → OuterMinus w imm pa pb i false
    OuterMinus-neither h env = ground arith

    pub InnerMinus-inner : Inner → InnerMinus w imm pa pb i true
    InnerMinus-inner h env = ground arith

    pub InnerMinus-neither : Neither → InnerMinus w imm pa pb i false
    InnerMinus-neither h env = ground arith

-- The situation of a call: well-typed operands of the inner operation, of which at most one is an
-- immediate.
pub record Call (w : Width) (pa pb : SsaVar) : Type 0 where
  pub suits_a : Suits w pa.type
  pub suits_b : Suits w pb.type
  pub one_imm : (is_imm pa && is_imm pb) ≡ false

module _ (w : Width) (imm : ImmInfo) (pa pb : SsaVar) (call : Call w pa pb) (i : ImmInfo) where
  module _ (plain : (is_relative pa || is_relative pb) ≡ false) where
    not_relative_left : immediate? pa ≡ some i → i.binary_relative ≡ false
    not_relative_left e = ground arith

    not_relative_right : immediate? pb ≡ some i → i.binary_relative ≡ false
    not_relative_right e = ground arith

    pub outer_left : imm.binary_relative ≡ true → immediate? pa ≡ some i → Outer w imm pa pb i
    outer_left c e = (not_relative_left e, c)

    pub outer_right : imm.binary_relative ≡ true → immediate? pb ≡ some i → Outer w imm pa pb i
    outer_right c e = (not_relative_right e, c)

    pub neither_left : imm.binary_relative ≡ false → immediate? pa ≡ some i → Neither w imm pa pb i
    neither_left c e = (not_relative_left e, c)

    pub neither_right : imm.binary_relative ≡ false → immediate? pb ≡ some i → Neither w imm pa pb i
    neither_right c e = (not_relative_right e, c)

  module _ (c : imm.binary_relative ≡ false)
      (relative : (is_relative pa || is_relative pb) ≡ true) where
    pub inner_left : immediate? pa ≡ some i → Inner w imm pa pb i
    inner_left e = (ground (arith, call.one_imm), c)

    pub inner_right : immediate? pb ≡ some i → Inner w imm pa pb i
    inner_right e = (ground (arith, call.one_imm), c)
