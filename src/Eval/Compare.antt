-- ===== src/Eval/Compare.antt =====
-- src/ir/eval.cpp: `typed_equal`, `typed_compare` and `typed_narrow`.
use erap_sbt.Base.{ℕ, Bool, ltb, ◌==◌, if◌then◌else◌, Outcome, ok}
use erap_sbt.Base.Int.{ℤ, pos, negsuc, ltb_ℤ}
use erap_sbt.Ir.IrType.{IrType}
use erap_sbt.Eval.Words.{narrow, signed, switch_int_types}

-- `compare`, at an unsigned type.
abbrev pub compare_unsigned : ℕ → ℕ → ℤ
compare_unsigned a b = if ltb a b then negsuc 0 else if ltb b a then pos 1 else pos 0

-- `compare`, at a signed type.
abbrev pub compare_signed : ℤ → ℤ → ℤ
compare_signed a b = if ltb_ℤ a b then negsuc 0 else if ltb_ℤ b a then pos 1 else pos 0

unfoldable pub typed_equal : IrType → ℕ → ℕ → Outcome Bool
typed_equal t a b = switch_int_types t (λ w. ok (narrow w a == narrow w b))

-- Only the signed comparison converts its operands to the type.
unfoldable pub typed_compare : IrType → ℕ → ℕ → Bool → Outcome ℤ
typed_compare t a b signed_compare = switch_int_types t λ w. ok (
    if signed_compare
    then compare_signed (signed w (narrow w a)) (signed w (narrow w b))
    else compare_unsigned a b)

unfoldable pub typed_narrow : IrType → ℕ → Outcome ℕ
typed_narrow t value = switch_int_types t (λ w. ok (narrow w value))
