-- ===== src/Eval/Words.antt =====
-- The unsigned integer types of src/ir/eval.cpp and the two readings of their values.
use erap_sbt.Base.{ℕ, ◌-◌, ◌*◌, ◌%◌, ◌^◌, ltb, if◌then◌else◌, Outcome, panics}
use erap_sbt.Base.Int.{ℤ, pos, negsuc}
use erap_sbt.Ir.IrType.{IrType}

-- uint8_t, uint16_t, uint32_t, uint64_t.
pub data Width : Type 0 where
  w8 w16 w32 w64 : Width

-- `bit_count`.
abbrev pub bit_count : Width → ℕ
bit_count w8 = 8
bit_count w16 = 16
bit_count w32 = 32
bit_count w64 = 64

abbrev pub modulus : Width → ℕ
modulus w8 = 2 ^ 8
modulus w16 = 2 ^ 16
modulus w32 = 2 ^ 32
modulus w64 = 2 ^ 64

-- The number of values of `NextLargerT`.
abbrev pub next_modulus : Width → ℕ
next_modulus w8 = 2 ^ 16
next_modulus w16 = 2 ^ 32
next_modulus w32 = 2 ^ 64
next_modulus w64 = 2 ^ 128

-- The bits of the type that arithmetic on this type is done in: `int` for the two small ones.
abbrev pub promoted_bits : Width → ℕ
promoted_bits w8 = 32
promoted_bits w16 = 32
promoted_bits w32 = 32
promoted_bits w64 = 64

-- The conversion of a nonnegative value to the type.
abbrev pub narrow : Width → ℕ → ℕ
narrow w n = n % modulus w

-- The same value read as `SignedIntT`.
abbrev pub signed : Width → ℕ → ℤ
signed w n = if ltb (n * 2) (modulus w) then pos n else negsuc (modulus w - n - 1)

-- The conversion of an integer of any sign to an unsigned type with `m` values.
abbrev pub wrap : ℕ → ℤ → ℕ
wrap m (pos n) = n % m
wrap m (negsuc n) = m - 1 - n % m

-- The macro `switch_int_types`: the integer types dispatch, every other type panics.
abbrev pub switch_int_types {ℓ} : {A : Type ℓ} → IrType → (Width → Outcome A) → Outcome A
switch_int_types IrType.i8 action = action w8
switch_int_types IrType.i16 action = action w16
switch_int_types IrType.i32 action = action w32
switch_int_types IrType.i64 action = action w64
switch_int_types _ action = panics
