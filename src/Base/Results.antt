-- ===== src/Base/Results.antt =====
-- How a piece of the C++ code ends: with a value, by an abort (`panic` of
-- src/ir/optimizer/common.cpp, or a failed `assert`, since the build never defines NDEBUG), or in
-- behaviour that C++17 leaves undefined (a shift by too much, a signed overflow, a division by zero,
-- a null or freed pointer).

pub data Outcome {ℓ} (A : Type ℓ) : Type ℓ where
  ok : A → Outcome A
  panics : Outcome A
  undefined : Outcome A

infixl 5 ◌>>=◌
abbrev pub ◌>>=◌ {ℓ κ} : {A : Type ℓ} {B : Type κ} → Outcome A → (A → Outcome B) → Outcome B
ok a >>= f = f a
panics >>= f = panics
undefined >>= f = undefined
