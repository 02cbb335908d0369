-- ===== src/Base/SignBit.antt =====
-- The bitwise operations that read and write the sign of a floating-point number, the uppermost bit of
-- a word.
use erap_sbt.Base.{
  ℕ, zero, suc, ◌+◌, ◌-◌, ◌*◌, ◌/◌, ◌%◌, ◌^◌, ◌<◌, ◌≡◌, refl, ◌∙◌, ap, ap₂, bit_and, bit_or,
  bit_xor, arith,
}
use native.Mathlib.Nat.{one-le-pow}
use erap_sbt.Base.Bits.{and-ones, and_comm, zero-or, zero-and, zero-xor, or_comm, xor_comm}
use erap_sbt.Base.Split.{and_split, or_split, xor_split}

-- A word of `suc k` bits by its uppermost bit and the rest.
abbrev pub word : ℕ → ℕ → ℕ → ℕ
word k s m = s * 2 ^ k + m

-- The operations on one digit.
and-zero : (s : ℕ) → bit_and s 0 ≡ 0
and-zero s = and_comm s 0 ∙ zero-and s

and-one : (s : ℕ) → s < 2 → bit_and s 1 ≡ s
and-one zero p = refl
and-one (suc zero) p = refl
and-one (suc (suc s)) p = absurd (omega arith)

xor_digits : (s t : ℕ) → s < 2 → t < 2 → bit_xor s t ≡ (s + t) % 2
xor_digits zero zero p q = refl
xor_digits zero (suc zero) p q = refl
xor_digits (suc zero) zero p q = refl
xor_digits (suc zero) (suc zero) p q = refl
xor_digits (suc (suc s)) t p q = absurd (omega arith)
xor_digits s (suc (suc t)) p q = absurd (omega arith)

module _ (k : ℕ) where
  positive : 0 < 2 ^ k
  positive = omega (arith, one-le-pow k 2)

  at_low : (m : ℕ) → m ≡ word k 0 m
  at_low m = omega arith

  at_high : (s : ℕ) → s * 2 ^ k ≡ word k s 0
  at_high s = omega arith

  at_one : 2 ^ k ≡ word k 1 0
  at_one = omega arith

  -- The two masks, and the operations on a sign.
  and-magnitude : (s m : ℕ) → m < 2 ^ k → bit_and (word k s m) (2 ^ k - 1) ≡ m
  and-magnitude s m h = omega (
    arith,
    ap (bit_and (word k s m)) (at_low (2 ^ k - 1)),
    and_split k s 0 m (2 ^ k - 1) h (omega (arith, positive)),
    ap (λ x. x * 2 ^ k) (and-zero s),
    and_comm m (2 ^ k - 1),
    and-ones k m h,
  )

  and-sign : (s m : ℕ) → s < 2 → m < 2 ^ k → bit_and (word k s m) (2 ^ k) ≡ s * 2 ^ k
  and-sign s m p h = omega (
    arith,
    ap (bit_and (word k s m)) at_one,
    and_split k s 1 m 0 h positive,
    ap (λ x. x * 2 ^ k) (and-one s p),
    and-zero m,
  )

  or-sign : (s m : ℕ) → m < 2 ^ k → bit_or m (s * 2 ^ k) ≡ word k s m
  or-sign s m h = omega (
    arith,
    ap₂ bit_or (at_low m) (at_high s),
    or_split k 0 s m 0 h positive,
    ap (λ x. x * 2 ^ k) (zero-or s),
    or_comm m 0,
    zero-or m,
  )

  xor-signs : (s t : ℕ) → s < 2 → t < 2 → bit_xor (s * 2 ^ k) (t * 2 ^ k) ≡ (s + t) % 2 * 2 ^ k
  xor-signs s t p q = omega (
    arith,
    ap₂ bit_xor (at_high s) (at_high t),
    xor_split k s t 0 0 positive positive,
    ap (λ x. x * 2 ^ k) (xor_digits s t p q),
    zero-xor 0,
  )

  xor-flip : (s m : ℕ) → s < 2 → m < 2 ^ k → bit_xor (word k s m) (2 ^ k) ≡ word k ((s + 1) % 2) m
  xor-flip s m p h = omega (
    arith,
    ap (bit_xor (word k s m)) at_one,
    xor_split k s 1 m 0 h positive,
    ap (λ x. x * 2 ^ k) (xor_digits s 1 p (omega arith)),
    xor_comm m 0,
    zero-xor m,
  )

-- A format with the sign in bit `k`.
module _ (k : ℕ) (parts : (a : ℕ) → a ≡ word k (a / 2 ^ k) (a % 2 ^ k))
    (rest : (a : ℕ) → a % 2 ^ k < 2 ^ k) where
  pub masked : (a : ℕ) → bit_and a (2 ^ k - 1) ≡ a % 2 ^ k
  masked a =
      ap (λ x. bit_and x (2 ^ k - 1)) (parts a) ∙ and-magnitude k (a / 2 ^ k) (a % 2 ^ k) (rest a)

  sign_kept : (a : ℕ) → a / 2 ^ k < 2 → bit_and a (2 ^ k) ≡ a / 2 ^ k * 2 ^ k
  sign_kept a h =
      ap (λ x. bit_and x (2 ^ k)) (parts a) ∙ and-sign k (a / 2 ^ k) (a % 2 ^ k) h (rest a)

  pub joined :
      (a b : ℕ)
      → b / 2 ^ k < 2
      → bit_or (bit_and a (2 ^ k - 1)) (bit_and b (2 ^ k)) ≡ word k (b / 2 ^ k) (a % 2 ^ k)
  joined a b h = ap₂ bit_or (masked a) (sign_kept b h) ∙ or-sign k (b / 2 ^ k) (a % 2 ^ k) (rest a)

  pub crossed :
      (a b : ℕ)
      → a / 2 ^ k < 2
      → b / 2 ^ k < 2
      → bit_or (bit_and a (2 ^ k - 1)) (bit_xor (bit_and a (2 ^ k)) (bit_and b (2 ^ k)))
        ≡ word k ((a / 2 ^ k + b / 2 ^ k) % 2) (a % 2 ^ k)
  crossed a b g h =
      ap₂ bit_or (masked a)
        (ap₂ bit_xor (sign_kept a g) (sign_kept b h) ∙ xor-signs k (a / 2 ^ k) (b / 2 ^ k) g h)
      ∙ or-sign k ((a / 2 ^ k + b / 2 ^ k) % 2) (a % 2 ^ k) (rest a)

  pub flipped :
      (a : ℕ) → a / 2 ^ k < 2 → bit_xor a (2 ^ k) ≡ word k ((a / 2 ^ k + 1) % 2) (a % 2 ^ k)
  flipped a h =
      ap (λ x. bit_xor x (2 ^ k)) (parts a) ∙ xor-flip k (a / 2 ^ k) (a % 2 ^ k) h (rest a)
