-- ===== src/Base/Split.antt =====
-- The bitwise operations on the upper and the lower digits of their operands.
use erap_sbt.Base.{
  ℕ, zero, suc, ◌+◌, ◌*◌, ◌/◌, ◌%◌, ◌^◌, ◌<◌, ◌≡◌, refl, ap₂, bit_and, bit_or, bit_xor, arith,
}
use native.Mathlib.Nat.{pow-suc}
use Prim.Native.Nat.{min, max}
use erap_sbt.Base.Bits.{and_digit, or_digit, xor_digit}

doubled : (k p : ℕ) → p * 2 ^ suc k ≡ 2 * (p * 2 ^ k)
doubled k p = rw (pow-suc 2 k) (grind arith)

half : (k p r : ℕ) → (p * 2 ^ suc k + r) / 2 ≡ p * 2 ^ k + r / 2
half k p r = omega (arith, doubled k p)

lowest : (k p r : ℕ) → (p * 2 ^ suc k + r) % 2 ≡ r % 2
lowest k p r = omega (arith, doubled k p)

nil : (r : ℕ) → r < 2 ^ 0 → r ≡ 0
nil r h = omega arith

whole : (p r : ℕ) → r < 2 ^ 0 → p * 2 ^ 0 + r ≡ p
whole p r h = omega arith

module _ (f d : ℕ → ℕ → ℕ) (digit : (p q : ℕ) → f p q ≡ f (p / 2) (q / 2) * 2 + d (p % 2) (q % 2))
    (zeros : f 0 0 ≡ 0) where
  split :
      (k p q r s : ℕ)
      → r < 2 ^ k
      → s < 2 ^ k
      → f (p * 2 ^ k + r) (q * 2 ^ k + s) ≡ f p q * 2 ^ k + f r s
  split zero p q r s h h' =
      omega (arith, ap₂ f (whole p r h) (whole q s h'), ap₂ f (nil r h) (nil s h'), zeros)
  split (suc k) p q r s h h' = omega (
    arith,
    digit (p * 2 ^ suc k + r) (q * 2 ^ suc k + s),
    ap₂ f (half k p r) (half k q s),
    ap₂ d (lowest k p r) (lowest k q s),
    digit r s,
    split k p q (r / 2) (s / 2) (omega (arith, pow-suc 2 k)) (omega (arith, pow-suc 2 k)),
    doubled k (f p q),
  )

pub and_split :
    (k p q r s : ℕ)
    → r < 2 ^ k
    → s < 2 ^ k
    → bit_and (p * 2 ^ k + r) (q * 2 ^ k + s) ≡ bit_and p q * 2 ^ k + bit_and r s
and_split k p q r s = split bit_and min and_digit refl k p q r s

pub or_split :
    (k p q r s : ℕ)
    → r < 2 ^ k
    → s < 2 ^ k
    → bit_or (p * 2 ^ k + r) (q * 2 ^ k + s) ≡ bit_or p q * 2 ^ k + bit_or r s
or_split k p q r s = split bit_or max or_digit refl k p q r s

parity : (p q : ℕ) → bit_xor p q ≡ bit_xor (p / 2) (q / 2) * 2 + (p % 2 + q % 2) % 2
parity p q = omega (arith, xor_digit p q)

pub xor_split :
    (k p q r s : ℕ)
    → r < 2 ^ k
    → s < 2 ^ k
    → bit_xor (p * 2 ^ k + r) (q * 2 ^ k + s) ≡ bit_xor p q * 2 ^ k + bit_xor r s
xor_split k p q r s = split bit_xor (λ x y. (x + y) % 2) parity refl k p q r s
