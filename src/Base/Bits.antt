-- ===== src/Base/Bits.antt =====
-- Laws of the bitwise operations at variables, by induction on a bound of the left operand.
use Prim.Native.Nat.{
  ℕ, zero, suc, ◌+◌, ◌-◌, ◌*◌, ◌/◌, ◌%◌, ◌^◌, ◌≤◌, ◌<◌, min, max, differ, digits, bitwise, bit_and,
  bit_or, bit_xor, bit_and-bitwise, bit_or-bitwise, bit_xor-bitwise,
}
use mathlib.Core.Path.{◌≡◌, refl, ap, sym, ◌∙◌}
use native.Mathlib.Nat.{pow-suc, one-le-pow}
use native.Mathlib.Omega.{arith}

-- The digit recursion that the native operations stand for does not depend on its fuel.
module _ (z : ℕ → ℕ) (f : ℕ → ℕ → ℕ) where
  digits-eq-bitwise : (k n a b : ℕ) → n ≤ k → a ≤ n → digits z f n a b ≡ bitwise z f a b
  digits-eq-bitwise k zero zero b small fits = refl
  digits-eq-bitwise k zero (suc a) b small fits = absurd (omega arith)
  digits-eq-bitwise k (suc n) zero b small fits = refl
  digits-eq-bitwise zero (suc n) (suc a) b small fits = absurd (omega arith)
  digits-eq-bitwise (suc k) (suc n) (suc a) b small fits = omega (
    arith,
    digits-eq-bitwise k n (suc a / 2) (b / 2) (omega arith) (omega arith),
    digits-eq-bitwise k a (suc a / 2) (b / 2) (omega arith) (omega arith),
  )

  bitwise_digit :
      (p q : ℕ)
      → bitwise z f (suc p) q ≡ bitwise z f (suc p / 2) (q / 2) * 2 + f (suc p % 2) (q % 2)
  bitwise_digit p q =
      omega (arith, digits-eq-bitwise p p (suc p / 2) (q / 2) (omega arith) (omega arith))

-- One equation for the lowest digit of each operation.
pub or_digit : (p q : ℕ) → bit_or p q ≡ bit_or (p / 2) (q / 2) * 2 + max (p % 2) (q % 2)
or_digit zero q = simp bit_or-bitwise (omega arith)
or_digit (suc p) q = simp bit_or-bitwise (bitwise_digit (λ y. y) max p q)

pub and_digit : (p q : ℕ) → bit_and p q ≡ bit_and (p / 2) (q / 2) * 2 + min (p % 2) (q % 2)
and_digit zero q = simp bit_and-bitwise (omega arith)
and_digit (suc p) q = simp bit_and-bitwise (bitwise_digit (λ y. 0) min p q)

-- Two binary digits that differ have the sum 1.
differ_bits : (x y : ℕ) → x < 2 → y < 2 → differ x y ≡ (x + y) % 2
differ_bits zero y p q = omega arith
differ_bits (suc zero) zero p q = refl
differ_bits (suc zero) (suc zero) p q = refl
differ_bits (suc zero) (suc (suc y)) p q = absurd (omega arith)
differ_bits (suc (suc x)) y p q = absurd (omega arith)

differ-eq-mod : (a b : ℕ) → differ (a % 2) (b % 2) ≡ (a + b) % 2
differ-eq-mod a b = omega (arith, differ_bits (a % 2) (b % 2) (omega arith) (omega arith))

pub xor_digit : (a b : ℕ) → bit_xor a b ≡ bit_xor (a / 2) (b / 2) * 2 + (a + b) % 2
xor_digit zero b = simp bit_xor-bitwise (omega arith)
xor_digit (suc a) b =
    rw (← differ-eq-mod) (simp bit_xor-bitwise (bitwise_digit (λ y. y) differ a b))

-- Zero on the left.
pub zero-or : (b : ℕ) → bit_or 0 b ≡ b
zero-or b = bit_or-bitwise 0 b

pub zero-and : (b : ℕ) → bit_and 0 b ≡ 0
zero-and b = bit_and-bitwise 0 b

pub zero-xor : (b : ℕ) → bit_xor 0 b ≡ b
zero-xor b = bit_xor-bitwise 0 b

-- The operations commute. `k` bounds both operands.
or_comm_to : (k a b : ℕ) → a ≤ k → b ≤ k → bit_or a b ≡ bit_or b a
or_comm_to zero zero zero p q = refl
or_comm_to zero (suc a) b p q = absurd (omega arith)
or_comm_to zero zero (suc b) p q = absurd (omega arith)
or_comm_to (suc k) a b p q =
    omega
      (arith, or_digit a b, or_digit b a, or_comm_to k (a / 2) (b / 2) (omega arith) (omega arith))

and_comm_to : (k a b : ℕ) → a ≤ k → b ≤ k → bit_and a b ≡ bit_and b a
and_comm_to zero zero zero p q = refl
and_comm_to zero (suc a) b p q = absurd (omega arith)
and_comm_to zero zero (suc b) p q = absurd (omega arith)
and_comm_to (suc k) a b p q =
    omega (
      arith,
      and_digit a b,
      and_digit b a,
      and_comm_to k (a / 2) (b / 2) (omega arith) (omega arith),
    )

xor_comm_to : (k a b : ℕ) → a ≤ k → b ≤ k → bit_xor a b ≡ bit_xor b a
xor_comm_to zero zero zero p q = refl
xor_comm_to zero (suc a) b p q = absurd (omega arith)
xor_comm_to zero zero (suc b) p q = absurd (omega arith)
xor_comm_to (suc k) a b p q =
    omega (
      arith,
      xor_digit a b,
      xor_digit b a,
      xor_comm_to k (a / 2) (b / 2) (omega arith) (omega arith),
    )

pub or_comm : (a b : ℕ) → bit_or a b ≡ bit_or b a
or_comm a b = or_comm_to (a + b) a b (omega arith) (omega arith)

pub and_comm : (a b : ℕ) → bit_and a b ≡ bit_and b a
and_comm a b = and_comm_to (a + b) a b (omega arith) (omega arith)

pub xor_comm : (a b : ℕ) → bit_xor a b ≡ bit_xor b a
xor_comm a b = xor_comm_to (a + b) a b (omega arith) (omega arith)

-- The higher digits and the lowest digit of a result.
or_half : (a b : ℕ) → bit_or a b / 2 ≡ bit_or (a / 2) (b / 2)
or_half a b = omega (arith, or_digit a b)

or_parity : (a b : ℕ) → bit_or a b % 2 ≡ max (a % 2) (b % 2)
or_parity a b = omega (arith, or_digit a b)

and_half : (a b : ℕ) → bit_and a b / 2 ≡ bit_and (a / 2) (b / 2)
and_half a b = omega (arith, and_digit a b)

and_parity : (a b : ℕ) → bit_and a b % 2 ≡ min (a % 2) (b % 2)
and_parity a b = omega (arith, and_digit a b)

xor_half : (a b : ℕ) → bit_xor a b / 2 ≡ bit_xor (a / 2) (b / 2)
xor_half a b = omega (arith, xor_digit a b)

xor_parity : (a b : ℕ) → bit_xor a b % 2 ≡ (a + b) % 2
xor_parity a b = omega (arith, xor_digit a b)

-- They associate. `k` bounds the first operand.
or_assoc_to : (k a b c : ℕ) → a ≤ k → bit_or (bit_or a b) c ≡ bit_or a (bit_or b c)
or_assoc_to k zero b c p = ap (λ t. bit_or t c) (zero-or b) ∙ sym (zero-or (bit_or b c))
or_assoc_to zero (suc a) b c p = absurd (omega arith)
or_assoc_to (suc k) (suc a) b c p = omega (
  arith,
  or_digit (bit_or (suc a) b) c,
  or_digit (suc a) (bit_or b c),
  or_half (suc a) b,
  or_half b c,
  or_parity (suc a) b,
  or_parity b c,
  ap (λ t. bit_or t (c / 2)) (or_half (suc a) b),
  ap (λ t. bit_or (suc a / 2) t) (or_half b c),
  or_assoc_to k (suc a / 2) (b / 2) (c / 2) (omega arith),
)

pub or_assoc : (a b c : ℕ) → bit_or (bit_or a b) c ≡ bit_or a (bit_or b c)
or_assoc a b c = or_assoc_to a a b c (omega arith)

and_assoc_to : (k a b c : ℕ) → a ≤ k → bit_and (bit_and a b) c ≡ bit_and a (bit_and b c)
and_assoc_to k zero b c p =
    ap (λ t. bit_and t c) (zero-and b) ∙ zero-and c ∙ sym (zero-and (bit_and b c))
and_assoc_to zero (suc a) b c p = absurd (omega arith)
and_assoc_to (suc k) (suc a) b c p = omega (
  arith,
  and_digit (bit_and (suc a) b) c,
  and_digit (suc a) (bit_and b c),
  and_half (suc a) b,
  and_half b c,
  and_parity (suc a) b,
  and_parity b c,
  ap (λ t. bit_and t (c / 2)) (and_half (suc a) b),
  ap (λ t. bit_and (suc a / 2) t) (and_half b c),
  and_assoc_to k (suc a / 2) (b / 2) (c / 2) (omega arith),
)

pub and_assoc : (a b c : ℕ) → bit_and (bit_and a b) c ≡ bit_and a (bit_and b c)
and_assoc a b c = and_assoc_to a a b c (omega arith)

xor_assoc_to : (k a b c : ℕ) → a ≤ k → bit_xor (bit_xor a b) c ≡ bit_xor a (bit_xor b c)
xor_assoc_to k zero b c p = ap (λ t. bit_xor t c) (zero-xor b) ∙ sym (zero-xor (bit_xor b c))
xor_assoc_to zero (suc a) b c p = absurd (omega arith)
xor_assoc_to (suc k) (suc a) b c p = omega (
  arith,
  xor_digit (bit_xor (suc a) b) c,
  xor_digit (suc a) (bit_xor b c),
  xor_half (suc a) b,
  xor_half b c,
  xor_parity (suc a) b,
  xor_parity b c,
  ap (λ t. bit_xor t (c / 2)) (xor_half (suc a) b),
  ap (λ t. bit_xor (suc a / 2) t) (xor_half b c),
  xor_assoc_to k (suc a / 2) (b / 2) (c / 2) (omega arith),
)

pub xor_assoc : (a b c : ℕ) → bit_xor (bit_xor a b) c ≡ bit_xor a (bit_xor b c)
xor_assoc a b c = xor_assoc_to a a b c (omega arith)

-- Results stay below the power of two that bounds the operands.
pub or_lt : (k a b : ℕ) → a < 2 ^ k → b < 2 ^ k → bit_or a b < 2 ^ k
or_lt zero zero zero p q = omega (arith, zero-or 0)
or_lt zero (suc a) b p q = absurd (omega arith)
or_lt zero zero (suc b) p q = absurd (omega arith)
or_lt (suc k) a b p q = omega (
  arith,
  or_digit a b,
  pow-suc 2 k,
  or_lt k (a / 2) (b / 2) (omega (arith, pow-suc 2 k)) (omega (arith, pow-suc 2 k)),
)

pub and_lt : (k a b : ℕ) → a < 2 ^ k → b < 2 ^ k → bit_and a b < 2 ^ k
and_lt zero zero zero p q = omega (arith, zero-and 0)
and_lt zero (suc a) b p q = absurd (omega arith)
and_lt zero zero (suc b) p q = absurd (omega arith)
and_lt (suc k) a b p q = omega (
  arith,
  and_digit a b,
  pow-suc 2 k,
  and_lt k (a / 2) (b / 2) (omega (arith, pow-suc 2 k)) (omega (arith, pow-suc 2 k)),
)

pub xor_lt : (k a b : ℕ) → a < 2 ^ k → b < 2 ^ k → bit_xor a b < 2 ^ k
xor_lt zero zero zero p q = omega (arith, zero-xor 0)
xor_lt zero (suc a) b p q = absurd (omega arith)
xor_lt zero zero (suc b) p q = absurd (omega arith)
xor_lt (suc k) a b p q = omega (
  arith,
  xor_digit a b,
  pow-suc 2 k,
  xor_lt k (a / 2) (b / 2) (omega (arith, pow-suc 2 k)) (omega (arith, pow-suc 2 k)),
)

-- The word of `k` ones.
abbrev pub ones : ℕ → ℕ
ones k = 2 ^ k - 1

ones_half : (k : ℕ) → ones (suc k) / 2 ≡ ones k
ones_half k = omega (arith, pow-suc 2 k, one-le-pow k 2)

pub or-ones : (k a : ℕ) → a < 2 ^ k → bit_or (ones k) a ≡ ones k
or-ones zero a p = zero-or a ∙ omega arith
or-ones (suc k) a p = omega (
  arith,
  or_digit (ones (suc k)) a,
  ap (λ t. bit_or t (a / 2)) (ones_half k),
  pow-suc 2 k,
  one-le-pow k 2,
  or-ones k (a / 2) (omega (arith, pow-suc 2 k)),
)

pub and-ones : (k a : ℕ) → a < 2 ^ k → bit_and (ones k) a ≡ a
and-ones zero a p = zero-and a ∙ omega arith
and-ones (suc k) a p = omega (
  arith,
  and_digit (ones (suc k)) a,
  ap (λ t. bit_and t (a / 2)) (ones_half k),
  pow-suc 2 k,
  one-le-pow k 2,
  and-ones k (a / 2) (omega (arith, pow-suc 2 k)),
)

-- `x ^ ~0` is `~x`.
pub xor-ones : (k a : ℕ) → a < 2 ^ k → bit_xor (ones k) a ≡ ones k - a
xor-ones zero a p = zero-xor a ∙ omega arith
xor-ones (suc k) a p = omega (
  arith,
  xor_digit (ones (suc k)) a,
  ap (λ t. bit_xor t (a / 2)) (ones_half k),
  pow-suc 2 k,
  one-le-pow k 2,
  xor-ones k (a / 2) (omega (arith, pow-suc 2 k)),
)

xor_self_to : (k a : ℕ) → a ≤ k → bit_xor a a ≡ 0
xor_self_to k zero p = zero-xor 0
xor_self_to zero (suc a) p = absurd (omega arith)
xor_self_to (suc k) (suc a) p =
    omega (arith, xor_digit (suc a) (suc a), xor_self_to k (suc a / 2) (omega arith))

pub xor_self : (a : ℕ) → bit_xor a a ≡ 0
xor_self a = xor_self_to a a (omega arith)

-- A mask of low ones leaves the remainder.
and-mask_1 : (n : ℕ) → bit_and n 1 ≡ n % 2
and-mask_1 n = omega (arith, and_digit n 1, and_comm (n / 2) 0, zero-and (n / 2))

and-mask_2 : (n : ℕ) → bit_and n 3 ≡ n % 4
and-mask_2 n = omega (arith, and_digit n 3, and-mask_1 (n / 2))

and-mask_3 : (n : ℕ) → bit_and n 7 ≡ n % 8
and-mask_3 n = omega (arith, and_digit n 7, and-mask_2 (n / 2))

and-mask_4 : (n : ℕ) → bit_and n 15 ≡ n % 16
and-mask_4 n = omega (arith, and_digit n 15, and-mask_3 (n / 2))

pub and-mask_5 : (n : ℕ) → bit_and n 31 ≡ n % 32
and-mask_5 n = omega (arith, and_digit n 31, and-mask_4 (n / 2))

pub and-mask_6 : (n : ℕ) → bit_and n 63 ≡ n % 64
and-mask_6 n = omega (arith, and_digit n 63, and-mask_5 (n / 2))
