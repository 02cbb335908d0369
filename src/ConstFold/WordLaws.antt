-- ===== src/ConstFold/WordLaws.antt =====
-- Regrouping words where an immediate is moved by the base address before or after the regrouping:
-- the arithmetic behind src/ir/optimizer/const_folding.cpp. `i` and `c` are the values of the inner
-- and of the outer immediate, `p` and `q` what the base address adds to each, and `r` what it adds to
-- the folded one.
use erap_sbt.Base.{ℕ, ◌+◌, ◌-◌, ◌≡◌, ◌<◌, ◌^◌, ◌∙◌, ap, sym, arith}
use erap_sbt.Eval.{Width, w8, w16, w32, w64, modulus, narrow, bit_count}
use erap_sbt.Base.{Outcome, ok, true}
use erap_sbt.Base.Bits.{or_comm, and_comm, xor_comm}
use erap_sbt.Ir.Instruction.{Instruction, is_commutative}
use erap_sbt.Eval.Binary.{eval_binary_op2}
use native.Mathlib.Nat.{add_comm}

-- `a + b` and `a - b` on words, as the evaluator computes them.
abbrev pub plus : Width → ℕ → ℕ → ℕ
plus w a b = narrow w (narrow w a + narrow w b)

abbrev pub minus : Width → ℕ → ℕ → ℕ
minus w a b = narrow w (narrow w a + modulus w - narrow w b)

-- `x' + c` where `x'` is `i + x` or `x + i`.
pub plus-plus_left :
    (w : Width) (i c p q r x : ℕ)
    → r ≡ p + q
    → plus w (plus w i c + r) x ≡ plus w (plus w (i + p) x) (c + q)
plus-plus_left w8 i c p q r x e = omega arith
plus-plus_left w16 i c p q r x e = omega arith
plus-plus_left w32 i c p q r x e = omega arith
plus-plus_left w64 i c p q r x e = omega arith

pub plus-plus_right :
    (w : Width) (i c p q r x : ℕ)
    → r ≡ p + q
    → plus w (plus w i c + r) x ≡ plus w (plus w x (i + p)) (c + q)
plus-plus_right w8 i c p q r x e = omega arith
plus-plus_right w16 i c p q r x e = omega arith
plus-plus_right w32 i c p q r x e = omega arith
plus-plus_right w64 i c p q r x e = omega arith

-- `x' + c` where `x'` is `i - x` or `x - i`.
pub plus-minus_left :
    (w : Width) (i c p q r x : ℕ)
    → r ≡ p + q
    → minus w (plus w i c + r) x ≡ plus w (minus w (i + p) x) (c + q)
plus-minus_left w8 i c p q r x e = omega arith
plus-minus_left w16 i c p q r x e = omega arith
plus-minus_left w32 i c p q r x e = omega arith
plus-minus_left w64 i c p q r x e = omega arith

pub plus-minus_right :
    (w : Width) (i c p q r x : ℕ)
    → q ≡ r + p
    → plus w (minus w c i + r) x ≡ plus w (minus w x (i + p)) (c + q)
plus-minus_right w8 i c p q r x e = omega arith
plus-minus_right w16 i c p q r x e = omega arith
plus-minus_right w32 i c p q r x e = omega arith
plus-minus_right w64 i c p q r x e = omega arith

pub plus-minus_inner :
    (w : Width) (i c p q r x : ℕ)
    → p ≡ r + q
    → minus w x (minus w i c + r) ≡ plus w (minus w x (i + p)) (c + q)
plus-minus_inner w8 i c p q r x e = omega arith
plus-minus_inner w16 i c p q r x e = omega arith
plus-minus_inner w32 i c p q r x e = omega arith
plus-minus_inner w64 i c p q r x e = omega arith

-- `c - x'` where `x'` is `i + x` or `x + i`.
pub minus-plus_left :
    (w : Width) (i c p q r x : ℕ)
    → q ≡ r + p
    → minus w (minus w c i + r) x ≡ minus w (c + q) (plus w (i + p) x)
minus-plus_left w8 i c p q r x e = omega arith
minus-plus_left w16 i c p q r x e = omega arith
minus-plus_left w32 i c p q r x e = omega arith
minus-plus_left w64 i c p q r x e = omega arith

pub minus-plus_right :
    (w : Width) (i c p q r x : ℕ)
    → q ≡ r + p
    → minus w (minus w c i + r) x ≡ minus w (c + q) (plus w x (i + p))
minus-plus_right w8 i c p q r x e = omega arith
minus-plus_right w16 i c p q r x e = omega arith
minus-plus_right w32 i c p q r x e = omega arith
minus-plus_right w64 i c p q r x e = omega arith

-- `c - x'` where `x'` is `i - x` or `x - i`.
pub minus-minus_left :
    (w : Width) (i c p q r x : ℕ)
    → q ≡ r + p
    → plus w (minus w c i + r) x ≡ minus w (c + q) (minus w (i + p) x)
minus-minus_left w8 i c p q r x e = omega arith
minus-minus_left w16 i c p q r x e = omega arith
minus-minus_left w32 i c p q r x e = omega arith
minus-minus_left w64 i c p q r x e = omega arith

pub minus-minus_right :
    (w : Width) (i c p q r x : ℕ)
    → r ≡ p + q
    → minus w (plus w i c + r) x ≡ minus w (c + q) (minus w x (i + p))
minus-minus_right w8 i c p q r x e = omega arith
minus-minus_right w16 i c p q r x e = omega arith
minus-minus_right w32 i c p q r x e = omega arith
minus-minus_right w64 i c p q r x e = omega arith

-- `x' - c` where `x'` is `i + x` or `x + i`.
pub sub-plus_left :
    (w : Width) (i c p q r x : ℕ)
    → p ≡ r + q
    → plus w x (minus w i c + r) ≡ minus w (plus w (i + p) x) (c + q)
sub-plus_left w8 i c p q r x e = omega arith
sub-plus_left w16 i c p q r x e = omega arith
sub-plus_left w32 i c p q r x e = omega arith
sub-plus_left w64 i c p q r x e = omega arith

pub sub-plus_right :
    (w : Width) (i c p q r x : ℕ)
    → p ≡ r + q
    → plus w x (minus w i c + r) ≡ minus w (plus w x (i + p)) (c + q)
sub-plus_right w8 i c p q r x e = omega arith
sub-plus_right w16 i c p q r x e = omega arith
sub-plus_right w32 i c p q r x e = omega arith
sub-plus_right w64 i c p q r x e = omega arith

pub sub-plus_left_first :
    (w : Width) (i c p q r x : ℕ)
    → p ≡ r + q
    → plus w (minus w i c + r) x ≡ minus w (plus w (i + p) x) (c + q)
sub-plus_left_first w8 i c p q r x e = omega arith
sub-plus_left_first w16 i c p q r x e = omega arith
sub-plus_left_first w32 i c p q r x e = omega arith
sub-plus_left_first w64 i c p q r x e = omega arith

pub sub-plus_right_first :
    (w : Width) (i c p q r x : ℕ)
    → p ≡ r + q
    → plus w (minus w i c + r) x ≡ minus w (plus w x (i + p)) (c + q)
sub-plus_right_first w8 i c p q r x e = omega arith
sub-plus_right_first w16 i c p q r x e = omega arith
sub-plus_right_first w32 i c p q r x e = omega arith
sub-plus_right_first w64 i c p q r x e = omega arith

-- `x' - c` where `x'` is `i - x` or `x - i`.
pub sub-minus_left :
    (w : Width) (i c p q r x : ℕ)
    → p ≡ r + q
    → minus w (minus w i c + r) x ≡ minus w (minus w (i + p) x) (c + q)
sub-minus_left w8 i c p q r x e = omega arith
sub-minus_left w16 i c p q r x e = omega arith
sub-minus_left w32 i c p q r x e = omega arith
sub-minus_left w64 i c p q r x e = omega arith

pub sub-minus_right :
    (w : Width) (i c p q r x : ℕ)
    → r ≡ p + q
    → minus w x (plus w i c + r) ≡ minus w (minus w x (i + p)) (c + q)
sub-minus_right w8 i c p q r x e = omega arith
sub-minus_right w16 i c p q r x e = omega arith
sub-minus_right w32 i c p q r x e = omega arith
sub-minus_right w64 i c p q r x e = omega arith

pub sub-minus_right_swapped :
    (w : Width) (i c p q r x : ℕ)
    → r ≡ p + q
    → minus w x (plus w c i + r) ≡ minus w (minus w x (i + p)) (c + q)
sub-minus_right_swapped w8 i c p q r x e = omega arith
sub-minus_right_swapped w16 i c p q r x e = omega arith
sub-minus_right_swapped w32 i c p q r x e = omega arith
sub-minus_right_swapped w64 i c p q r x e = omega arith

narrow-lt : (w : Width) (n : ℕ) → narrow w n < 2 ^ bit_count w
narrow-lt w8 n = omega arith
narrow-lt w16 n = omega arith
narrow-lt w32 n = omega arith
narrow-lt w64 n = omega arith

narrow-eq : (w : Width) (n : ℕ) → n < 2 ^ bit_count w → narrow w n ≡ n
narrow-eq w8 n h = omega arith
narrow-eq w16 n h = omega arith
narrow-eq w32 n h = omega arith
narrow-eq w64 n h = omega arith

-- A bitwise operation on words needs no conversion, so that its laws carry over.
module _ (f : ℕ → ℕ → ℕ) (f_lt : (k a b : ℕ) → a < 2 ^ k → b < 2 ^ k → f a b < 2 ^ k)
    (f_comm : (a b : ℕ) → f a b ≡ f b a) (f_assoc : (a b c : ℕ) → f (f a b) c ≡ f a (f b c))
    (w : Width) where
  word_f : (a b : ℕ) → narrow w (f (narrow w a) (narrow w b)) ≡ f (narrow w a) (narrow w b)
  word_f a b = narrow-eq w _ (f_lt (bit_count w) _ _ (narrow-lt w a) (narrow-lt w b))

  nested :
      (a b c : ℕ)
      → narrow w (f (narrow w (narrow w (f (narrow w a) (narrow w b)))) (narrow w c))
        ≡ narrow w (f (f (narrow w a) (narrow w b)) (narrow w c))
  nested a b c = ap (λ t. narrow w (f t (narrow w c))) (ap (narrow w) (word_f a b) ∙ word_f a b)

  pub bitwise_left :
      (i c x : ℕ)
      → narrow w (f (narrow w (narrow w (f (narrow w i) (narrow w c)))) (narrow w x))
        ≡ narrow w (f (narrow w (narrow w (f (narrow w i) (narrow w x)))) (narrow w c))
  bitwise_left i c x =
      nested i c x
      ∙ ap (narrow w) (f_assoc _ _ _ ∙ ap (f (narrow w i)) (f_comm _ _) ∙ sym (f_assoc _ _ _))
      ∙ sym (nested i x c)

  pub bitwise_right :
      (i c x : ℕ)
      → narrow w (f (narrow w (narrow w (f (narrow w i) (narrow w c)))) (narrow w x))
        ≡ narrow w (f (narrow w (narrow w (f (narrow w x) (narrow w i)))) (narrow w c))
  bitwise_right i c x =
      bitwise_left i c x ∙ ap (λ t. narrow w (f (narrow w (narrow w t)) (narrow w c))) (f_comm _ _)

-- An operation at width `w` on two 64-bit values.
abbrev pub run : Instruction → Width → ℕ → ℕ → Outcome ℕ
run insn w x y = eval_binary_op2 insn w (narrow w x) (narrow w y)

-- The operations that `is_commutative` names do commute.
pub run_comm :
    (insn : Instruction) (w : Width) (x y : ℕ)
    → is_commutative insn ≡ true
    → run insn w x y ≡ run insn w y x
unfolding is_commutative eval_binary_op2
run_comm Instruction.add w x y h = ap (λ t. ok (narrow w t)) (add_comm (narrow w x) (narrow w y))
run_comm Instruction.and w x y h = ap (λ t. ok (narrow w t)) (and_comm (narrow w x) (narrow w y))
run_comm Instruction.or w x y h = ap (λ t. ok (narrow w t)) (or_comm (narrow w x) (narrow w y))
run_comm Instruction.xor w x y h = ap (λ t. ok (narrow w t)) (xor_comm (narrow w x) (narrow w y))
run_comm _ w x y h = absurd (cc)
