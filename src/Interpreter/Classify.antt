-- ===== src/Interpreter/Classify.antt =====
-- src/generator/x86_64/helper/interpreter.cpp: FCLASS.S and FCLASS.D, the class of a
-- floating-point number as a word with one bit.
use erap_sbt.Base.{
  ℕ, ◌/◌, ◌%◌, ◌^◌, ◌<◌, ◌==◌, ◌≡◌, ◌&&◌, not, ltb, Bool, if◌then◌else◌, bit_or, arith,
}

abbrev pub sign_bit : ℕ → Bool
sign_bit val = not (val / 2 ^ 31 == 0)

abbrev pub exponent : ℕ → ℕ
exponent val = val / 2 ^ 23 % 256

abbrev pub mantisse : ℕ → ℕ
mantisse val = val % 2 ^ 23

abbrev pub quiet : ℕ → Bool
quiet val = not (mantisse val / 2 ^ 22 == 0)

-- `result |= test << k`
abbrev pub with_bit : Bool → ℕ → ℕ → ℕ
with_bit test value result = bit_or result (if test then value else 0)

-- The result of FCLASS.S.
unfoldable pub fclass_s : ℕ → ℕ
fclass_s val =
    let sign = sign_bit val in
    let e = exponent val in
    let m = mantisse val in
    let normal = not (e == 0) && not (e == 255) in
    let subnormal = (e == 0) && not (m == 0) in
    with_bit ((e == 255) && quiet val) 512 (
      with_bit ((e == 255) && (not (quiet val) && not (m == 0))) 256 (
        with_bit (val == 2139095040) 128 (
          with_bit (not sign && normal) 64 (
            with_bit (not sign && subnormal) 32 (
              with_bit (val == 0) 16 (
                with_bit (val == 2147483648) 8 (
                  with_bit (sign && subnormal) 4
                    (with_bit (sign && normal) 2 (if val == 4286578688 then 1 else 0)))))))))

-- The fields of a number of 64 bits.
abbrev pub sign_bit_d : ℕ → Bool
sign_bit_d val = not (val / 2 ^ 63 == 0)

abbrev pub exponent_d : ℕ → ℕ
exponent_d val = val / 2 ^ 52 % 2048

abbrev pub mantisse_d : ℕ → ℕ
mantisse_d val = val % 2 ^ 52

abbrev pub quiet_d : ℕ → Bool
quiet_d val = not (mantisse_d val / 2 ^ 51 == 0)

-- The result of FCLASS.D.
unfoldable pub fclass_d : ℕ → ℕ
fclass_d val =
    let sign = sign_bit_d val in
    let e = exponent_d val in
    let m = mantisse_d val in
    let normal = not (e == 0) && not (e == 2047) in
    let subnormal = (e == 0) && not (m == 0) in
    with_bit ((e == 2047) && quiet_d val) 512 (
      with_bit ((e == 2047) && (not (quiet_d val) && not (m == 0))) 256 (
        with_bit (val == 9218868437227405312) 128 (
          with_bit (not sign && normal) 64 (
            with_bit (not sign && subnormal) 32 (
              with_bit (val == 0) 16 (
                with_bit (val == 9223372036854775808) 8 (
                  with_bit (sign && subnormal) 4 (
                    with_bit (sign && normal) 2
                      (if val == 18442240474082181120 then 1 else 0)))))))))

-- The class by the magnitude of the word, a number below the sign bit: the subnormal numbers end at
-- `normal`, the normal ones at `infinity`, and from `quiet_nan` on the NaNs are quiet.
abbrev pub class_of : ℕ → ℕ → ℕ → Bool → ℕ → ℕ
class_of normal infinity quiet_nan negative magnitude =
    if magnitude == 0
    then if negative then 8 else 16
    else if ltb magnitude normal
    then if negative then 4 else 32
    else if ltb magnitude infinity
    then if negative then 2 else 64
    else if magnitude == infinity
    then if negative then 1 else 128
    else if ltb magnitude quiet_nan
    then 256
    else 512

-- The ranges of the formats of 32 and 64 bits.
abbrev pub class_s : ℕ → ℕ
class_s val =
    class_of 0x80_0000 0x7f80_0000 0x7fc0_0000 (not (ltb val 0x8000_0000)) (val % 0x8000_0000)

abbrev pub class_d : ℕ → ℕ
class_d val =
    class_of 0x10_0000_0000_0000 0x7ff0_0000_0000_0000 0x7ff8_0000_0000_0000
      (not (ltb val 0x8000_0000_0000_0000)) (val % 0x8000_0000_0000_0000)

-- For every word of 32 bits: FCLASS.S gives the one bit of its class, as the range that its
-- magnitude lies in and its sign tell the ten classes apart, quiet and signalling NaNs included.
pub fclass_s-class_of : (val : ℕ) → val < 2 ^ 32 → fclass_s val ≡ class_s val
unfolding fclass_s
fclass_s-class_of val h = ground arith

-- For every word of 64 bits: FCLASS.D gives the one bit of its class, as the range that its
-- magnitude lies in and its sign tell the ten classes apart, quiet and signalling NaNs included.
pub fclass_d-class_of : (val : ℕ) → val < 2 ^ 64 → fclass_d val ≡ class_d val
unfolding fclass_d
fclass_d-class_of val h = ground arith
