-- ===== src/Hashing.antt =====
-- src/generator/x86_64/hashing.cpp: the hash of a jump target. A word is a number below 2 ^ 64.
pub mod Build
pub mod Found
pub mod Lookup
mod Tests
use erap_sbt.Base.{
  ℕ, ◌+◌, ◌-◌, ◌*◌, ◌/◌, ◌%◌, ◌^◌, ◌==◌, if◌then◌else◌, bit_or, bit_xor, Outcome, ok, undefined,
}

abbrev pub word : ℕ → ℕ
word n = n % 2 ^ 64

-- `rot_64`, for an amount from 1 to 63.
unfoldable pub rot_64 : ℕ → ℕ → ℕ
rot_64 x k = bit_or (word (x * 2 ^ k)) (x / 2 ^ (64 - k))

abbrev pub sc_const : ℕ
sc_const = 16045690984833335023

pub record Words : Type 0 where
  pub h0 : ℕ
  pub h1 : ℕ
  pub h2 : ℕ
  pub h3 : ℕ

-- Three statements that are repeated with the variables in turn: `x ^= y; y = rot(y, k); x += y`.
unfoldable pub mix_3_2 : ℕ → Words → Words
unfolding rot_64
mix_3_2 k w = let r = rot_64 w.h2 k in record w { h3 = word (bit_xor w.h3 w.h2 + r); h2 = r }

unfoldable pub mix_0_3 : ℕ → Words → Words
unfolding rot_64
mix_0_3 k w = let r = rot_64 w.h3 k in record w { h0 = word (bit_xor w.h0 w.h3 + r); h3 = r }

unfoldable pub mix_1_0 : ℕ → Words → Words
unfolding rot_64
mix_1_0 k w = let r = rot_64 w.h0 k in record w { h1 = word (bit_xor w.h1 w.h0 + r); h0 = r }

unfoldable pub mix_2_1 : ℕ → Words → Words
unfolding rot_64
mix_2_1 k w = let r = rot_64 w.h1 k in record w { h2 = word (bit_xor w.h2 w.h1 + r); h1 = r }

-- The words before the mixing; the seeds are 42 and 0xbeef, and a key has 8 bytes.
abbrev pub seeded : ℕ → Words
seeded key = record {
  h0 = 42;
  h1 = 48879;
  h2 = word (sc_const + 8 * 2 ^ 56);
  h3 = word (sc_const + key);
}

unfoldable pub mixed : Words → Words
unfolding mix_3_2 mix_0_3 mix_1_0 mix_2_1
mixed w =
    let a = mix_2_1 51 (mix_1_0 26 (mix_0_3 52 (mix_3_2 15 w))) in
    let b = mix_2_1 54 (mix_1_0 47 (mix_0_3 9 (mix_3_2 28 a))) in
    mix_1_0 63 (mix_0_3 25 (mix_3_2 32 b))

-- The three hashes; a remainder by zero is undefined.
unfoldable pub spookey_hash : ℕ → ℕ → ℕ → Outcome (ℕ × ℕ × ℕ)
unfolding mixed
spookey_hash bucket_number hash_table_size key =
    let w = mixed (seeded key) in
    if bucket_number == 0
    then undefined
    else if hash_table_size == 0
    then undefined
    else ok (w.h0 % bucket_number, w.h1 % hash_table_size, w.h2 % hash_table_size)
