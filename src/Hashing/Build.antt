-- ===== src/Hashing/Build.antt =====
-- src/generator/x86_64/hashing.cpp: `HashtableBuilder::build` behind the sorting of the buckets, and
-- the lookup that `print_ijump_lookup` prints.
use erap_sbt.Base.{
  ℕ, zero, suc, ◌+◌, ◌*◌, ◌/◌, ◌%◌, ◌==◌, ◌||◌, ltb, Bool, true, false, if◌then◌else◌, Option, none,
  some, List, [], ◌∷◌, length,
}
use erap_sbt.Hashing.{word}

-- A key with its hashes.
pub record Hash : Type 0 where
  pub h0 : ℕ
  pub h1 : ℕ
  pub h2 : ℕ
  pub key : ℕ

-- `occupied_bins` and `hash_table`.
pub record Bins : Type 0 where
  pub occupied : ℕ → Bool
  pub table : ℕ → ℕ

abbrev pub set_at {ℓ} : {A : Type ℓ} → (ℕ → A) → ℕ → A → ℕ → A
set_at f i v j = if i == j then v else f j

-- `hashed_idx`
abbrev pub hashed_idx : ℕ → ℕ → ℕ → Hash → ℕ
hashed_idx size d0 d1 h = word (h.h1 + d0 * h.h2 + d1) % size

abbrev pub occupy : ℕ → ℕ → Bins → Bins
occupy i key t = record { occupied = set_at t.occupied i true; table = set_at t.table i key }

-- The reversal of the false inserts.
unfoldable pub revert : List ℕ → Bins → Bins
revert [] t = t
revert (i ∷ valid_idxs) t =
    revert valid_idxs (record { occupied = set_at t.occupied i false; table = set_at t.table i 0 })

-- The loop over the hashes of a bucket, with `valid_idxs`, the newest first.
unfoldable pub place : (Hash → ℕ) → List Hash → List ℕ → Bins → List ℕ × Bins
unfolding revert
place idx [] valid_idxs t = (valid_idxs, t)
place idx (h ∷ hs) valid_idxs t =
    let rest = place idx hs (idx h ∷ valid_idxs) (occupy (idx h) h.key t) in
    if t.occupied (idx h) then (valid_idxs, revert valid_idxs t) else rest

-- `combination_idx`, `hash_idxs` and the bins.
pub record Search : Type 0 where
  pub combination_idx : ℕ
  pub hash_idxs : ℕ → ℕ
  pub bins : Bins

-- The search for the functions of a bucket that is not empty. The first argument is
-- `UINT16_MAX - combination_idx`, which the loop tests and counts down to zero.
unfoldable pub search : ℕ → ℕ → Hash → List Hash → ℕ → ℕ → Search → Search
unfolding place
search zero size front bucket d0 d1 s = s
search (suc n) size front bucket d0 d1 s =
    let placed = place (hashed_idx size d0 d1) bucket [] s.bins in
    let failed : Search = record s { combination_idx = suc s.combination_idx; bins = placed.1 } in
    let same_d0 = search n size front bucket d0 (suc d1) failed in
    let next_d0 = search n size front bucket (suc d0) 0 failed in
    let found : Search = record s {
      hash_idxs = set_at s.hash_idxs front.h0 s.combination_idx;
      bins = placed.1;
    } in
    if ltb d0 size || ltb d1 size
    then if length placed.0 == length bucket
      then found
      else if ltb (suc d1) size
      then same_d0
      else next_d0
    else s

abbrev pub uint16_max : ℕ
uint16_max = 65535

-- The loop over the buckets; `none` where the function returns false.
unfoldable pub build_buckets : ℕ → List (List Hash) → (ℕ → ℕ) → Bins → Option ((ℕ → ℕ) × Bins)
unfolding search
build_buckets size [] hash_idxs t = some (hash_idxs, t)
build_buckets size ([] ∷ buckets) hash_idxs t = build_buckets size buckets hash_idxs t
build_buckets size ((front ∷ hs) ∷ buckets) hash_idxs t =
    let s =
      search uint16_max size front (front ∷ hs) 0 0
        (record { combination_idx = 0; hash_idxs = hash_idxs; bins = t }) in
    let rest = build_buckets size buckets s.hash_idxs s.bins in
    if s.hash_idxs front.h0 == s.combination_idx then rest else none

abbrev pub empty : Bins
empty = record { occupied = λ i. false; table = λ i. 0 }

-- `build`, on the buckets in the order in which the sorting leaves them.
unfoldable pub build : ℕ → List (List Hash) → Option ((ℕ → ℕ) × Bins)
unfolding build_buckets
build size buckets = build_buckets size buckets (λ i. 0) empty

-- The key that the lookup compares with the jump's target. The printed code divides the sum in 128
-- bits, where `hashed_idx` wraps around at 64; the sums of the indices that `build` stores are far
-- below that for any table that fits into memory.
abbrev pub lookup_key : ℕ → (ℕ → ℕ) → Bins → Hash → ℕ
lookup_key size hash_idxs t h =
    t.table (hashed_idx size (hash_idxs h.h0 / size) (hash_idxs h.h0 % size) h)
