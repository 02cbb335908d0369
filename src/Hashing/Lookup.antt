-- ===== src/Hashing/Lookup.antt =====
-- src/generator/x86_64/hashing.cpp: once `build` has returned true, the lookup finds every key.
use erap_sbt.Base.{
  ℕ, ◌/◌, ◌%◌, ◌<◌, ◌==◌, ◌≡◌, refl, sym, ◌∙◌, ap, true, false, Bool-cases, inl, inr, if◌then◌else◌,
  Option, none, some, List, [], ◌∷◌, arith,
}
use std.Path.{subst}
use erap_sbt.Hashing.Build.{
  Hash, Bins, hashed_idx, Search, search, uint16_max, build_buckets, empty, build, lookup_key,
}
use erap_sbt.Hashing.Found.{
  All, Keeps, Keeps-trans, Stored, Stored-Keeps, Outcomes, search-Outcomes,
}

-- The hashes of a bucket have the first hash in common.
abbrev pub IsBucket : List Hash → Type 0
IsBucket [] = Unit
IsBucket (front ∷ hs) = All (λ h. h.h0 ≡ front.h0) hs

-- The bucket is empty or has another first hash.
abbrev pub Avoids : ℕ → List Hash → Type 0
Avoids j [] = Unit
Avoids j (front ∷ hs) = (front.h0 == j) ≡ false

abbrev pub IsFirst : List Hash → List (List Hash) → Type 0
IsFirst [] buckets = Unit
IsFirst (front ∷ hs) buckets = All (Avoids front.h0) buckets

-- Buckets by first hash, in any order.
abbrev pub AreBuckets : List (List Hash) → Type 0
AreBuckets [] = Unit
AreBuckets (bucket ∷ buckets) = IsBucket bucket × IsFirst bucket buckets × AreBuckets buckets

-- The lookup finds the keys of a bucket.
abbrev pub Finds : ℕ → (ℕ → ℕ) → Bins → List Hash → Type 0
Finds size idxs t bucket = All (λ h. lookup_key size idxs t h ≡ h.key) bucket

abbrev Result : Type 0
Result = Option ((ℕ → ℕ) × Bins)

-- What the construction leaves where it succeeds.
abbrev Built : ℕ → List (List Hash) → (ℕ → ℕ) → Bins → Result → Type 0
Built size buckets idxs t none = Unit
Built size buckets idxs t (some (idxs', t')) =
    Keeps t t'
    × ((j : ℕ) → All (Avoids j) buckets → idxs' j ≡ idxs j)
    × All (Finds size idxs' t') buckets

-- The search for one bucket.
abbrev searched : ℕ → Hash → List Hash → (ℕ → ℕ) → Bins → Search
searched size front hs idxs t =
    search uint16_max size front (front ∷ hs) 0 0
      (record { combination_idx = 0; hash_idxs = idxs; bins = t })

-- The keys of a bucket in the final bins, from where the search has stored them.
Finds-Stored :
    (size c : ℕ) (t t' : Bins) (idxs' : ℕ → ℕ) (h0 : ℕ) (hs : List Hash)
    → Keeps t t'
    → idxs' h0 ≡ c
    → All (λ h. h.h0 ≡ h0) hs
    → All (λ h. Stored t (hashed_idx size (c / size) (c % size) h) h.key) hs
    → Finds size idxs' t' hs
Finds-Stored size c t t' idxs' h0 [] k e same stored = tt
Finds-Stored size c t t' idxs' h0 (h ∷ hs) k e (q, same) (p, stored) = (
  ap (λ n. t'.table (hashed_idx size (n / size) (n % size) h)) (ap idxs' q ∙ e)
      ∙ (Stored-Keeps t t' (hashed_idx size (c / size) (c % size) h) h.key p k).1,
  Finds-Stored size c t t' idxs' h0 hs k e same stored,
)

-- A bucket that was found, in front of the others.
front-Built :
    (size : ℕ) (front : Hash) (hs : List Hash) (buckets : List (List Hash)) (idxs : ℕ → ℕ)
    (t : Bins) (s : Search) (o : Result)
    → IsBucket (front ∷ hs)
    → All (Avoids front.h0) buckets
    → Keeps t s.bins
    → ((j : ℕ) → (front.h0 == j) ≡ false → s.hash_idxs j ≡ idxs j)
    → s.hash_idxs front.h0 ≡ s.combination_idx
    → All
        (λ h.
          Stored s.bins
            (hashed_idx size (s.combination_idx / size) (s.combination_idx % size) h)
            h.key)
        (front ∷ hs)
    → Built size buckets s.hash_idxs s.bins o
    → Built size ((front ∷ hs) ∷ buckets) idxs t o
front-Built size front hs buckets idxs t s none b a k others e stored built = tt
front-Built size front hs buckets idxs t s (some (idxs', t')) b a k others e stored
      (k', same, finds) =
    (
      Keeps-trans t s.bins t' k k',
      λ j (p, q). same j q ∙ others j p,
      (
        Finds-Stored size s.combination_idx s.bins t' idxs' front.h0 (front ∷ hs) k'
            (same front.h0 a ∙ e) (refl, b) stored,
        finds,
      ),
    )

skipped-Built :
    (size : ℕ) (buckets : List (List Hash)) (idxs : ℕ → ℕ) (t : Bins) (o : Result)
    → Built size buckets idxs t o
    → Built size ([] ∷ buckets) idxs t o
skipped-Built size buckets idxs t none h = tt
skipped-Built size buckets idxs t (some (idxs', t')) (k, same, finds) =
    (k, λ j a. same j a.1, (tt, finds))

-- The indices stay below `UINT16_MAX`.
bounded :
    (front : Hash) (idxs : ℕ → ℕ) (s : Search)
    → ((j : ℕ) → idxs j < uint16_max)
    → ((j : ℕ) → (front.h0 == j) ≡ false → s.hash_idxs j ≡ idxs j)
    → s.hash_idxs front.h0 < uint16_max
    → (j : ℕ) → s.hash_idxs j < uint16_max
bounded front idxs s h others room j = elim (Bool-cases (front.h0 == j)) [
  | inl e ↦ subst (λ i. s.hash_idxs i < uint16_max) (equal front.h0 j e) room
  | inr e ↦ subst (λ i. i < uint16_max) (sym (others j e)) (h j)
]
  where
    equal : (i j : ℕ) → (i == j) ≡ true → i ≡ j
    equal i j h = ground arith

-- One bucket: the test behind its search, and the other buckets.
tested-Built :
    (size : ℕ) (front : Hash) (hs : List Hash) (buckets : List (List Hash)) (idxs : ℕ → ℕ)
    (t : Bins) (s : Search) (rest : (ℕ → ℕ) → Bins → Result)
    → IsBucket (front ∷ hs)
    → All (Avoids front.h0) buckets
    → ((j : ℕ) → idxs j < uint16_max)
    → Outcomes size front
        (front ∷ hs)
        (record { combination_idx = 0; hash_idxs = idxs; bins = t })
        s
    → ((idxs' : ℕ → ℕ) (t' : Bins)
        → ((j : ℕ) → idxs' j < uint16_max)
        → Built size buckets idxs' t' (rest idxs' t'))
    → Built size
        ((front ∷ hs) ∷ buckets)
        idxs
        t
        (if s.hash_idxs front.h0 == s.combination_idx then rest s.hash_idxs s.bins else none)
tested-Built size front hs buckets idxs t s rest b f h (k, others, found) built =
    elim (Bool-cases (s.hash_idxs front.h0 == s.combination_idx)) [
      | inr e ↦ rw e tt
      | inl e ↦ rw e (elim found [
        | inl (same, room, stored) ↦
            front-Built size front hs buckets idxs t s (rest s.hash_idxs s.bins) b f k others same
              stored (built s.hash_idxs s.bins (bounded front idxs s h others (rw same room)))
        | inr (full, same) ↦ absurd (no_index (h front.h0) e full same)
      ])
    ]
  where
    no_index : {i j c : ℕ} → i < uint16_max → (j == c) ≡ true → c ≡ uint16_max → j ≡ i → ⊥
    no_index p e f g = ground arith

build_buckets-Built :
    (size : ℕ) (buckets : List (List Hash)) (idxs : ℕ → ℕ) (t : Bins)
    → 0 < size
    → AreBuckets buckets
    → ((j : ℕ) → idxs j < uint16_max)
    → Built size buckets idxs t (build_buckets size buckets idxs t)
unfolding build_buckets
build_buckets-Built size [] idxs t z a h = (λ i e. (e, refl), λ j e. refl, tt)
build_buckets-Built size ([] ∷ buckets) idxs t z (b, f, a) h =
    skipped-Built size buckets idxs t (build_buckets size buckets idxs t)
      (build_buckets-Built size buckets idxs t z a h)
build_buckets-Built size ((front ∷ hs) ∷ buckets) idxs t z (b, f, a) h =
    tested-Built size front hs buckets idxs t (searched size front hs idxs t)
      (λ idxs' t'. build_buckets size buckets idxs' t') b f h
      (search-Outcomes uint16_max size front (front ∷ hs) 0 0
        (record { combination_idx = 0; hash_idxs = idxs; bins = t }) z (omega arith) refl)
      (λ idxs' t' h'. build_buckets-Built size buckets idxs' t' z a h')

-- For a table that is not empty and buckets by first hash, in any order: where `build` returns
-- true, the lookup of each of their keys, by its hashes, finds the key.
pub build-Finds :
    (size : ℕ) (buckets : List (List Hash)) (idxs : ℕ → ℕ) (t : Bins)
    → 0 < size
    → AreBuckets buckets
    → build size buckets ≡ some (idxs, t)
    → All (Finds size idxs t) buckets
unfolding build
build-Finds size buckets idxs t z a e =
    (subst (Built size buckets (λ i. 0) empty) e
      (build_buckets-Built size buckets (λ i. 0) empty z a (λ j. omega arith))).2
