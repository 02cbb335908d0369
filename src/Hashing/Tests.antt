-- ===== src/Hashing/Tests.antt =====
-- A table with one key.
use erap_sbt.Base.{refl, true, false, List, [], ◌∷◌, some, ◌≡◌, arith}
use erap_sbt.Hashing.Build.{Hash, set_at, build}
use erap_sbt.Hashing.Found.{All}
use erap_sbt.Hashing.Lookup.{Finds, build-Finds}

-- One bucket with one key.
abbrev stored : Hash
stored = record { h0 = 1; h1 = 2; h2 = 3; key = 4096 }

abbrev buckets : List (List Hash)
buckets = (stored ∷ []) ∷ [] ∷ []

built :
    build 4 buckets
    ≡ some (
      set_at (λ i. 0) 1 0,
      record { occupied = set_at (λ i. false) 2 true; table = set_at (λ i. 0) 2 4096 },
    )
unfolding build
built = refl

build-Finds_example :
    All
      (Finds 4
        (set_at (λ i. 0) 1 0)
        (record { occupied = set_at (λ i. false) 2 true; table = set_at (λ i. 0) 2 4096 }))
      buckets
build-Finds_example =
    build-Finds 4 buckets (set_at (λ i. 0) 1 0)
      (record { occupied = set_at (λ i. false) 2 true; table = set_at (λ i. 0) 2 4096 })
      (omega arith) (tt, (tt, tt), (tt, tt, tt)) built
