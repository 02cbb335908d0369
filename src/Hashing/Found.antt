-- ===== src/Hashing/Found.antt =====
-- src/generator/x86_64/hashing.cpp: once `build` has returned true, the lookup finds every key.
use erap_sbt.Base.{
  ℕ, zero, suc, ◌+◌, ◌*◌, ◌/◌, ◌%◌, ◌<◌, ◌==◌, ◌||◌, ltb, ◌≡◌, refl, sym, ◌∙◌, ap, Bool, true,
  false, Bool-cases, ◌⊎◌, inl, inr, if◌then◌else◌, List, [], ◌∷◌, length, arith,
}
use std.Path.{subst}
use native.Mathlib.Nat.{div-eq_of_lt-le, div-add-mod'}
use erap_sbt.Hashing.Build.{
  Hash, Bins, set_at, hashed_idx, occupy, revert, place, Search, search, uint16_max,
}

abbrev pub All {ℓ} : {A : Type ℓ} → (A → Type 0) → List A → Type 0
All P [] = Unit
All P (x ∷ xs) = P x × All P xs

-- The keys of the first bins are still in the second ones.
abbrev pub Keeps : Bins → Bins → Type 0
Keeps t t' = (i : ℕ) → t.occupied i ≡ true → (t'.occupied i ≡ true) × (t'.table i ≡ t.table i)

abbrev pub Stored : Bins → ℕ → ℕ → Type 0
Stored t i key = (t.occupied i ≡ true) × (t.table i ≡ key)

pub Keeps-trans : (t t' t'' : Bins) → Keeps t t' → Keeps t' t'' → Keeps t t''
Keeps-trans t t' t'' h k i e = let (a, b) = h i e in let (c, d) = k i a in (c, d ∙ b)

pub Stored-Keeps : (t t' : Bins) (i key : ℕ) → Stored t i key → Keeps t t' → Stored t' i key
Stored-Keeps t t' i key (e, f) k = let (a, b) = k i e in (a, b ∙ f)

-- A bin that is free is none of the kept ones.
free_ne : (f : ℕ → Bool) (i j : ℕ) → f i ≡ false → f j ≡ true → (i == j) ≡ false
free_ne f i j e g = elim (Bool-cases (i == j)) [
  | inl h ↦ absurd (clash (sym e ∙ ap f (equal i j h) ∙ g))
  | inr h ↦ h
]
  where
    equal : (i j : ℕ) → (i == j) ≡ true → i ≡ j
    equal i j h = ground arith

    clash : false ≡ true → ⊥
    clash c = ground arith

same_index : (i : ℕ) → (i == i) ≡ true
same_index i = ground arith

occupy-Keeps : (i key : ℕ) (t : Bins) → t.occupied i ≡ false → Keeps t (occupy i key t)
occupy-Keeps i key t e j h = rw (free_ne t.occupied i j e h) (h, refl)

occupy-Stored : (i key : ℕ) (t : Bins) → Stored (occupy i key t) i key
occupy-Stored i key t = rw (same_index i) (refl, refl)

free-Keeps : (t t' : Bins) (i : ℕ) → Keeps t t' → t'.occupied i ≡ false → t.occupied i ≡ false
free-Keeps t t' i k e = elim (Bool-cases (t.occupied i)) [
  | inl h ↦ absurd (clash (sym (k i h).0 ∙ e))
  | inr h ↦ h
]
  where
    clash : true ≡ false → ⊥
    clash c = ground arith

-- Reverting inserts into bins that were free keeps the earlier keys.
revert-Keeps :
    (t : Bins) (idxs : List ℕ) (t' : Bins)
    → All (λ i. t.occupied i ≡ false) idxs
    → Keeps t t'
    → Keeps t (revert idxs t')
unfolding revert
revert-Keeps t [] t' a k = k
revert-Keeps t (i ∷ idxs) t' (e, a) k =
    revert-Keeps t idxs _ a (λ j h. rw (free_ne t.occupied i j e h) (k j h))

-- An attempt keeps the earlier keys, whether it succeeds or not.
place-Keeps :
    (idx : Hash → ℕ) (hs : List Hash) (idxs : List ℕ) (t t' : Bins)
    → All (λ i. t.occupied i ≡ false) idxs
    → Keeps t t'
    → Keeps t (place idx hs idxs t').1
unfolding place
place-Keeps idx [] idxs t t' a k = k
place-Keeps idx (h ∷ hs) idxs t t' a k = elim (Bool-cases (t'.occupied (idx h))) [
  | inl e ↦ rw e (revert-Keeps t idxs t' a k)
  | inr e ↦ rw e (
      place-Keeps idx hs (idx h ∷ idxs) t (occupy (idx h) h.key t') (free-Keeps t t' (idx h) k e, a)
        (Keeps-trans t t' (occupy (idx h) h.key t') k (occupy-Keeps (idx h) h.key t' e)))
]

place-free :
    (idx : Hash → ℕ) (h : Hash) (hs : List Hash) (idxs : List ℕ) (t : Bins)
    → t.occupied (idx h) ≡ false
    → place idx (h ∷ hs) idxs t ≡ place idx hs (idx h ∷ idxs) (occupy (idx h) h.key t)
unfolding place
place-free idx h hs idxs t o = rw o refl

-- An attempt that has placed every hash of the bucket has stored the keys.
place-Stored :
    (idx : Hash → ℕ) (hs : List Hash) (idxs : List ℕ) (t : Bins)
    → length (place idx hs idxs t).0 ≡ length hs + length idxs
    → Keeps t (place idx hs idxs t).1 × All (λ h. Stored (place idx hs idxs t).1 (idx h) h.key) hs
unfolding place
place-Stored idx [] idxs t e = (λ i h. (h, refl), tt)
place-Stored idx (h ∷ hs) idxs t e = elim (Bool-cases (t.occupied (idx h))) [
  | inl o ↦ absurd (too_few (length idxs) (length hs) (rw o at e))
  | inr o ↦
      let next = occupy (idx h) h.key t in
      let (k, a) =
        place-Stored idx hs (idx h ∷ idxs) next
          (shifted_count (length hs) (length idxs) (rw o at e)) in
      subst (λ p. Keeps t p.1 × All (λ g. Stored p.1 (idx g) g.key) (h ∷ hs))
        (sym (place-free idx h hs idxs t o))
        (
          Keeps-trans t next (place idx hs (idx h ∷ idxs) next).1 (occupy-Keeps (idx h) h.key t o)
              k,
          (
            Stored-Keeps next (place idx hs (idx h ∷ idxs) next).1 (idx h) h.key
                (occupy-Stored (idx h) h.key t) k,
            a,
          ),
        )
]
  where
    too_few : (n m : ℕ) → n ≡ suc m + n → ⊥
    too_few n m e = omega arith

    shifted_count : {k : ℕ} (m n : ℕ) → k ≡ suc m + n → k ≡ m + suc n
    shifted_count m n e = omega arith

-- The search for a bucket either stores its keys with the functions of `combination_idx`, or runs
-- out of functions.
abbrev pub Outcomes : ℕ → Hash → List Hash → Search → Search → Type 0
Outcomes size front bucket s r =
    Keeps s.bins r.bins
    × ((j : ℕ) → (front.h0 == j) ≡ false → r.hash_idxs j ≡ s.hash_idxs j)
    × (((r.hash_idxs front.h0 ≡ r.combination_idx)
          × (r.combination_idx < uint16_max)
          × All
              (λ h.
                Stored r.bins
                  (hashed_idx size (r.combination_idx / size) (r.combination_idx % size) h) h.key)
              bucket)
        ⊎ ((r.combination_idx ≡ uint16_max) × (r.hash_idxs front.h0 ≡ s.hash_idxs front.h0)))

later-Outcomes :
    (size : ℕ) (front : Hash) (bucket : List Hash) (s s' r : Search)
    → Keeps s.bins s'.bins
    → ((j : ℕ) → s'.hash_idxs j ≡ s.hash_idxs j)
    → Outcomes size front bucket s' r
    → Outcomes size front bucket s r
later-Outcomes size front bucket s s' r k same (k', others, inl found) =
    (Keeps-trans s.bins s'.bins r.bins k k', λ j e. others j e ∙ same j, inl found)
later-Outcomes size front bucket s s' r k same (k', others, inr (c, e)) =
    (Keeps-trans s.bins s'.bins r.bins k k', λ j e. others j e ∙ same j, inr (c, e ∙ same front.h0))

-- The pair of factors that a combination stands for.
combination :
    (size d0 d1 c : ℕ) → d1 < size → c ≡ d0 * size + d1 → (c / size ≡ d0) × (c % size ≡ d1)
combination size d0 d1 c h e =
    let q : c / size ≡ d0 =
      div-eq_of_lt-le size (omega (arith, e)) (omega (arith, next_multiple d0 size)) in
    (q, omega (arith, div-add-mod' c size, ap (λ n. n * size) q))
  where
    next_multiple : (n m : ℕ) → (n + 1) * m ≡ n * m + m
    next_multiple n m = omega arith

-- An attempt, and the search's state where it fails.
abbrev attempt : ℕ → List Hash → ℕ → ℕ → Search → List ℕ × Bins
attempt size bucket d0 d1 s = place (hashed_idx size d0 d1) bucket [] s.bins

abbrev failed : ℕ → List Hash → ℕ → ℕ → Search → Search
failed size bucket d0 d1 s = record s {
  combination_idx = suc s.combination_idx;
  bins = (attempt size bucket d0 d1 s).1;
}

abbrev found : ℕ → Hash → List Hash → ℕ → ℕ → Search → Search
found size front bucket d0 d1 s = record s {
  hash_idxs = set_at s.hash_idxs front.h0 s.combination_idx;
  bins = (attempt size bucket d0 d1 s).1;
}

-- While the second factor is an index of the table, the loop goes on.
search-suc :
    (n size : ℕ) (front : Hash) (bucket : List Hash) (d0 d1 : ℕ) (s : Search)
    → d1 < size
    → search (suc n) size front bucket d0 d1 s ≡ (
        if length (attempt size bucket d0 d1 s).0 == length bucket
        then found size front bucket d0 d1 s
        else if ltb (suc d1) size
        then search n size front bucket d0 (suc d1) (failed size bucket d0 d1 s)
        else search n size front bucket (suc d0) 0 (failed size bucket d0 d1 s))
unfolding search
search-suc n size front bucket d0 d1 s h = rw (guard (ltb d0 size) d1 size h) refl
  where
    guard : (b : Bool) (d1 size : ℕ) → d1 < size → (b || ltb d1 size) ≡ true
    guard b d1 size h = ground arith

attempt-Keeps :
    (size : ℕ) (bucket : List Hash) (d0 d1 : ℕ) (s : Search)
    → Keeps s.bins (attempt size bucket d0 d1 s).1
attempt-Keeps size bucket d0 d1 s =
    place-Keeps (hashed_idx size d0 d1) bucket [] s.bins s.bins tt (λ i h. (h, refl))

found-Outcomes :
    (size : ℕ) (front : Hash) (bucket : List Hash) (d0 d1 : ℕ) (s : Search)
    → d1 < size
    → s.combination_idx ≡ d0 * size + d1
    → s.combination_idx < uint16_max
    → (length (attempt size bucket d0 d1 s).0 == length bucket) ≡ true
    → Outcomes size front bucket s (found size front bucket d0 d1 s)
found-Outcomes size front bucket d0 d1 s h e room all =
    let (k, a) =
      place-Stored (hashed_idx size d0 d1) bucket [] s.bins (all_placed (length bucket) all) in
    let (row, column) = combination size d0 d1 s.combination_idx h e in
    (k, λ j o. rw o refl, inl (rw (same_index front.h0) refl, room, rw (row, column) a))
  where
    all_placed : {n : ℕ} (m : ℕ) → (n == m) ≡ true → n ≡ m + 0
    all_placed m e = ground arith

room : (n c : ℕ) → suc n + c ≡ uint16_max → c < uint16_max
room n c f = omega arith

small : {n m : ℕ} → ltb n m ≡ true → n < m
small e = ground arith

nonempty : (n m : ℕ) → n < m → 0 < m
nonempty n m h = omega arith

same_row : (d0 d1 size c : ℕ) → c ≡ d0 * size + d1 → suc c ≡ d0 * size + suc d1
same_row d0 d1 size c e = omega arith

next_row :
    (d0 d1 size c : ℕ)
    → d1 < size
    → ltb (suc d1) size ≡ false
    → c ≡ d0 * size + d1
    → suc c ≡ suc d0 * size + 0
next_row d0 d1 size c h over e = ground (arith, one_more d0 size)
  where
    one_more : (n m : ℕ) → suc n * m ≡ n * m + m
    one_more n m = omega arith

counted_up : (n c : ℕ) → suc n + c ≡ uint16_max → n + suc c ≡ uint16_max
counted_up n c f = omega arith

pub search-Outcomes :
    (n size : ℕ) (front : Hash) (bucket : List Hash) (d0 d1 : ℕ) (s : Search)
    → d1 < size
    → s.combination_idx ≡ d0 * size + d1
    → n + s.combination_idx ≡ uint16_max
    → Outcomes size front bucket s (search n size front bucket d0 d1 s)
unfolding search
search-Outcomes zero size front bucket d0 d1 s h e f =
    (λ i o. (o, refl), λ j o. refl, inr (counted f, refl))
  where
    counted : {c : ℕ} → 0 + c ≡ uint16_max → c ≡ uint16_max
    counted f = omega arith
search-Outcomes (suc n) size front bucket d0 d1 s h e f =
    subst (Outcomes size front bucket s) (sym (search-suc n size front bucket d0 d1 s h))
      (elim (Bool-cases (length (attempt size bucket d0 d1 s).0 == length bucket)) [
        | inl all ↦
            rw all (found-Outcomes size front bucket d0 d1 s h e (room n s.combination_idx f) all)
        | inr few ↦ elim (Bool-cases (ltb (suc d1) size)) [
          | inl more ↦
              rw (few, more)
                (later-Outcomes size front bucket s (failed size bucket d0 d1 s) _
                  (attempt-Keeps size bucket d0 d1 s) (λ j. refl)
                  (search-Outcomes n size front bucket d0 (suc d1) (failed size bucket d0 d1 s)
                    (small more) (same_row d0 d1 size s.combination_idx e)
                    (counted_up n s.combination_idx f)))
          | inr over ↦
              rw (few, over)
                (later-Outcomes size front bucket s (failed size bucket d0 d1 s) _
                  (attempt-Keeps size bucket d0 d1 s) (λ j. refl)
                  (search-Outcomes n size front bucket (suc d0) 0 (failed size bucket d0 d1 s)
                    (nonempty d1 size h) (next_row d0 d1 size s.combination_idx h over e)
                    (counted_up n s.combination_idx f)))
        ]
      ])
