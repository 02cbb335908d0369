-- ===== src/Dce/Remove/Laws.antt =====
-- src/ir/optimizer/dce.cpp: `remove_indices_sorted` with the indices that `dce` collects.
use erap_sbt.Base.{
  ℕ, suc, ◌+◌, ◌≤◌, ◌<◌, ◌≡◌, refl, ap, sym, ◌∙◌, Bool, true, ◌&&◌, if◌then◌else◌, ltb, List, [],
  ◌∷◌, ◌++◌, length, length-append, reversed, ok, arith, Bool-cases, inl, inr,
}
use erap_sbt.Dce.Remove.{
  erase_at, size_max, remove_loop, remove_indices_sorted, unused_from, unused_indices,
}

-- The entries of a container that stand where the input is in use.
abbrev pub select {ℓ} : {A : Type ℓ} → (ℕ → Bool) → List ℕ → List A → List A
select used (input ∷ inputs) (x ∷ xs) =
    let rest = select used inputs xs in if used input then x ∷ rest else rest
select used _ _ = []

module _ {ℓ} {A : Type ℓ} where
  append_assoc : (xs : List A) (y : A) (zs : List A) → (xs ++ (y ∷ [])) ++ zs ≡ xs ++ (y ∷ zs)
  append_assoc [] y zs = refl
  append_assoc (x ∷ xs) y zs = ap (λ t. x ∷ t) (append_assoc xs y zs)

  erase_at-append :
      (xs : List A) (y : A) (zs : List A) → erase_at (length xs) (xs ++ (y ∷ zs)) ≡ xs ++ zs
  erase_at-append [] y zs = refl
  erase_at-append (x ∷ xs) y zs = ap (λ t. x ∷ t) (erase_at-append xs y zs)

  erased :
      (n : ℕ) (xs : List A) (y : A) (zs : List A)
      → length xs ≡ n
      → erase_at n ((xs ++ (y ∷ [])) ++ zs) ≡ xs ++ zs
  erased n xs y zs l = rw (append_assoc xs y zs, ← l) (erase_at-append xs y zs)

  -- One more index at the end is one more step.
  remove_loop-snoc :
      (p : ℕ) (is : List ℕ) (i : ℕ) (c : List A) (q : ℕ) (d : List A)
      → remove_loop p is c ≡ ok (q, d)
      → i < q
      → i < length d
      → remove_loop p (is ++ (i ∷ [])) c ≡ ok (i, erase_at i d)
  unfolding remove_loop
  remove_loop-snoc p [] i c q d e h k = ground arith
  remove_loop-snoc p (j ∷ is) i c q d e h k = elim (Bool-cases (ltb j p && ltb j (length c))) [
    | inl t ↦ rw t (remove_loop-snoc j is i (erase_at j c) q d (sym (rest t) ∙ e) h k)
    | inr n ↦ absurd (ground arith)
  ]
    where
      rest :
          (ltb j p && ltb j (length c)) ≡ true
          → remove_loop p (j ∷ is) c ≡ remove_loop j is (erase_at j c)
      rest t = rw t refl

  -- The loop has taken the unused entries out of a container with some more entries in front, `n` in
  -- number, and its last index is not less than `n`.
  abbrev Selects : (ℕ → Bool) → ℕ → ℕ → List A → List ℕ → List A → Type ℓ
  Selects used p n before inputs c =
      (q : ℕ) × (remove_loop p (reversed (unused_from used n inputs)) (before ++ c)
        ≡ ok (q, before ++ select used inputs c))
      × (n ≤ q)

  one_more-Selects :
      (used : ℕ → Bool) (p n : ℕ) (before : List A) (input : ℕ) (inputs : List ℕ) (x : A)
      (c : List A)
      → length before ≡ n
      → Selects used p (suc n) (before ++ (x ∷ [])) inputs c
      → Selects used p n before (input ∷ inputs) (x ∷ c)
  unfolding unused_from
  one_more-Selects used p n before input inputs x c l (q, e, h) = elim (Bool-cases (used input)) [
    | inl t ↦ rw t (
      q,
      rw (← append_assoc before x c, ← append_assoc before x (select used inputs c)) e,
      omega arith,
    )
    | inr t ↦ rw t (
      n,
      rw (← append_assoc before x c) (
          remove_loop-snoc p (reversed (unused_from used (suc n) inputs)) n
            ((before ++ (x ∷ [])) ++ c) q ((before ++ (x ∷ [])) ++ select used inputs c) e h
            (omega (
              arith,
              length-append (before ++ (x ∷ [])) (select used inputs c),
              length-append before (x ∷ []),
            ))
          ∙ ap (λ d. ok (n, d)) (erased n before x (select used inputs c) l)),
      omega arith,
    )
  ]

  remove_loop-Selects :
      (used : ℕ → Bool) (p n : ℕ) (before : List A) (inputs : List ℕ) (c : List A)
      → length before ≡ n
      → length c ≡ length inputs
      → n + length inputs ≤ p
      → Selects used p n before inputs c
  unfolding remove_loop unused_from
  remove_loop-Selects used p n before [] [] l e h = (p, refl, omega arith)
  remove_loop-Selects used p n before [] (x ∷ c) l e h = absurd (omega (arith, e))
  remove_loop-Selects used p n before (input ∷ inputs) [] l e h = absurd (omega (arith, e))
  remove_loop-Selects used p n before (input ∷ inputs) (x ∷ c) l e h =
      one_more-Selects used p n before input inputs x c l (
        remove_loop-Selects used p (suc n) (before ++ (x ∷ [])) inputs c
          (length-append before (x ∷ []) ∙ omega arith) (omega (arith, e)) (omega arith))

  -- For inputs of a block and a vector with one entry for each of them, of a length that fits in
  -- `size_t`: removing the indices of the inputs that are not in use never fails, and leaves the
  -- entries of the inputs that are in use, in their order.
  pub remove_indices_sorted-unused_indices :
      (used : ℕ → Bool) (inputs : List ℕ) (container : List A)
      → length container ≡ length inputs
      → length inputs ≤ size_max
      → remove_indices_sorted container (unused_indices used inputs)
        ≡ ok (select used inputs container)
  unfolding remove_indices_sorted unused_indices
  remove_indices_sorted-unused_indices used inputs container e h =
      rw
        (
          remove_indices_sorted,
          (remove_loop-Selects used size_max 0 [] inputs container refl e (omega (arith, h))).1,
        )
        refl
