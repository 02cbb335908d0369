-- ===== src/Dce/Remove.antt =====
-- src/ir/optimizer/dce.cpp: the inputs of a block that are not used, and their removal from a vector.
pub mod Laws
use erap_sbt.Base.{
  ℕ, zero, suc, ◌+◌, ◌-◌, ◌^◌, Bool, true, false, ◌&&◌, if◌then◌else◌, ltb, List, [], ◌∷◌, ◌++◌,
  length, reversed, Outcome, ok, panics, undefined,
}

-- `container.erase(std::next(container.begin(), index))`, for an index in range.
abbrev pub erase_at {ℓ} : {A : Type ℓ} → ℕ → List A → List A
erase_at i [] = []
erase_at zero (x ∷ xs) = xs
erase_at (suc i) (x ∷ xs) = x ∷ erase_at i xs

-- SIZE_MAX
abbrev pub size_max : ℕ
size_max = 2 ^ 64 - 1

-- The loop: the index of the step before, the indices that are left, and the container.
unfoldable pub remove_loop {ℓ} : {A : Type ℓ} → ℕ → List ℕ → List A → Outcome (ℕ × List A)
remove_loop prev_index [] container = ok (prev_index, container)
remove_loop prev_index (index ∷ rest) container =
    let shorter = remove_loop index rest (erase_at index container) in
    if ltb index prev_index && ltb index (length container) then shorter else panics

unfoldable pub remove_indices_sorted {ℓ} : {A : Type ℓ} → List A → List ℕ → Outcome (List A)
unfolding remove_loop
remove_indices_sorted container indices = elim (remove_loop size_max (reversed indices) container) [
  | ok (_, rest) ↦ ok rest
  | panics ↦ panics
  | undefined ↦ undefined
]

-- The positions, from a first one on, of the inputs that are not in use.
unfoldable pub unused_from : (ℕ → Bool) → ℕ → List ℕ → List ℕ
unused_from used i [] = []
unused_from used i (input ∷ inputs) =
    let rest = unused_from used (suc i) inputs in if used input then rest else i ∷ rest

unfoldable pub unused_indices : (ℕ → Bool) → List ℕ → List ℕ
unfolding unused_from
unused_indices used inputs = unused_from used 0 inputs
