-- ===== src/Voice/Counts.antt =====
-- A Go map from an id to an int, where a missing key reads as 0. An id is known by the number that
-- its text stands for.
use cratos_ai.Prelude.{
  ℕ, ◌==◌, ◌≡◌, refl, List, [], ◌∷◌, if◌then◌else◌, arith, Bool-cases, inl, inr,
}

pub record Entry : Type 0 where
  pub key : ℕ
  pub count : ℕ

abbrev pub get : ℕ → List Entry → ℕ
get k [] = 0
get k (e ∷ es) = let rest = get k es in if e.key == k then e.count else rest

-- m[k] = n
abbrev pub put : ℕ → ℕ → List Entry → List Entry
put k n [] = record { key = k; count = n } ∷ []
put k n (e ∷ es) =
    let rest = put k n es in if e.key == k then record e { count = n } ∷ es else e ∷ rest

-- delete(m, k)
abbrev pub delete : ℕ → List Entry → List Entry
delete k [] = []
delete k (e ∷ es) = let rest = delete k es in if e.key == k then rest else e ∷ rest

pub get-put :
    (k k' n : ℕ) (es : List Entry) → get k' (put k n es) ≡ (if k == k' then n else get k' es)
get-put k k' n [] = refl
get-put k k' n (e ∷ es) = elim (Bool-cases (e.key == k)) [
  | inl t ↦ rw t (ground arith)
  | inr t ↦ rw t (ground (arith, get-put k k' n es))
]

pub get-delete :
    (k k' : ℕ) (es : List Entry) → get k' (delete k es) ≡ (if k == k' then 0 else get k' es)
get-delete k k' [] = ground arith
get-delete k k' (e ∷ es) = elim (Bool-cases (e.key == k)) [
  | inl t ↦ rw t (ground (arith, get-delete k k' es))
  | inr t ↦ rw t (ground (arith, get-delete k k' es))
]
