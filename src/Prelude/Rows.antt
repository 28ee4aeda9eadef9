-- ===== src/Prelude/Rows.antt =====
-- Tables with a numeric primary key: what the statements that select by key find and change.
use cratos_ai.Prelude.Tests.{◌==◌, if◌then◌else◌, ==→eq, Bool-cases, Option-cases}
use cratos_ai.Prelude.Lists.{
  All, count_where, select_where, find_where, update_where, min_by, insert_by, sort_by, take,
}
use Prim.Native.Nat.{ℕ, zero, suc, ◌≤◌}
use mathlib.Core.Path.{◌≡◌, refl, sym, subst}
use mathlib.Core.Logic.{inl, inr}
use mathlib.Core.Bool.{Bool, true, false, not, ◌&&◌}
use mathlib.Core.Option.{none, some}
use mathlib.Core.List.{List, [], ◌∷◌, ◌++◌}
use native.Mathlib.Omega.{arith}

module _ {ℓ} {A : Type ℓ} (key : A → ℕ) where
  abbrev pub has_key : ℕ → A → Bool
  has_key id x = key x == id

  -- No two rows have one key.
  abbrev pub Unique : List A → Type ℓ
  Unique [] = Unit {ℓ}
  Unique (x ∷ xs) = (find_where (has_key (key x)) xs ≡ none) × Unique xs

  pub key-find : (id : ℕ) (xs : List A) (t : A) → find_where (has_key id) xs ≡ some t → key t ≡ id
  key-find id [] t e = cc
  key-find id (x ∷ xs) t e = ground (arith, key-find id xs t)

  pub find-own :
      (id : ℕ) (xs : List A) (t : A)
      → find_where (has_key id) xs ≡ some t
      → find_where (has_key (key t)) xs ≡ some t
  find-own id xs t e = subst (λ k. find_where (has_key k) xs ≡ some t) (sym (key-find id xs t e)) e

  pub find-append_some :
      (p : A → Bool) (xs ys : List A) (t : A)
      → find_where p xs ≡ some t
      → find_where p (xs ++ ys) ≡ some t
  find-append_some p [] ys t e = cc
  find-append_some p (x ∷ xs) ys t e = ground (arith, find-append_some p xs ys t)

  pub find-append_none :
      (p : A → Bool) (xs ys : List A)
      → find_where p xs ≡ none
      → find_where p (xs ++ ys) ≡ find_where p ys
  find-append_none p [] ys e = refl
  find-append_none p (x ∷ xs) ys e = ground (arith, find-append_none p xs ys)

  pub Unique-snoc :
      (xs : List A) (y : A)
      → Unique xs
      → find_where (has_key (key y)) xs ≡ none
      → Unique (xs ++ y ∷ [])
  Unique-snoc [] y u e = (refl, tt)
  Unique-snoc (x ∷ xs) y (ux, u) e = (
    ground (arith, find-append_none (has_key (key x)) xs (y ∷ [])),
    Unique-snoc xs y u (ground arith),
  )

  module _ (p : A → Bool) (f : A → A) (same : (x : A) → key (f x) ≡ key x) where
    pub find-update_none :
        (id : ℕ) (xs : List A)
        → find_where (has_key id) xs ≡ none
        → find_where (has_key id) (update_where p f xs) ≡ none
    find-update_none id [] e = refl
    find-update_none id (x ∷ xs) e = ground (arith, same x, find-update_none id xs)

    -- A row is found by its key after an UPDATE as before it, changed if the condition held.
    pub find-update :
        (id : ℕ) (xs : List A) (t : A)
        → find_where (has_key id) xs ≡ some t
        → find_where (has_key id) (update_where p f xs) ≡ some (if p t then f t else t)
    find-update id [] t e = cc
    find-update id (x ∷ xs) t e = ground (arith, same x, find-update id xs t)

    pub Unique-update : (xs : List A) → Unique xs → Unique (update_where p f xs)
    Unique-update [] u = tt
    Unique-update (x ∷ xs) (ux, u) =
        (ground (arith, same x, find-update_none (key x) xs), Unique-update xs u)

  -- A condition that only rows of one key can meet.
  module _ (p : A → Bool) (id : ℕ) (narrow : (x : A) → p x ≡ true → key x ≡ id) where
    pub count-keyed_none : (xs : List A) → find_where (has_key id) xs ≡ none → count_where p xs ≡ 0
    count-keyed_none [] e = refl
    count-keyed_none (x ∷ xs) e = ground (arith, narrow x, count-keyed_none xs)

    pub count-keyed :
        (xs : List A) (t : A)
        → Unique xs
        → find_where (has_key id) xs ≡ some t
        → count_where p xs ≡ (if p t then 1 else 0)
    count-keyed [] t u e = cc
    count-keyed (x ∷ xs) t (ux, u) e =
        ground (arith, narrow x, count-keyed xs t u, count-keyed_none xs)

    pub update-keyed_none :
        (f : A → A) (xs : List A) → find_where (has_key id) xs ≡ none → update_where p f xs ≡ xs
    update-keyed_none f [] e = refl
    update-keyed_none f (x ∷ xs) e = ground (arith, narrow x, update-keyed_none f xs)

    pub find-keyed_none : (xs : List A) → find_where (has_key id) xs ≡ none → find_where p xs ≡ none
    find-keyed_none [] e = refl
    find-keyed_none (x ∷ xs) e = ground (arith, narrow x, find-keyed_none xs)

    -- A condition on one key is met by the row of that key, or by none.
    pub find-keyed :
        (xs : List A) (t : A)
        → Unique xs
        → find_where (has_key id) xs ≡ some t
        → find_where p xs ≡ (if p t then some t else none)
    find-keyed [] t u e = cc
    find-keyed (x ∷ xs) t (ux, u) e =
        ground (arith, narrow x, find-keyed xs t u, find-keyed_none xs)

    -- An UPDATE whose condition the row does not meet changes nothing.
    pub update-keyed_miss :
        (f : A → A) (xs : List A) (t : A)
        → Unique xs
        → find_where (has_key id) xs ≡ some t
        → p t ≡ false
        → update_where p f xs ≡ xs
    update-keyed_miss f [] t u e h = refl
    update-keyed_miss f (x ∷ xs) t (ux, u) e h =
        ground (arith, narrow x, update-keyed_miss f xs t u, update-keyed_none f xs)

  -- An UPDATE by key writes the one row of that key.
  pub All-update_keyed {κ} :
      (P : A → Type κ) (f : A → A) (id : ℕ) (xs : List A) (t : A)
      → Unique xs
      → find_where (has_key id) xs ≡ some t
      → P (f t)
      → All P xs
      → All P (update_where (has_key id) f xs)
  All-update_keyed P f id [] t u e pt h = tt
  All-update_keyed P f id (x ∷ xs) t (ux, u) e pt (hx, h) = elim (Bool-cases (key x == id)) [
    | inl here ↦
        let same : x ≡ t = ground arith in
        let gone : find_where (has_key id) xs ≡ none = ground arith in
        let rest : update_where (has_key id) f xs ≡ xs =
          update-keyed_none (has_key id) id (λ y z. ==→eq (key y) id z) f xs gone in
        rw here (rw (same, rest) (pt, h))
    | inr other ↦
        let found : find_where (has_key id) xs ≡ some t = ground arith in
        rw other (hx, All-update_keyed P f id xs t u found pt h)
  ]

  -- The row that ORDER BY … LIMIT 1 picks meets the condition and is the row of its key.
  pub min_by-select :
      (p : A → Bool) (order : A → ℕ) (xs : List A) (t : A)
      → Unique xs
      → min_by order (select_where p xs) ≡ some t
      → (p t ≡ true) × (find_where (has_key (key t)) xs ≡ some t)
  min_by-select p order [] t u e = cc
  min_by-select p order (x ∷ xs) t (ux, u) e =
      elim (Option-cases (min_by order (select_where p xs))) [
        | inl z ↦ ground arith
        | inr (y, z) ↦ let (h, g) = min_by-select p order xs y u z in ground (arith, h, g)
      ]

pub All-find {ℓ κ} :
    {A : Type ℓ} (P : A → Type κ) (p : A → Bool) (xs : List A) (t : A)
    → find_where p xs ≡ some t
    → All P xs
    → (p t ≡ true) × P t
All-find P p [] t e h = cc
All-find P p (x ∷ xs) t e (hx, h) = elim (Bool-cases (p x)) [
  | inl here ↦ let same : x ≡ t = ground arith in (rw same at here, rw same at hx)
  | inr other ↦ All-find P p xs t (ground arith) h
]

pub All-update {ℓ κ} :
    {A : Type ℓ} (P : A → Type κ) (p : A → Bool) (f : A → A)
    → ((x : A) → P x → p x ≡ true → P (f x))
    → (xs : List A) → All P xs
    → All P (update_where p f xs)
All-update P p f keep [] h = tt
All-update P p f keep (x ∷ xs) (hx, h) = elim (Bool-cases (p x)) [
  | inl e ↦ (rw e (keep x hx e), All-update P p f keep xs h)
  | inr e ↦ (rw e hx, All-update P p f keep xs h)
]

module _ {ℓ} {A : Type ℓ} (p : A → Bool) (order : A → ℕ) where
  min_by-none : (xs : List A) → min_by order (select_where p xs) ≡ none → All (λ x. p x ≡ false) xs
  min_by-none [] e = tt
  min_by-none (x ∷ xs) e = (ground arith, min_by-none xs (ground arith))

  abbrev AtLeast : ℕ → A → Type 0
  AtLeast k x = p x ≡ true → k ≤ order x

  AtLeast-none : (k : ℕ) (xs : List A) → All (λ x. p x ≡ false) xs → All (AtLeast k) xs
  AtLeast-none k [] h = tt
  AtLeast-none k (x ∷ xs) (hx, h) = (λ e. absurd (cc (hx, e)), AtLeast-none k xs h)

  AtLeast-lower : (k m : ℕ) (xs : List A) → k ≤ m → All (AtLeast m) xs → All (AtLeast k) xs
  AtLeast-lower k m [] l h = tt
  AtLeast-lower k m (x ∷ xs) l (hx, h) = (λ e. omega (arith, hx e), AtLeast-lower k m xs l h)

  -- None that meets the condition comes before the row that ORDER BY … LIMIT 1 picks.
  pub min_by-least :
      (xs : List A) (t : A)
      → min_by order (select_where p xs) ≡ some t
      → All (λ x. p x ≡ true → order t ≤ order x) xs
  min_by-least [] t e = cc
  min_by-least (x ∷ xs) t e = elim (Option-cases (min_by order (select_where p xs))) [
    | inl z ↦ (λ h. ground arith, AtLeast-none (order t) xs (min_by-none xs z))
    | inr (y, z) ↦ (
      λ h. ground arith,
      AtLeast-lower (order t) (order y) xs (ground arith) (min_by-least xs y z),
    )
  ]

-- After an UPDATE that ends a condition no row meets it.
pub find-update_ended {ℓ} :
    {A : Type ℓ} (p : A → Bool) (f : A → A)
    → ((x : A) → p (f x) ≡ false)
    → (xs : List A) → find_where p (update_where p f xs) ≡ none
find-update_ended p f ends [] = refl
find-update_ended p f ends (x ∷ xs) = ground (arith, ends x, find-update_ended p f ends xs)

module _ {ℓ κ} {A : Type ℓ} (P : A → Type κ) where
  pub All-select : (p : A → Bool) (xs : List A) → All P xs → All P (select_where p xs)
  All-select p [] h = tt
  All-select p (x ∷ xs) (hx, h) = elim (Bool-cases (p x)) [
    | inl e ↦ rw e (hx, All-select p xs h)
    | inr e ↦ rw e (All-select p xs h)
  ]

  pub All-take : (n : ℕ) (xs : List A) → All P xs → All P (take n xs)
  All-take zero xs h = tt
  All-take (suc n) [] h = tt
  All-take (suc n) (x ∷ xs) (hx, h) = (hx, All-take n xs h)

  All-insert :
      (before : A → A → Bool) (x : A) (xs : List A) → P x → All P xs → All P (insert_by before x xs)
  All-insert before x [] hx h = (hx, tt)
  All-insert before x (y ∷ ys) hx (hy, h) = elim (Bool-cases (before x y)) [
    | inl e ↦ rw e (hx, (hy, h))
    | inr e ↦ rw e (hy, All-insert before x ys hx h)
  ]

  pub All-sort : (before : A → A → Bool) (xs : List A) → All P xs → All P (sort_by before xs)
  All-sort before [] h = tt
  All-sort before (x ∷ xs) (hx, h) =
      All-insert before x (sort_by before xs) hx (All-sort before xs h)

-- Only rows that meet `p` may meet `q`.
module _ {ℓ} {A : Type ℓ} (p q : A → Bool) where
  abbrev pub Within : List A → Type 0
  Within xs = All (λ x. (not (p x) && q x) ≡ false) xs

  pub find-Within :
      (xs : List A) (s : A)
      → find_where p xs ≡ some s
      → Within xs
      → q s ≡ true
      → find_where q xs ≡ some s
  find-Within [] s e h t = cc
  find-Within (x ∷ xs) s e (hx, h) t = ground (arith, find-Within xs s)

  pub absent-Within : (xs : List A) → Within xs → find_where (λ x. not (p x) && q x) xs ≡ none
  absent-Within [] h = refl
  absent-Within (x ∷ xs) (hx, h) = ground (arith, absent-Within xs h)

pub find-met {ℓ} :
    {A : Type ℓ} (p : A → Bool) (xs : List A) (t : A) → find_where p xs ≡ some t → p t ≡ true
find-met p [] t e = cc
find-met p (x ∷ xs) t e = ground (arith, find-met p xs t)
