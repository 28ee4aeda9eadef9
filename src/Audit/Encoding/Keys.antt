-- ===== src/Audit/Encoding/Keys.antt =====
-- sort.Strings, and a map[string]string whose keys are written in that order (the end of Hash).
use cratos_ai.Prelude.{
  ℕ, ◌≡◌, refl, ap, ◌∙◌, Bool, true, false, ◌&&◌, ◌||◌, Option, none, some, List, [], ◌∷◌, arith,
  ltb, ◌==◌, All, is_some, coalesce, if◌then◌else◌, Bool-cases, inl, inr,
}

abbrev pub Bytes : Type 0
Bytes = List ℕ

-- Texts are compared byte by byte.
unfoldable pub same_bytes : Bytes → Bytes → Bool
same_bytes [] [] = true
same_bytes [] (b ∷ t) = false
same_bytes (a ∷ s) [] = false
same_bytes (a ∷ s) (b ∷ t) = a == b && same_bytes s t

unfoldable pub bytes_le : Bytes → Bytes → Bool
bytes_le [] t = true
bytes_le (a ∷ s) [] = false
bytes_le (a ∷ s) (b ∷ t) = ltb a b || (a == b && bytes_le s t)

unfoldable pub insert_key : Bytes → List Bytes → List Bytes
insert_key k [] = k ∷ []
insert_key k (x ∷ xs) = if bytes_le k x then k ∷ x ∷ xs else x ∷ insert_key k xs

unfoldable pub sort_strings : List Bytes → List Bytes
sort_strings [] = []
sort_strings (k ∷ ks) = insert_key k (sort_strings ks)

-- A map: the first pair of a key is its value. (Go's maps hold a key once, in no order.)
abbrev pub Details : Type 0
Details = List (Bytes × Bytes)

unfoldable pub lookup : Details → Bytes → Option Bytes
lookup [] k = none
lookup ((j, v) ∷ d) k = if same_bytes j k then some v else lookup d k

-- m[k], the zero value if the key is not there.
unfoldable pub get_value : Details → Bytes → Bytes
get_value d k = coalesce (lookup d k) []

unfoldable pub keys : Details → List Bytes
keys [] = []
keys ((k, v) ∷ d) = k ∷ keys d

unfoldable pub detail_fields : Details → List Bytes → List Bytes
detail_fields d [] = []
detail_fields d (k ∷ ks) = k ∷ get_value d k ∷ detail_fields d ks

pub same_bytes→eq : (s t : Bytes) → same_bytes s t ≡ true → s ≡ t
unfolding same_bytes
same_bytes→eq [] [] h = refl
same_bytes→eq [] (b ∷ t) h = cc
same_bytes→eq (a ∷ s) [] h = cc
same_bytes→eq (a ∷ s) (b ∷ t) h = ground (arith, same_bytes→eq s t)

has : Bytes → List Bytes → Bool
has k [] = false
has k (x ∷ xs) = same_bytes x k || has k xs

has-insert_key :
    (j k : Bytes) (xs : List Bytes) → has j (insert_key k xs) ≡ (same_bytes k j || has j xs)
unfolding has insert_key
has-insert_key j k [] = refl
has-insert_key j k (x ∷ xs) = ground (arith, has-insert_key j k xs)

has-sort_strings : (j : Bytes) (xs : List Bytes) → has j (sort_strings xs) ≡ has j xs
unfolding has sort_strings
has-sort_strings j [] = refl
has-sort_strings j (x ∷ xs) =
    has-insert_key j x (sort_strings xs) ∙ ap (λ b. same_bytes x j || b) (has-sort_strings j xs)

has-keys : (k : Bytes) (d : Details) → has k (keys d) ≡ is_some (lookup d k)
unfolding has keys lookup
has-keys k [] = refl
has-keys k ((j, v) ∷ d) = ground (arith, has-keys k d)

-- The keys in their order, and the value at each, can be read off the fields.
fields_agree :
    (c d : Details) (js ks : List Bytes)
    → detail_fields c js ≡ detail_fields d ks
    → (js ≡ ks) × All (λ k. get_value c k ≡ get_value d k) ks
unfolding detail_fields
fields_agree c d [] [] e = (refl, tt)
fields_agree c d [] (k ∷ ks) e = cc
fields_agree c d (j ∷ js) [] e = cc
fields_agree c d (j ∷ js) (k ∷ ks) e =
    let (same, rest) = fields_agree c d js ks (cc e) in
    let here : j ≡ k = cc e in
    let value : get_value c j ≡ get_value d k = cc e in (cc (here, same), (rw here at value, rest))

value_at :
    (c d : Details) (k : Bytes) (ks : List Bytes)
    → has k ks ≡ true
    → All (λ j. get_value c j ≡ get_value d j) ks
    → get_value c k ≡ get_value d k
unfolding has
value_at c d k [] h all = cc
value_at c d k (x ∷ xs) h (v, all) = elim (Bool-cases (same_bytes x k)) [
  | inl same ↦ rw (same_bytes→eq x k same) at v
  | inr other ↦ value_at c d k xs (rw other at h) all
]

-- Two maps with the same fields have the same value, or none, at every key.
pub detail_fields-lookup :
    (c d : Details)
    → detail_fields c (sort_strings (keys c)) ≡ detail_fields d (sort_strings (keys d))
    → (k : Bytes) → lookup c k ≡ lookup d k
detail_fields-lookup c d e k =
    let (same, all) = fields_agree c d (sort_strings (keys c)) (sort_strings (keys d)) e in
    let hc = has-sort_strings k (keys c) ∙ has-keys k c in
    let hd = has-sort_strings k (keys d) ∙ has-keys k d in
    let there = value_at c d k (sort_strings (keys d)) in
    unfold get_value in ground (arith, hc, hd, ap (has k) same, there)

pub same_bytes_refl : (s : Bytes) → same_bytes s s ≡ true
unfolding same_bytes
same_bytes_refl [] = refl
same_bytes_refl (a ∷ s) = ground (arith, same_bytes_refl s)
